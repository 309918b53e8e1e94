-- ===== src/Sections/Edit.antt =====
-- `upsertSection` and `appendToSection`.
use pi_smart_compact.Base.{List, [], ◌∷◌, ◌++◌, String, Option, none, some, if◌then◌else◌}
use pi_smart_compact.OpenLoops.{is_text, first_some}
use pi_smart_compact.Continuity.{join}
use pi_smart_compact.Sections.{SectionKind, is_same, Section, TextOps, canonical_heading}

-- A bare kind is given as `before`.
pub record SectionPlacement : Type 0 where
  pub before : Option SectionKind
  pub after : Option SectionKind

-- `sections[existing] = …`, if there is one of the kind.
unfoldable pub replace_first :
    SectionKind → (Section → Section) → List Section → Option (List Section)
replace_first kind change [] = none
replace_first kind change (s ∷ sections) =
    if is_same s.kind kind
    then some (change s ∷ sections)
    else elim (replace_first kind change sections) [ none ↦ none | some rest ↦ some (s ∷ rest) ]

-- `splice(idx, 0, section)` at the first section of the kind.
unfoldable pub insert_before : SectionKind → Section → List Section → Option (List Section)
insert_before kind new [] = none
insert_before kind new (s ∷ sections) =
    if is_same s.kind kind
    then some (new ∷ s ∷ sections)
    else elim (insert_before kind new sections) [ none ↦ none | some rest ↦ some (s ∷ rest) ]

-- `splice(idx + 1, 0, section)` at the last one.
unfoldable pub insert_after : SectionKind → Section → List Section → Option (List Section)
insert_after kind new [] = none
insert_after kind new (s ∷ sections) = elim (insert_after kind new sections) [
  | some rest ↦ some (s ∷ rest)
  | none ↦ if is_same s.kind kind then some (s ∷ new ∷ sections) else none
]

abbrev pub at_kind :
    (SectionKind → Section → List Section → Option (List Section))
    → Option SectionKind
    → Section
    → List Section
    → Option (List Section)
at_kind insert none new sections = none
at_kind insert (some kind) new sections = insert kind new sections

abbrev pub or_else : Option (List Section) → List Section → List Section
or_else none sections = sections
or_else (some new) sections = new

unfoldable pub insert_at : SectionPlacement → Section → List Section → List Section
unfolding insert_before insert_after
insert_at placement new sections =
    or_else
      (first_some (at_kind insert_before placement.before new sections)
        (at_kind insert_after placement.after new sections))
      (sections ++ new ∷ [])

abbrev pub no_placement : SectionPlacement
no_placement = record { before = none; after = none }

module _ (ops : TextOps) where
  abbrev pub new_section : SectionKind → String → Section
  new_section kind body = record {
    kind = kind;
    heading = canonical_heading kind;
    body = ops.trim body;
  }

  unfoldable pub upsert_section :
      List Section → SectionKind → String → SectionPlacement → List Section
  unfolding replace_first insert_at canonical_heading
  upsert_section sections kind body placement =
      or_else (replace_first kind (λ s. new_section kind body) sections)
        (insert_at placement (new_section kind body) sections)

  -- The body that an appended text leads to: a body that says that there is nothing goes.
  abbrev pub appended : String → String → String
  appended body text =
      let kept = if ops.is_placeholder (ops.trim body) then "" else ops.trim body in
      if is_text kept "" then ops.trim text else join kept (join "\n" (ops.trim text))

  abbrev pub fallback : String → String → String
  fallback body text =
      if is_text (ops.trim body) ""
      then ops.trim text
      else join (ops.trim body) (join "\n" (ops.trim text))

  unfoldable pub append_to_section :
      List Section → SectionKind → (text fallback_body : String) → List Section
  unfolding replace_first upsert_section canonical_heading join
  append_to_section sections kind text fallback_body =
      or_else
        (replace_first kind
          (λ s. record {
            kind = kind;
            heading = canonical_heading kind;
            body = appended s.body text;
          })
          sections)
        (upsert_section sections kind (fallback fallback_body text) no_placement)

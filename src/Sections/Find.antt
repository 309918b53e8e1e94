-- ===== src/Sections/Find.antt =====
-- What a section's edit leaves to be found.
use pi_smart_compact.Base.{
  ◌≡◌, refl, List, [], ◌∷◌, ◌++◌, String, Bool, true, false, Option, none, some, arith, is_some,
  ◌∙◌, if◌then◌else◌, Option-cases, Bool-cases, inl, inr,
}
use pi_smart_compact.Sections.{
  SectionKind, is_same, Section, TextOps, canonical_heading, find_section,
}
use pi_smart_compact.Sections.Edit.{
  SectionPlacement, replace_first, insert_before, insert_after, at_kind, insert_at, new_section,
  upsert_section, appended, no_placement, fallback, append_to_section,
}

is_same_refl : (k : SectionKind) → is_same k k ≡ true
is_same_refl k = ground arith

abbrev change_found : (Section → Section) → Option Section → Option Section
change_found change none = none
change_found change (some s) = some (change s)

module _ (kind : SectionKind) (change : Section → Section)
    (kept : (s : Section) → (change s).kind ≡ kind) (j : SectionKind) where
  replace_first-none :
      (sections : List Section)
      → replace_first kind change sections ≡ none
      → find_section kind sections ≡ none
  unfolding replace_first find_section
  replace_first-none [] h = refl
  replace_first-none (s ∷ sections) h = elim (Bool-cases (is_same s.kind kind)) [
    | inl same ↦ absurd (ground (arith, h, same))
    | inr other ↦ elim (Option-cases (replace_first kind change sections)) [
      | inl e ↦ rw other (replace_first-none sections e)
      | inr (l, e) ↦ absurd (ground (arith, h, other, e))
    ]
  ]

  replace_first-find :
      (sections l : List Section)
      → replace_first kind change sections ≡ some l
      → find_section j l ≡ (
          if is_same kind j
          then change_found change (find_section j sections)
          else find_section j sections)
  unfolding replace_first find_section
  replace_first-find [] l h = absurd (ground (arith, h))
  replace_first-find (s ∷ sections) l h = elim (Bool-cases (is_same s.kind kind)) [
    | inl same ↦
        let e : change s ∷ sections ≡ l = ground (arith, h, same) in
        rw⁻¹ e (ground (arith, same, kept s))
    | inr other ↦ elim (Option-cases (replace_first kind change sections)) [
      | inl e ↦ absurd (ground (arith, h, other, e))
      | inr (rest, e) ↦
          let f : s ∷ rest ≡ l = ground (arith, h, other, e) in
          rw⁻¹ f (ground (arith, other, replace_first-find sections rest e))
    ]
  ]

  replace_first-present :
      (sections l : List Section)
      → replace_first kind change sections ≡ some l
      → is_same kind j ≡ true
      → is_some (find_section j sections) ≡ true
  unfolding replace_first find_section
  replace_first-present [] l h e = absurd (ground (arith, h))
  replace_first-present (s ∷ sections) l h e = elim (Bool-cases (is_same s.kind kind)) [
    | inl same ↦ ground (arith, same, e)
    | inr other ↦ elim (Option-cases (replace_first kind change sections)) [
      | inl f ↦ absurd (ground (arith, h, other, f))
      | inr (rest, f) ↦ ground (arith, other, e, replace_first-present sections rest f e)
    ]
  ]

module _ (new : Section) (j : SectionKind) where
  abbrev after_insert : List Section → Option Section
  after_insert sections = if is_same new.kind j then some new else find_section j sections

  abbrev IsAbsent : List Section → Type 0
  IsAbsent sections = is_same new.kind j ≡ true → find_section j sections ≡ none

  insert_before-find :
      (kind : SectionKind) (sections l : List Section)
      → IsAbsent sections
      → insert_before kind new sections ≡ some l
      → find_section j l ≡ after_insert sections
  unfolding insert_before find_section
  insert_before-find kind [] l absent h = absurd (ground (arith, h))
  insert_before-find kind (s ∷ sections) l absent h = elim (Bool-cases (is_same s.kind kind)) [
    | inl same ↦
        let e : new ∷ s ∷ sections ≡ l = ground (arith, h, same) in rw⁻¹ e (ground (arith, absent))
    | inr other ↦ elim (Option-cases (insert_before kind new sections)) [
      | inl e ↦ absurd (ground (arith, h, other, e))
      | inr (rest, e) ↦
          let f : s ∷ rest ≡ l = ground (arith, h, other, e) in
          let v = insert_before-find kind sections rest (λ n. ground (arith, absent n)) e in
          rw⁻¹ f (ground (arith, v, absent))
    ]
  ]

  insert_after-find :
      (kind : SectionKind) (sections l : List Section)
      → IsAbsent sections
      → insert_after kind new sections ≡ some l
      → find_section j l ≡ after_insert sections
  unfolding insert_after find_section
  insert_after-find kind [] l absent h = absurd (ground (arith, h))
  insert_after-find kind (s ∷ sections) l absent h =
      elim (Option-cases (insert_after kind new sections)) [
        | inl e ↦ elim (Bool-cases (is_same s.kind kind)) [
          | inl same ↦
              let f : s ∷ new ∷ sections ≡ l = ground (arith, h, same, e) in
              rw⁻¹ f (ground (arith, absent))
          | inr other ↦ absurd (ground (arith, h, other, e))
        ]
        | inr (rest, e) ↦
            let f : s ∷ rest ≡ l = ground (arith, h, e) in
            let v = insert_after-find kind sections rest (λ n. ground (arith, absent n)) e in
            rw⁻¹ f (ground (arith, v, absent))
      ]

  find_section-last :
      (sections : List Section)
      → IsAbsent sections
      → find_section j (sections ++ new ∷ []) ≡ after_insert sections
  unfolding find_section
  find_section-last [] absent = refl
  find_section-last (s ∷ sections) absent =
      let v = find_section-last sections (λ n. ground (arith, absent n)) in
      ground (arith, v, absent)

  at_before-find :
      (o : Option SectionKind) (sections l : List Section)
      → IsAbsent sections
      → at_kind insert_before o new sections ≡ some l
      → find_section j l ≡ after_insert sections
  at_before-find none sections l absent h = absurd (ground (arith, h))
  at_before-find (some kind) sections l absent h = insert_before-find kind sections l absent h

  at_after-find :
      (o : Option SectionKind) (sections l : List Section)
      → IsAbsent sections
      → at_kind insert_after o new sections ≡ some l
      → find_section j l ≡ after_insert sections
  at_after-find none sections l absent h = absurd (ground (arith, h))
  at_after-find (some kind) sections l absent h = insert_after-find kind sections l absent h

  insert_at-find :
      (placement : SectionPlacement) (sections : List Section)
      → IsAbsent sections
      → find_section j (insert_at placement new sections) ≡ after_insert sections
  unfolding insert_at
  insert_at-find placement sections absent =
      elim (Option-cases (at_kind insert_before placement.before new sections)) [
        | inr (l, e) ↦ rw (insert_at, e) (at_before-find placement.before sections l absent e)
        | inl e ↦ elim (Option-cases (at_kind insert_after placement.after new sections)) [
          | inr (l, f) ↦ rw (insert_at, e, f) (at_after-find placement.after sections l absent f)
          | inl f ↦ rw (insert_at, e, f) (find_section-last sections absent)
        ]
      ]

absent_same :
    (kind j : SectionKind) (sections : List Section)
    → find_section kind sections ≡ none
    → is_same kind j ≡ true
    → find_section j sections ≡ none
unfolding find_section
absent_same kind j [] h e = refl
absent_same kind j (s ∷ sections) h e = ground (arith, h, e, absent_same kind j sections)

found_or :
    (new : Section) (same : Bool) (before after : Option Section)
    → after ≡ (if same then change_found (λ s. new) before else before)
    → (same ≡ true → is_some before ≡ true)
    → after ≡ (if same then some new else before)
found_or new true none after e h = absurd (ground (arith, h refl))
found_or new true (some s) after e h = e
found_or new false before after e h = e

module _ (ops : TextOps) (kind : SectionKind) (j : SectionKind) where
  -- After an upsert the section found for its kind is the new one, under the canonical heading,
  -- and the section found for any other kind is as before, wherever the new one is placed.
  pub upsert_section-find :
      (sections : List Section) (body : String) (placement : SectionPlacement)
      → find_section j (upsert_section ops sections kind body placement)
        ≡ (if is_same kind j then some (new_section ops kind body) else find_section j sections)
  unfolding upsert_section
  upsert_section-find sections body placement =
      elim (Option-cases (replace_first kind (λ s. new_section ops kind body) sections)) [
        | inl e ↦
            let missing =
              replace_first-none kind (λ s. new_section ops kind body) (λ s. refl) j sections e in
            rw (upsert_section, e)
              (insert_at-find (new_section ops kind body) j placement sections
                (absent_same kind j sections missing))
        | inr (l, e) ↦
            let changed =
              replace_first-find kind (λ s. new_section ops kind body) (λ s. refl) j sections l e in
            let present =
              replace_first-present kind (λ s. new_section ops kind body) (λ s. refl) j sections l
                e in
            rw (upsert_section, e)
              (found_or (new_section ops kind body) (is_same kind j) (find_section j sections)
                (find_section j l) changed present)
      ]

  -- The section that an appended text leads to.
  abbrev pub with_text : String → String → Option Section → Section
  with_text text fallback_body none = new_section ops kind (fallback ops fallback_body text)
  with_text text fallback_body (some s) = record {
    kind = kind;
    heading = canonical_heading kind;
    body = appended ops s.body text;
  }

  appended_or :
      (text fallback_body : String) (same : Bool) (before after : Option Section)
      → after ≡ (
          if same
          then change_found
              (λ s. record {
                kind = kind;
                heading = canonical_heading kind;
                body = appended ops s.body text;
              })
              before
          else before)
      → (same ≡ true → is_some before ≡ true)
      → after ≡ (if same then some (with_text text fallback_body before) else before)
  appended_or text fallback_body true none after e h = absurd (ground (arith, h refl))
  appended_or text fallback_body true (some s) after e h = e
  appended_or text fallback_body false before after e h = e

  missing_text :
      (text fallback_body : String) (sections : List Section)
      → find_section kind sections ≡ none
      → (if is_same kind j
          then some (new_section ops kind (fallback ops fallback_body text))
          else find_section j sections)
        ≡ (if is_same kind j
            then some (with_text text fallback_body (find_section j sections))
            else find_section j sections)
  missing_text text fallback_body sections missing = elim (Bool-cases (is_same kind j)) [
    | inl same ↦ rw (same, absent_same kind j sections missing same) refl
    | inr other ↦ rw other refl
  ]

  -- After an append the section found for its kind has the text after its old body, which goes if
  -- it says that there is nothing, or is a new one with the fallback and the text; any other
  -- kind's section is as before.
  pub append_to_section-find :
      (sections : List Section) (text fallback_body : String)
      → find_section j (append_to_section ops sections kind text fallback_body) ≡ (
          if is_same kind j
          then some (with_text text fallback_body (find_section j sections))
          else find_section j sections)
  unfolding append_to_section
  append_to_section-find sections text fallback_body =
      let change : Section → Section = λ s. record {
        kind = kind;
        heading = canonical_heading kind;
        body = appended ops s.body text;
      } in
      elim (Option-cases (replace_first kind change sections)) [
        | inl e ↦
            let missing = replace_first-none kind change (λ s. refl) j sections e in
            rw (append_to_section, e)
              (upsert_section-find sections (fallback ops fallback_body text) no_placement
                ∙ missing_text text fallback_body sections missing)
        | inr (l, e) ↦
            rw (append_to_section, e)
              (appended_or text fallback_body (is_same kind j) (find_section j sections)
                (find_section j l) (replace_first-find kind change (λ s. refl) j sections l e)
                (replace_first-present kind change (λ s. refl) j sections l e))
      ]

-- ===== src/Sections/Distinct.antt =====
-- A parsed summary has one section for each kind.
use pi_smart_compact.Base.{
  ℕ, ◌+◌, ◌≤◌, ◌≡◌, refl, List, [], ◌∷◌, ◌++◌, String, Bool, true, false, not, Option, none, some,
  arith, ap, is_some, Bool-cases, inl, inr,
}
use pi_smart_compact.Sections.{
  SectionKind, unknown, is_same, Section, FenceMatch, HeadingMatch, TextOps, find_section,
}
use pi_smart_compact.Sections.Parse.{
  Parser, parser_start, merge_into, is_existing, flushed_body, flush_sections, push_line,
  next_fence, starts_section, open_section, heading_of, at_heading, at_line, parse_lines,
  parse_summary,
}

abbrev one_if : Bool → ℕ
one_if true = 1
one_if false = 0

-- How many sections are of a kind.
abbrev pub count_kind : SectionKind → List Section → ℕ
count_kind k [] = 0
count_kind k (s ∷ sections) = one_if (is_same s.kind k) + count_kind k sections

count_kind-append :
    (k : SectionKind) (sections : List Section) (s : Section)
    → count_kind k (sections ++ s ∷ []) ≡ count_kind k sections + one_if (is_same s.kind k)
count_kind-append k [] s = omega arith
count_kind-append k (x ∷ sections) s = omega (arith, count_kind-append k sections s)

count_kind-absent :
    (k : SectionKind) (sections : List Section)
    → find_section k sections ≡ none
    → count_kind k sections ≡ 0
unfolding find_section
count_kind-absent k [] h = refl
count_kind-absent k (s ∷ sections) h = ground (arith, h, count_kind-absent k sections)

count_kind-same :
    (j k : SectionKind) (sections : List Section)
    → is_same j k ≡ true
    → count_kind j sections ≡ count_kind k sections
count_kind-same j k [] h = refl
count_kind-same j k (s ∷ sections) h = ground (arith, h, count_kind-same j k sections)

module _ (ops : TextOps) (k : SectionKind) (known : is_same k unknown ≡ false) where
  count_kind-merge_into :
      (kind : SectionKind) (body : String) (sections : List Section)
      → count_kind k (merge_into ops kind body sections) ≡ count_kind k sections
  unfolding merge_into
  count_kind-merge_into kind body [] = refl
  count_kind-merge_into kind body (s ∷ sections) =
      ground (arith, count_kind-merge_into kind body sections)

  one_if_same : (s : Section) → is_same s.kind k ≡ true → one_if (is_same s.kind k) ≡ 1
  one_if_same s same = ap one_if same

  push_section :
      (sections : List Section) (s : Section)
      → is_existing ops s.kind sections ≡ false
      → count_kind k sections ≤ 1
      → count_kind k (sections ++ s ∷ []) ≤ 1
  push_section sections s fresh h = elim (Bool-cases (is_same s.kind k)) [
    | inr other ↦ ground (arith, h, other, count_kind-append k sections s)
    | inl same ↦
        let missing : is_some (find_section s.kind sections) ≡ false =
          ground (arith, fresh, same, known) in
        let empty : find_section s.kind sections ≡ none = ground (arith, missing) in
        omega (
          arith,
          count_kind-append k sections s,
          count_kind-absent s.kind sections empty,
          count_kind-same s.kind k sections same,
          one_if_same s same,
        )
  ]

  flush_sections-count :
      (p : Parser) → count_kind k p.sections ≤ 1 → count_kind k (flush_sections ops p) ≤ 1
  unfolding flush_sections
  flush_sections-count p h = elim (Bool-cases (not p.started)) [
    | inl idle ↦ rw (flush_sections, idle) h
    | inr begun ↦ elim (Bool-cases (is_existing ops p.kind p.sections)) [
      | inl old ↦
          rw
            (
              flush_sections,
              begun,
              old,
              count_kind-merge_into p.kind (flushed_body ops p) p.sections,
            )
            h
      | inr fresh ↦
          rw (flush_sections, begun, fresh)
            (push_section p.sections
              (record { kind = p.kind; heading = ops.trim p.heading; body = flushed_body ops p })
              fresh h)
    ]
  ]

  push_line-sections : (line : String) (p : Parser) → (push_line ops line p).sections ≡ p.sections
  push_line-sections line p = ground arith

  at_heading-count :
      (p : Parser) (line : String) (o : Option HeadingMatch)
      → count_kind k p.sections ≤ 1
      → count_kind k (at_heading ops p line o).sections ≤ 1
  unfolding open_section
  at_heading-count p line none h = rw (push_line-sections line p) h
  at_heading-count p line (some found) h = elim (Bool-cases (starts_section ops found)) [
    | inl starts ↦ rw starts (flush_sections-count p h)
    | inr stays ↦ rw (stays, push_line-sections line p) h
  ]

  at_line-count :
      (p : Parser) (line : String) (o : Option FenceMatch)
      → count_kind k p.sections ≤ 1
      → count_kind k (at_line ops p line o).sections ≤ 1
  at_line-count p line none h = at_heading-count p line (heading_of ops p line) h
  at_line-count p line (some found) h =
      rw (push_line-sections line (record p { fence = next_fence ops p.fence found })) h

  parse_lines-count :
      (p : Parser) (lines : List String)
      → count_kind k p.sections ≤ 1
      → count_kind k (parse_lines ops p lines).sections ≤ 1
  unfolding parse_lines
  parse_lines-count p [] h = h
  parse_lines-count p (line ∷ lines) h =
      parse_lines-count (at_line ops p line (ops.fence_match line)) lines
        (at_line-count p line (ops.fence_match line) h)

  -- Whatever the text, a parsed summary has at most one section of each kind but the unknown one.
  pub parse_summary-IsDistinct : (markdown : String) → count_kind k (parse_summary ops markdown) ≤ 1
  unfolding parse_summary parser_start
  parse_summary-IsDistinct markdown =
      flush_sections-count (parse_lines ops parser_start (ops.split_lines markdown))
        (parse_lines-count parser_start (ops.split_lines markdown) (omega arith))

-- ===== src/Tests/Sections.antt =====
-- Summaries that are parsed and edited (`src/domain/summary-parse.ts`).
use pi_smart_compact.Base.{
  ◌≤◌, ◌≡◌, refl, List, [], ◌∷◌, map, String, true, false, none, some, if◌then◌else◌,
  String_discrete,
}
use pi_smart_compact.OpenLoops.{is_text}
use pi_smart_compact.Sections.{
  goal, open_loops, next_steps, files_modified, unknown, kind_index, is_same, Section, TextOps,
  find_section, classify_text, canonical_heading,
}
use pi_smart_compact.Sections.Parse.{parse_summary}
use pi_smart_compact.Sections.Edit.{
  new_section, upsert_section, append_to_section, SectionPlacement,
}
use pi_smart_compact.Sections.Distinct.{count_kind, parse_summary-IsDistinct}
use pi_smart_compact.Sections.Find.{upsert_section-find}

-- A text of these tests is the names of its lines.
abbrev lines : String → List String
lines text =
    if is_text text "two"
    then "h:goal" ∷ "a" ∷ "```" ∷ "h:goal" ∷ "```" ∷ "h:goal" ∷ "b" ∷ []
    else text ∷ []

abbrev ops : TextOps
ops = record {
  trim = λ text. text;
  split_lines = lines;
  join_lines = λ parts. elim parts [ [] ↦ "" | line ∷ _ ↦ line ];
  fence_match = λ line.
      if is_text line "```"
      then some (record { is_tilde = false; marker_length = 3; is_bare = true })
      else none;
  heading_match =
      λ line. if is_text line "h:goal" then some (record { depth = 2; label = "goal" }) else none;
  heading_text = λ label. label;
  is_placeholder = λ text. is_text text "- none";
}

program : Unit {0}
unfolding parse_summary upsert_section append_to_section find_section classify_text
    canonical_heading String_discrete
program = tt

-- The heading inside the fence is text; the second section of the kind joins the first.
parsed : map (λ (s : Section). kind_index s.kind) (parse_summary ops "two") ≡ 0 ∷ []
unfolding program
parsed = refl

known : classify_text "files modified" ≡ files_modified
unfolding program
known = refl

abbrev summary : List Section
summary =
    record { kind = goal; heading = "## Goal"; body = "ship" }
    ∷ record { kind = next_steps; heading = "## Next Steps"; body = "- none" }
    ∷ []

abbrev before_next : SectionPlacement
before_next = record { before = some next_steps; after = none }

inserted :
    map (λ (s : Section). kind_index s.kind) (upsert_section ops summary open_loops "x" before_next)
    ≡ 0 ∷ 10 ∷ 7 ∷ []
unfolding program
inserted = refl

appended_body :
    find_section next_steps (append_to_section ops summary next_steps "go" "")
    ≡ some (new_section ops next_steps "go")
unfolding program
appended_body = refl

goal_known : is_same goal unknown ≡ false
goal_known = refl

parse_summary-IsDistinct_example : count_kind goal (parse_summary ops "two") ≤ 1
parse_summary-IsDistinct_example = parse_summary-IsDistinct ops goal goal_known "two"

upsert_section-find_example :
    find_section goal (upsert_section ops summary open_loops "x" before_next) ≡ (
      if is_same open_loops goal
      then some (new_section ops open_loops "x")
      else find_section goal summary)
upsert_section-find_example = upsert_section-find ops open_loops goal summary "x" before_next

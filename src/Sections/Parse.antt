-- ===== src/Sections/Parse.antt =====
-- `parseSummary`: the loop over the lines of a text.
use pi_smart_compact.Base.{
  ℕ, List, [], ◌∷◌, ◌++◌, String, Bool, true, false, ◌&&◌, ◌||◌, not, Option, none, some, leb,
  if◌then◌else◌, is_some,
}
use pi_smart_compact.Window.Soft.{contains}
use pi_smart_compact.OpenLoops.{is_text}
use pi_smart_compact.Continuity.{join}
use pi_smart_compact.Sections.{
  SectionKind, unknown, is_same, Section, FenceMatch, HeadingMatch, TextOps, classify_heading,
  find_section,
}

-- `fence`
pub record Fence : Type 0 where
  pub is_tilde : Bool
  pub length : ℕ

pub record Parser : Type 0 where
  pub sections : List Section
  pub heading : String
  pub kind : SectionKind
  pub body_lines : List String
  pub fence : Option Fence
  pub started : Bool

unfoldable pub parser_start : Parser
parser_start = record {
  sections = [];
  heading = "";
  kind = unknown;
  body_lines = [];
  fence = none;
  started = false;
}

-- The lines that are not seen before.
unfoldable pub unseen_lines : List String → List String → List String
unfolding contains
unseen_lines seen [] = []
unseen_lines seen (line ∷ lines) =
    let rest = unseen_lines (line ∷ seen) lines in
    if contains seen line then unseen_lines seen lines else line ∷ rest

module _ (ops : TextOps) where
  abbrev lines_of : String → List String
  lines_of body = if is_text body "" then [] else ops.split_lines body

  unfoldable pub merge_bodies : String → String → String
  unfolding unseen_lines
  merge_bodies first second =
      ops.trim (ops.join_lines (unseen_lines [] (lines_of first ++ lines_of second)))

  -- `existing.body = …` of the first section of the kind.
  unfoldable pub merge_into : SectionKind → String → List Section → List Section
  unfolding merge_bodies
  merge_into kind body [] = []
  merge_into kind body (s ∷ sections) =
      if is_same s.kind kind
      then record s { body = merge_bodies s.body body } ∷ sections
      else s ∷ merge_into kind body sections

  abbrev pub is_existing : SectionKind → List Section → Bool
  is_existing kind sections = not (is_same kind unknown) && is_some (find_section kind sections)

  abbrev pub flushed_body : Parser → String
  flushed_body p = ops.trim (ops.join_lines p.body_lines)

  unfoldable pub flush_sections : Parser → List Section
  unfolding merge_into find_section
  flush_sections p =
      if not p.started
      then p.sections
      else if is_existing p.kind p.sections
      then merge_into p.kind (flushed_body p) p.sections
      else p.sections
        ++ record { kind = p.kind; heading = ops.trim p.heading; body = flushed_body p } ∷ []

  abbrev pub push_line : String → Parser → Parser
  push_line line p = if p.started then record p { body_lines = p.body_lines ++ line ∷ [] } else p

  abbrev same_marker : Bool → Bool → Bool
  same_marker true b = b
  same_marker false b = not b

  -- The fence after a line that looks like one.
  abbrev pub next_fence : Option Fence → FenceMatch → Option Fence
  next_fence none found = some (record { is_tilde = found.is_tilde; length = found.marker_length })
  next_fence (some fence) found =
      if same_marker found.is_tilde fence.is_tilde
        && leb fence.length found.marker_length
        && found.is_bare
      then none
      else some fence

  abbrev pub starts_section : HeadingMatch → Bool
  starts_section found =
      leb found.depth 2 || not (is_same (classify_heading ops found.label) unknown)

  unfoldable pub open_section : Parser → HeadingMatch → Parser
  unfolding flush_sections join
  open_section p found = record {
    sections = flush_sections p;
    heading = join "## " (ops.trim found.label);
    kind = classify_heading ops found.label;
    body_lines = [];
    fence = p.fence;
    started = true;
  }

  abbrev pub heading_of : Parser → String → Option HeadingMatch
  heading_of p line = if is_some p.fence then none else ops.heading_match line

  abbrev pub at_heading : Parser → String → Option HeadingMatch → Parser
  at_heading p line none = push_line line p
  at_heading p line (some found) =
      if starts_section found then open_section p found else push_line line p

  abbrev pub at_line : Parser → String → Option FenceMatch → Parser
  at_line p line (some found) = push_line line (record p { fence = next_fence p.fence found })
  at_line p line none = at_heading p line (heading_of p line)

  unfoldable pub parse_lines : Parser → List String → Parser
  unfolding open_section
  parse_lines p [] = p
  parse_lines p (line ∷ lines) = parse_lines (at_line p line (ops.fence_match line)) lines

  unfoldable pub parse_summary : String → List Section
  unfolding parse_lines flush_sections parser_start
  parse_summary markdown = flush_sections (parse_lines parser_start (ops.split_lines markdown))

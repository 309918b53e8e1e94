-- ===== src/Sections.antt =====
-- `src/domain/summary-schema.ts` and `src/domain/summary-parse.ts`: a summary as a list of
-- sections. The regular expressions that read a line, and the functions of the language on whole
-- texts, are in `TextOps`; its `heading_text` is the first line of `classifyHeading`.
pub mod Parse
pub mod Edit
pub mod Distinct
pub mod Find
use pi_smart_compact.Base.{
  ℕ, List, [], ◌∷◌, String, Bool, true, false, ◌&&◌, ◌||◌, Option, none, some, if◌then◌else◌, ◌==◌,
}
use pi_smart_compact.OpenLoops.{is_text}
use pi_smart_compact.Continuity.{starts_with}

pub data SectionKind : Type 0 where
  goal constraints progress decisions files_modified files_read files_deleted next_steps
        critical_context topics open_loops changes verification_note unknown :
      SectionKind

-- The kinds, numbered in the order of the type: what `===` tells apart.
abbrev pub kind_index : SectionKind → ℕ
kind_index goal = 0
kind_index constraints = 1
kind_index progress = 2
kind_index decisions = 3
kind_index files_modified = 4
kind_index files_read = 5
kind_index files_deleted = 6
kind_index next_steps = 7
kind_index critical_context = 8
kind_index topics = 9
kind_index open_loops = 10
kind_index changes = 11
kind_index verification_note = 12
kind_index unknown = 13

-- `a === b`
abbrev pub is_same : SectionKind → SectionKind → Bool
is_same a b = kind_index a == kind_index b

pub record Section : Type 0 where
  pub kind : SectionKind
  pub heading : String
  pub body : String

-- What `/^\s{0,3}(`{3,}|~{3,})(.*)$/` matches: the marker, its length, and whether the rest of
-- the line trims to nothing.
pub record FenceMatch : Type 0 where
  pub is_tilde : Bool
  pub marker_length : ℕ
  pub is_bare : Bool

-- What `HEADING_RE` matches: the depth and the label.
pub record HeadingMatch : Type 0 where
  pub depth : ℕ
  pub label : String

pub record TextOps : Type 0 where
  pub trim : String → String
  pub split_lines : String → List String
  pub join_lines : List String → String
  pub fence_match : String → Option FenceMatch
  pub heading_match : String → Option HeadingMatch
  pub heading_text : String → String
  pub is_placeholder : String → Bool

-- `a.includes(b)`
unfoldable pub includes : (text part : String) → Bool
unfolding starts_with
includes String.[] part = starts_with String.[] part
includes (String.◌∷◌ c text) part =
    let rest = includes text part in if starts_with (String.◌∷◌ c text) part then true else rest

-- The tests of `classifyHeading`, on the text that its first line makes.
unfoldable pub classify_text : String → SectionKind
unfolding includes starts_with
classify_text text =
    if is_text text ""
    then unknown
    else if is_text text "goal"
        || is_text text "goals"
        || is_text text "objective"
        || is_text text "objectives"
    then goal
    else if starts_with text "constraint" || includes text "preference"
    then constraints
    else if is_text text "progress" || is_text text "status"
    then progress
    else if includes text "key decision" || is_text text "decisions"
    then decisions
    else if includes text "file" && includes text "modif"
    then files_modified
    else if includes text "file" && (includes text "read" || includes text "viewed")
    then files_read
    else if includes text "file" && (includes text "delet" || includes text "remov")
    then files_deleted
    else if includes text "next step" || is_text text "next actions"
    then next_steps
    else if includes text "critical context" || is_text text "important context"
    then critical_context
    else if is_text text "topics" || includes text "topics covered"
    then topics
    else if includes text "open loop" || includes text "unresolved"
    then open_loops
    else if includes text "changes since" || is_text text "changes"
    then changes
    else if includes text "verification"
    then verification_note
    else unknown

abbrev pub classify_heading : TextOps → String → SectionKind
classify_heading ops raw = classify_text (ops.heading_text raw)

unfoldable pub canonical_heading : SectionKind → String
canonical_heading goal = "## Goal"
canonical_heading constraints = "## Constraints & Preferences"
canonical_heading progress = "## Progress"
canonical_heading decisions = "## Key Decisions"
canonical_heading files_modified = "## Files Modified"
canonical_heading files_read = "## Files Read"
canonical_heading files_deleted = "## Files Deleted"
canonical_heading next_steps = "## Next Steps"
canonical_heading critical_context = "## Critical Context"
canonical_heading topics = "## Topics Covered"
canonical_heading open_loops = "## Open Loops"
canonical_heading changes = "## Changes Since Last Compaction"
canonical_heading verification_note = "## Verification Note"
canonical_heading unknown = "## Section"

-- `findSection`, of a parsed summary.
unfoldable pub find_section : SectionKind → List Section → Option Section
find_section kind [] = none
find_section kind (s ∷ sections) =
    if is_same s.kind kind then some s else find_section kind sections

-- ===== src/Preparation/Window.antt =====
-- `preparationWindow` and why a task no longer matches the session. Token limits are in
-- hundredths of a token, so that a share of the window in percent is exact.
use pi_smart_compact.Base.{
  ℕ, ◌-◌, ◌*◌, ◌/◌, List, [], ◌∷◌, String, Bool, true, false, ◌&&◌, ◌||◌, not, Option, none, some,
  ltb, min, max, if◌then◌else◌,
}
use pi_smart_compact.OpenLoops.{is_text}
use pi_smart_compact.Preparation.{DiscardReason, ttl, branch, config, session, Prepared, Task}

pub data AutoTriggerStrategy : Type 0 where
  background settled native_hook : AutoTriggerStrategy

-- `CompactConfig`, the fields that this module reads; a percentage is a whole number.
pub record CompactConfig : Type 0 where
  pub auto_trigger : Bool
  pub strategy : AutoTriggerStrategy
  pub min_context_percent : ℕ
  pub prepare_context_percent : Option ℕ
  pub pending_ttl_ms : ℕ

abbrev pub min_token_threshold : ℕ
min_token_threshold = 5000

abbrev pub lead : (apply_hundredths : ℕ) → ℕ
lead apply_hundredths = min 32000 (max 8192 (apply_hundredths / 800))

unfoldable pub preparation_start : (apply_hundredths : ℕ) → ℕ
preparation_start apply_hundredths =
    max (min_token_threshold * 100) (apply_hundredths - lead apply_hundredths * 100)

pub record Gates : Type 0 where
  pub start_hundredths : ℕ
  pub apply_hundredths : ℕ

unfoldable pub preparation_window : CompactConfig → (window : ℕ) → Gates
unfolding preparation_start
preparation_window c window =
    let apply = window * c.min_context_percent in
    record {
      start_hundredths = elim c.prepare_context_percent [
        | none ↦ preparation_start apply
        | some prepare ↦
            if ltb prepare c.min_context_percent
            then max (min_token_threshold * 100) (window * prepare)
            else preparation_start apply
      ];
      apply_hundredths = apply;
    }

pub data EntryType : Type 0 where
  message context_edit compaction other : EntryType

pub record BranchEntry : Type 0 where
  pub id : String
  pub type_of : EntryType

-- What the calls read of `ctx`, the configuration and the clock: the session's id and whether it
-- is unresolved, the signature, the branch, whether there is a model, the tokens in use, the
-- effective window, `pendingMatchesBranch` and `revalidatePending`.
pub record View : Type 0 where
  pub now : ℕ
  pub config : CompactConfig
  pub session_id : String
  pub is_unresolved : Bool
  pub signature : String
  pub branch : List BranchEntry
  pub has_model : Bool
  pub tokens : Option ℕ
  pub window : Option ℕ
  pub matches_branch : Prepared → Bool
  pub revalidate : Prepared → Option Prepared

abbrev is_background : AutoTriggerStrategy → Bool
is_background background = true
is_background _ = false

abbrev pub enabled : CompactConfig → Bool
enabled c = c.auto_trigger && is_background c.strategy

abbrev is_edit : EntryType → Bool
is_edit context_edit = true
is_edit compaction = true
is_edit _ = false

unfoldable pub has_edit : List BranchEntry → Bool
has_edit [] = false
has_edit (e ∷ entries) = is_edit e.type_of || has_edit entries

-- `origin >= 0`, and nothing after the first entry with the id edits the context.
unfoldable pub is_unedited_after : String → List BranchEntry → Bool
unfolding has_edit
is_unedited_after id [] = false
is_unedited_after id (e ∷ entries) =
    let rest = is_unedited_after id entries in
    if is_text e.id id then not (has_edit entries) else rest

abbrev or_time : Option ℕ → ℕ → ℕ
or_time none created_at = created_at
or_time (some ready_at) created_at = ready_at

unfoldable pub invalidation_reason : Task → View → Option DiscardReason
unfolding is_unedited_after
invalidation_reason task v =
    if not (enabled v.config)
    then some config
    else if not (is_text task.session_id v.session_id)
    then some session
    else if not (is_text task.signature v.signature)
    then some config
    else if ltb v.config.pending_ttl_ms (v.now - or_time task.ready_at task.created_at)
    then some ttl
    else if is_unedited_after task.origin_id v.branch
    then none
    else some branch

-- The bounds of the window.

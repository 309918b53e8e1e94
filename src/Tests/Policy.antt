-- ===== src/Tests/Policy.antt =====
-- A branch with one policy entry (`src/app/smart-compact-policy.ts`).
use pi_smart_compact.Base.{refl, [], ◌∷◌, false, none, some, String_discrete}
use pi_smart_compact.Policy.{
  disabled, Overrides, PolicySession, status_field, stored, restore, update, reset,
}
use pi_smart_compact.Policy.Laws.{IsSaved, change-IsSaved}

abbrev hidden : Overrides
hidden = record { agent_tool_access = some disabled; auto_trigger = none; show_status = some false }

abbrev session : PolicySession
session = record { overrides = hidden; branch = none ∷ some (stored hidden) ∷ [] }

session-IsSaved : IsSaved session
unfolding restore stored String_discrete
session-IsSaved = refl

change-IsSaved_example :
    IsSaved (update false hidden session) × IsSaved (reset false status_field session)
change-IsSaved_example = change-IsSaved false hidden status_field session session-IsSaved

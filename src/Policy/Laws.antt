-- ===== src/Policy/Laws.antt =====
-- What is written to the branch is what is read back.
use pi_smart_compact.Base.{
  ◌≡◌, refl, List, [], ◌∷◌, ◌++◌, Bool, true, false, Option, none, some, arith, String_discrete,
}
use pi_smart_compact.Policy.{
  AgentToolAccess, inherit, enabled, disabled, Overrides, StoredPolicy, PolicySession, PolicyField,
  access_of, optional, flag_of, stored_access, stored_flag, persisted_policy, stored, restore_from,
  restore, persist, update, reset, no_overrides,
}

access-stored : (a : Option AgentToolAccess) → optional access_of (stored_access a) ≡ some a
unfolding access_of String_discrete
access-stored none = refl
access-stored (some inherit) = refl
access-stored (some enabled) = refl
access-stored (some disabled) = refl

flag-stored : (b : Option Bool) → optional flag_of (stored_flag b) ≡ some b
flag-stored none = refl
flag-stored (some b) = refl

-- Reading a written policy gives the overrides that were written.
pub persisted_policy-stored : (o : Overrides) → persisted_policy (stored o) ≡ some o
unfolding persisted_policy stored
persisted_policy-stored o = ground (
  arith,
  access-stored o.agent_tool_access,
  flag-stored o.auto_trigger,
  flag-stored o.show_status,
)

restore_from-append :
    (o : Overrides) (entries : List (Option StoredPolicy)) (start : Overrides)
    → restore_from start (entries ++ some (stored o) ∷ []) ≡ o
unfolding restore_from
restore_from-append o [] start = ground (arith, persisted_policy-stored o)
restore_from-append o (none ∷ entries) start = restore_from-append o entries start
restore_from-append o (some p ∷ entries) start = restore_from-append o entries _

-- The branch restores to the overrides in force.
abbrev pub IsSaved : PolicySession → Type 0
IsSaved s = restore s.branch ≡ s.overrides

persist-IsSaved :
    (fails : Bool) (next : Overrides) (s : PolicySession)
    → IsSaved s
    → IsSaved (persist fails next s)
unfolding persist restore
persist-IsSaved true next s v = v
persist-IsSaved false next s v = restore_from-append next s.branch no_overrides

-- Whether a change of the settings or a reset of one fails or not, reopening the branch after it
-- gives the overrides that are in force, if it did before.
pub change-IsSaved :
    (fails : Bool) (patch : Overrides) (field : PolicyField) (s : PolicySession)
    → IsSaved s
    → IsSaved (update fails patch s) × IsSaved (reset fails field s)
unfolding update reset
change-IsSaved fails patch field s v = (persist-IsSaved fails _ s v, persist-IsSaved fails _ s v)

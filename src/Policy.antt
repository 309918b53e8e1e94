-- ===== src/Policy.antt =====
-- `src/app/smart-compact-policy.ts`: the branch's overrides of the settings, how they are written
-- to the branch and read back. A failure is the throw of the host while a change is applied or
-- written; nothing is written then.
pub mod Laws
use pi_smart_compact.Base.{
  ℕ, List, [], ◌∷◌, ◌++◌, String, Bool, true, false, Option, none, some, ◌==◌, if◌then◌else◌,
  String_discrete,
}

pub data AgentToolAccess : Type 0 where
  inherit enabled disabled : AgentToolAccess

-- `overrides`: a partial policy.
pub record Overrides : Type 0 where
  pub agent_tool_access : Option AgentToolAccess
  pub auto_trigger : Option Bool
  pub show_status : Option Bool

-- A stored value, by what the reader asks of it.
pub data Value : Type 0 where
  text : String → Value
  flag : Bool → Value
  other : Value

-- `candidate.overrides` where it is an object.
pub record StoredOverrides : Type 0 where
  pub agent_tool_access : Option Value
  pub auto_trigger : Option Value
  pub show_status : Option Value

-- An entry's data where it is an object; 0 stands for a version that is not 1, 2 or 3.
pub record StoredPolicy : Type 0 where
  pub version : ℕ
  pub overrides : Option StoredOverrides
  pub agent_tool_access : Option Value
  pub auto_trigger : Option Value
  pub show_status : Option Value
  pub agent_tool_enabled : Option Value

abbrev pub text_of : AgentToolAccess → String
text_of inherit = "inherit"
text_of enabled = "enabled"
text_of disabled = "disabled"

unfoldable pub access_of : Value → Option AgentToolAccess
access_of (text t) = elim (String_discrete t "inherit") [
  | yes _ ↦ some inherit
  | no _ ↦ elim (String_discrete t "enabled") [
    | yes _ ↦ some enabled
    | no _ ↦ elim (String_discrete t "disabled") [ yes _ ↦ some disabled | no _ ↦ none ]
  ]
]
access_of (flag b) = none
access_of other = none

abbrev pub flag_of : Value → Option Bool
flag_of (flag b) = some b
flag_of _ = none

-- An absent value is no override, one of the wrong kind is an error.
abbrev pub optional : {A : Type 0} → (Value → Option A) → Option Value → Option (Option A)
optional read none = some none
optional read (some v) = elim (read v) [ none ↦ none | some a ↦ some (some a) ]

abbrev pub required : {A : Type 0} → (Value → Option A) → Option Value → Option A
required read none = none
required read (some v) = read v

unfoldable pub read_overrides : StoredOverrides → Option Overrides
unfolding access_of
read_overrides values = elim (optional access_of values.agent_tool_access) [
  | none ↦ none
  | some access ↦ elim (optional flag_of values.auto_trigger) [
    | none ↦ none
    | some auto ↦ elim (optional flag_of values.show_status) [
      | none ↦ none
      | some status ↦
          some (record { agent_tool_access = access; auto_trigger = auto; show_status = status })
    ]
  ]
]

abbrev or_true : Option Bool → Bool
or_true none = true
or_true (some b) = b

-- Version 2 stored a whole policy, version 1 a flag for the tool.
unfoldable pub read_version_2 : StoredPolicy → Option Overrides
unfolding access_of
read_version_2 p = elim (required access_of p.agent_tool_access) [
  | none ↦ none
  | some access ↦ elim (required flag_of p.auto_trigger) [
    | none ↦ none
    | some auto ↦ some (record {
      agent_tool_access = some access;
      auto_trigger = some auto;
      show_status = some (or_true (required flag_of p.show_status));
    })
  ]
]

unfoldable pub read_version_1 : StoredPolicy → Option Overrides
read_version_1 p = elim (required flag_of p.agent_tool_enabled) [
  | none ↦ none
  | some tool ↦ elim (required flag_of p.auto_trigger) [
    | none ↦ none
    | some auto ↦ some (record {
      agent_tool_access = some (if tool then enabled else disabled);
      auto_trigger = some auto;
      show_status = none;
    })
  ]
]

unfoldable pub persisted_policy : StoredPolicy → Option Overrides
unfolding read_overrides read_version_2 read_version_1
persisted_policy p =
    if p.version == 3
    then elim p.overrides [ none ↦ none | some values ↦ read_overrides values ]
    else if p.version == 2
    then read_version_2 p
    else if p.version == 1
    then read_version_1 p
    else none

abbrev pub stored_access : Option AgentToolAccess → Option Value
stored_access none = none
stored_access (some access) = some (text (text_of access))

abbrev pub stored_flag : Option Bool → Option Value
stored_flag none = none
stored_flag (some b) = some (flag b)

-- What `persist` appends.
unfoldable pub stored : Overrides → StoredPolicy
stored o = record {
  version = 3;
  overrides = some (record {
    agent_tool_access = stored_access o.agent_tool_access;
    auto_trigger = stored_flag o.auto_trigger;
    show_status = stored_flag o.show_status;
  });
  agent_tool_access = none;
  auto_trigger = none;
  show_status = none;
  agent_tool_enabled = none;
}

abbrev pub no_overrides : Overrides
no_overrides = record { agent_tool_access = none; auto_trigger = none; show_status = none }

-- The loop of `restore`, over the policy entries of the branch; data that is no object is `none`.
unfoldable pub restore_from : Overrides → List (Option StoredPolicy) → Overrides
unfolding persisted_policy
restore_from overrides [] = overrides
restore_from overrides (none ∷ entries) = restore_from overrides entries
restore_from overrides (some p ∷ entries) =
    restore_from (elim (persisted_policy p) [ none ↦ overrides | some restored ↦ restored ]) entries

unfoldable pub restore : List (Option StoredPolicy) → Overrides
unfolding restore_from
restore entries = restore_from no_overrides entries

-- The session: the overrides in force and the policy entries of its branch.
pub record PolicySession : Type 0 where
  pub overrides : Overrides
  pub branch : List (Option StoredPolicy)

-- `persist`, which `fails` or not; a failure puts the previous overrides back.
unfoldable pub persist : (fails : Bool) → Overrides → PolicySession → PolicySession
unfolding stored
persist fails next s =
    if fails then s else record { overrides = next; branch = s.branch ++ some (stored next) ∷ [] }

abbrev pub over : {A : Type 0} → Option A → Option A → Option A
over none old = old
over (some a) old = some a

-- A field of the patch is absent or has a value; one that is there and `undefined` is left out.
unfoldable pub update : (fails : Bool) → Overrides → PolicySession → PolicySession
unfolding persist
update fails patch s =
    persist fails
      (record {
        agent_tool_access = over patch.agent_tool_access s.overrides.agent_tool_access;
        auto_trigger = over patch.auto_trigger s.overrides.auto_trigger;
        show_status = over patch.show_status s.overrides.show_status;
      })
      s

pub data PolicyField : Type 0 where
  access_field trigger_field status_field : PolicyField

abbrev pub without : PolicyField → Overrides → Overrides
without access_field o = record o { agent_tool_access = none }
without trigger_field o = record o { auto_trigger = none }
without status_field o = record o { show_status = none }

unfoldable pub reset : (fails : Bool) → PolicyField → PolicySession → PolicySession
unfolding persist
reset fails field s = persist fails (without field s.overrides) s

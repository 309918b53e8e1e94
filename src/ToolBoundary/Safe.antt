-- ===== src/ToolBoundary/Safe.antt =====
-- When a cut separates no tool result from its call.
use pi_smart_compact.Base.{ℕ, ◌≤◌, ◌≡◌, List, some, All, drop}
use pi_smart_compact.Messages.{SessionMessage}
use pi_smart_compact.ToolBoundary.{ToolCallBoundaryIndex, guard_call}

-- The call that the message answers, if it has one, is not before `cut`.
abbrev pub IsUnsplit : ToolCallBoundaryIndex → ℕ → SessionMessage → Type 0
IsUnsplit index cut m = (call : ℕ) → guard_call index m ≡ some call → cut ≤ call

-- Every kept tool result is kept with its call.
abbrev pub IsSafe : ToolCallBoundaryIndex → List SessionMessage → ℕ → Type 0
IsSafe index msgs cut = All (IsUnsplit index cut) (drop cut msgs)

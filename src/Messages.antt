-- ===== src/Messages.antt =====
-- The messages of a session as the modelled code reads them (`SessionMessageEntry` of
-- `src/types.ts`). A field that the code tests with `typeof` or `isRecord` before it is read is
-- an `Option` or one of the cases below; content that is no array has no blocks. Two fields hold
-- what functions outside the model make of a message: `touched_files` lists the file names of the
-- message's tool calls, and `is_injected` is the answer of `isInjectedMessage`.
use pi_smart_compact.Base.{String, List, Option, Bool}

pub data Role : Type 0 where
  user assistant tool_result other_role : Role

-- A content block: a tool call with its `id`, its `name`, the ids of `arguments.tool_uses` where
-- that is an array, and the file path that `extractToolPath` reads; or any other block.
pub data Block : Type 0 where
  tool_call : (id name : Option String) (tool_uses : List (Option String)) → Block
  other_block : Block

pub record SessionMessage : Type 0 where
  pub entry_id : Option String
  pub custom_type : Option String
  pub role : Role
  pub content : List Block
  pub tool_call_id : Option String
  pub tool_name : Option String
  pub touched_files : List String
  pub is_injected : Bool

-- An entry of the session's branch; `details_anchor` tells whether `details.anchor` is set.
pub record BranchEntry : Type 0 where
  pub id : Option String
  pub is_message : Bool
  pub role : Role
  pub tool_name : Option String
  pub details_anchor : Bool

-- ===== src/Tools/Gates.antt =====
-- The gates of `execute` in ToolRegistry.ts.
use dumbwaystodie.Prelude.{ℕ, none, some, Text, nat_eq, list_eq, lookup, ◌≡◌, arith}
use dumbwaystodie.Protocol.Wire.{ToolCallRequest}
use dumbwaystodie.Permissions.{PermissionDecision, allow}
use dumbwaystodie.Tools.{
  ToolDefinition, ToolRegistry, permission_asked, running, valid, start, proceed,
}

-- The user is asked only about a tool that is registered under the name that was called, and only for
-- a call with no result in the cache.
pub start-asked :
    (elapsed : ℕ) (call : ToolCallRequest) (tool : ToolDefinition) (r : ToolRegistry)
    → (start elapsed call r).0 ≡ permission_asked tool
    → (lookup call.tool r.tools ≡ some tool) × (lookup call.id r.recent_results ≡ none)
unfolding start
start-asked elapsed call tool r h = ground arith

-- A tool runs only if the decision was to allow it and its validator took the arguments, and it runs
-- with what the validator made of them.
pub proceed-running :
    (elapsed : ℕ) (call : ToolCallRequest) (tool ran : ToolDefinition) (d : PermissionDecision)
    (args : Text) (r : ToolRegistry)
    → (proceed elapsed call tool d r).0 ≡ running ran args
    → (d ≡ allow) × (ran ≡ tool) × (tool.validate call.arguments ≡ valid args)
unfolding proceed
proceed-running elapsed call tool ran d args r h = ground arith

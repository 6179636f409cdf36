-- ===== src/Tools/Tests.antt =====
-- The theorems about ToolRegistry.ts at a registry with one tool.
use dumbwaystodie.Prelude.{
  ◌≤◌, true, none, some, [], ◌∷◌, Text, lit, length, lookup, nat_eq, list_eq, ◌≡◌, refl, arith,
}
use dumbwaystodie.Protocol.Wire.{PermissionClass, ToolCallRequest, ToolCallResult}
use dumbwaystodie.Permissions.{allow}
use dumbwaystodie.Tools.{
  ToolDefinition, ToolRegistry, valid, remember_result, done, permission_asked, running, start,
  proceed,
}
use dumbwaystodie.Tools.Cache.{remember_result-le, start-remember_result}
use dumbwaystodie.Tools.Gates.{start-asked}

abbrev shell : ToolDefinition
shell = record {
  name = lit "shell.run";
  description = lit "Run a command";
  permission = PermissionClass.execute;
  timeout_ms = 30_000;
  validate = valid;
}

abbrev registry : ToolRegistry
registry = record { tools = (lit "shell.run", shell) ∷ []; recent_results = []; cache_size = 1 }

abbrev call : Text → ToolCallRequest
call id = record {
  id = id;
  session_id = lit "s";
  request_id = none;
  tool = lit "shell.run";
  arguments = lit "{}";
}

abbrev result : Text → ToolCallResult
result id = record {
  id = id;
  session_id = lit "s";
  ok = true;
  result = some (lit "done");
  error = none;
  duration_ms = 5;
}

-- One result is in the cache, which has room for no other.
abbrev filled : ToolRegistry
filled = record registry { recent_results = (lit "k0", result (lit "k0")) ∷ [] }

remember_result-le_example :
    length (remember_result (call (lit "k1")) (result (lit "k1")) filled).recent_results ≤ 1
remember_result-le_example =
    remember_result-le (call (lit "k1")) (result (lit "k1")) filled (omega arith)

start-remember_result_example :
    start 0 (call (lit "k1")) (remember_result (call (lit "k1")) (result (lit "k1")) filled)
    ≡ (done (result (lit "k1")), remember_result (call (lit "k1")) (result (lit "k1")) filled)
start-remember_result_example =
    start-remember_result 0 (call (lit "k1")) (call (lit "k1")) (result (lit "k1")) filled refl
      (omega arith) (omega arith)

asked : (start 0 (call (lit "k1")) filled).0 ≡ permission_asked shell
unfolding start lookup
asked = refl

start-asked_example :
    (lookup (lit "shell.run") registry.tools ≡ some shell)
    × (lookup (lit "k1") filled.recent_results ≡ none)
start-asked_example = start-asked 0 (call (lit "k1")) shell filled asked

runs : (proceed 0 (call (lit "k1")) shell allow filled).0 ≡ running shell (lit "{}")
unfolding proceed
runs = refl

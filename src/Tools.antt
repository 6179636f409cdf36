-- ===== src/Tools.antt =====
-- The tool registry of packages/extension/src/tools/ToolRegistry.ts. `execute` waits for a decision
-- of the user and for the tool, so it is three steps: `start`, `proceed` and `conclude`. A tool is
-- what packages/extension/src/tools/definitions.ts registers; its arguments are their JSON text.
pub mod Registry
pub mod Cache
pub mod Gates
mod Tests
use dumbwaystodie.Prelude.{
  ℕ, suc, Bool, true, false, Option, none, some, List, [], ◌∷◌, ◌++◌, map, Text, lit, join, decimal,
  length, if◌then◌else◌, ltb, ◌==◌, nat_eq, list_eq, Map, lookup, insert, erase, has,
}
use dumbwaystodie.Protocol.Wire.{
  PermissionClass, read, execute, write, destructive, ToolErrorCode, ToolError, ToolCallRequest,
  ToolCallResult,
}
use dumbwaystodie.Permissions.{PermissionDecision, allow, ask, deny}

-- What is thrown: a `ToolExecutionError`, or anything else.
pub data Thrown : Type 0 where
  tool_error : ToolError → Thrown
  unexpected : Thrown

pub data Checked : Type 0 where
  valid : Text → Checked
  invalid : Thrown → Checked

pub record ToolDefinition : Type 0 where
  pub name : Text
  pub description : Text
  pub permission : PermissionClass
  pub timeout_ms : ℕ
  pub validate : Text → Checked

pub record ToolRegistry : Type 0 where
  pub tools : Map Text ToolDefinition
  pub recent_results : Map Text ToolCallResult
  pub cache_size : ℕ

abbrev describe : Thrown → ToolError
describe (tool_error e) = e
describe unexpected = record {
  code = ToolErrorCode.internal;
  message = lit "The tool failed unexpectedly.";
  details = none;
}

abbrev failure : ToolCallRequest → ToolError → ℕ → ToolCallResult
failure call error duration_ms = record {
  id = call.id;
  session_id = call.session_id;
  ok = false;
  result = none;
  error = some error;
  duration_ms = duration_ms;
}

-- `recentResults.delete(recentResults.keys().next().value)`
pub delete_oldest : Map Text ToolCallResult → Map Text ToolCallResult
delete_oldest [] = []
delete_oldest ((id, result) ∷ m) = erase id ((id, result) ∷ m)

pub remember_result : ToolCallRequest → ToolCallResult → ToolRegistry → ToolRegistry
remember_result call result r =
    let recent = insert call.id result r.recent_results in
    record r {
      recent_results = if ltb r.cache_size (length recent) then delete_oldest recent else recent;
    }

-- Where a call of `execute` stands.
pub data Progress : Type 0 where
  done : ToolCallResult → Progress
  -- The user is asked whether the tool may run.
  permission_asked : ToolDefinition → Progress
  -- The tool runs with the arguments that its validator made.
  running : ToolDefinition → Text → Progress

abbrev pub finish : ToolCallRequest → ToolCallResult → ToolRegistry → Progress × ToolRegistry
finish call result r = (done result, remember_result call result r)

abbrev or_none : Text → Text
or_none [] = lit "none"
or_none (c ∷ t) = c ∷ t

abbrev names : Map Text ToolDefinition → List Text
names m = map (λ (e : Text × ToolDefinition). e.0) m

-- `execute` up to the decision; `elapsed` is the time that has gone by at the end of the step.
pub start : ℕ → ToolCallRequest → ToolRegistry → Progress × ToolRegistry
start elapsed call r = elim (lookup call.id r.recent_results) [
  | some cached ↦ (done cached, r)
  | none ↦ elim (lookup call.tool r.tools) [
    | some tool ↦ (permission_asked tool, r)
    | none ↦
        finish call
          (failure call
            (record {
              code = ToolErrorCode.unsupported;
              message =
                  lit "Unknown tool \""
                  ++ call.tool
                  ++ lit "\". Available: "
                  ++ or_none (join (lit ", ") (names r.tools))
                  ++ lit ".";
              details = none;
            })
            elapsed)
          r
  ]
]

abbrev class_text : PermissionClass → Text
class_text read = lit "read"
class_text execute = lit "execute"
class_text write = lit "write"
class_text destructive = lit "destructive"

abbrev decision_text : PermissionDecision → Text
decision_text allow = lit "allow"
decision_text ask = lit "ask"
decision_text deny = lit "deny"

abbrev denied : ToolDefinition → PermissionDecision → ToolError
denied tool decision = record {
  code = ToolErrorCode.permission_denied;
  message =
      lit "\""
      ++ tool.name
      ++ lit "\" was not permitted ("
      ++ class_text tool.permission
      ++ lit "). The user did not approve this request.";
  details = some (
      (lit "tool", tool.name)
      ∷ (lit "permission", class_text tool.permission)
      ∷ (lit "decision", decision_text decision)
      ∷ []);
}

abbrev is_allow : PermissionDecision → Bool
is_allow allow = true
is_allow ask = false
is_allow deny = false

-- `execute` from the decision up to the run of the tool.
pub proceed :
    ℕ
    → ToolCallRequest
    → ToolDefinition
    → PermissionDecision
    → ToolRegistry
    → Progress × ToolRegistry
proceed elapsed call tool decision r =
    if is_allow decision
    then (elim (tool.validate call.arguments) [
      | valid args ↦ (running tool args, r)
      | invalid e ↦ finish call (failure call (describe e) elapsed) r
    ])
    else finish call (failure call (denied tool decision) elapsed) r

-- How the race between the tool and its timer ends.
pub data Outcome : Type 0 where
  returned : Text → Outcome
  threw : Thrown → Outcome
  timed_out : Outcome

unfoldable pub conclude :
    ℕ → ToolCallRequest → ToolDefinition → Outcome → ToolRegistry → Progress × ToolRegistry
conclude elapsed call tool (returned result) r =
    finish call
      (record {
        id = call.id;
        session_id = call.session_id;
        ok = true;
        result = some result;
        error = none;
        duration_ms = elapsed;
      })
      r
conclude elapsed call tool (threw e) r = finish call (failure call (describe e) elapsed) r
conclude elapsed call tool timed_out r =
    finish call
      (failure call
        (record {
          code = ToolErrorCode.timeout;
          message =
              lit "\""
              ++ tool.name
              ++ lit "\" exceeded its "
              ++ decimal tool.timeout_ms
              ++ lit "ms timeout.";
          details = none;
        })
        elapsed)
      r

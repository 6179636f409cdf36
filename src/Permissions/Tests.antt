-- ===== src/Permissions/Tests.antt =====
-- The theorems about PermissionManager.ts at a command that a user approves for good.
use dumbwaystodie.Prelude.{some, List, [], ◌∷◌, Text, lit, ◌==◌, nat_eq, list_eq, ◌||◌, ◌≡◌, ◌≢◌}
use dumbwaystodie.Protocol.Wire.{PermissionClass, execute, write}
use dumbwaystodie.Protocol.Wire.{strict_coach, guided}
use dumbwaystodie.Permissions.{
  deny, PermissionQuery, ApprovalOutcome, mode_policies, includes, remember,
}
use dumbwaystodie.Permissions.Grants.{includes-remember}
use dumbwaystodie.Permissions.Log.{Happening, run, approved, asked, answered, forgotten, run-keys}

abbrev query : Text → PermissionClass → PermissionQuery
query id permission = record {
  call_id = id;
  tool = lit "shell.run";
  permission = permission;
  summary = lit "npm test";
}

abbrev key : Text
key = lit "shell.run::npm test"

-- An approval is cleared while another prompt is open, whose answer then counts.
abbrev happenings : List Happening
happenings =
    asked strict_coach (query (lit "a") execute)
    ∷ answered (query (lit "a") execute) (some ApprovalOutcome.allow_always)
    ∷ asked guided (query (lit "b") write)
    ∷ forgotten
    ∷ answered (query (lit "b") write) (some ApprovalOutcome.allow_once)
    ∷ []

run-keys_example :
    includes key (run (record { keys = []; decisions = [] }) happenings).keys
    ≡ includes key (approved [] happenings)
run-keys_example = run-keys happenings key

includes-remember_example :
    includes key (remember key (lit "x::y" ∷ [])) ≡ (includes key (lit "x::y" ∷ []) || key == key)
includes-remember_example = includes-remember key key (lit "x::y" ∷ [])

allowed_ne : mode_policies guided write ≢ deny
unfolding mode_policies
allowed_ne e = cc

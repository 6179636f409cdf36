-- ===== src/Permissions.antt =====
-- The permission gate of packages/extension/src/permissions/PermissionManager.ts and the types of
-- packages/protocol/src/permissions.ts. `resolve` waits for the user while other calls go on, so it
-- is two steps: `decide` up to the prompt, and `conclude` from its outcome on. The log and the two
-- callbacks around a prompt are left out.
pub mod Grants
pub mod Log
mod Tests
use dumbwaystodie.Prelude.{
  ℕ, Bool, true, false, Option, none, some, List, [], ◌∷◌, ◌++◌, Text, lit, any, length,
  if◌then◌else◌, ◌==◌, nat_eq, list_eq,
}
use dumbwaystodie.Protocol.Wire.{
  PermissionClass, read, execute, write, destructive, LearningMode, strict_coach, guided,
  normal_agent,
}

pub data PermissionDecision : Type 0 where
  allow ask deny : PermissionDecision

pub record PermissionQuery : Type 0 where
  pub call_id : Text
  pub tool : Text
  pub permission : PermissionClass
  pub summary : Text

pub data ApprovalOutcome : Type 0 where
  allow_once allow_always denied : ApprovalOutcome

pub mode_policies : LearningMode → PermissionClass → PermissionDecision
mode_policies _ read = allow
mode_policies _ execute = ask
mode_policies strict_coach write = deny
mode_policies guided write = ask
mode_policies normal_agent write = ask
mode_policies strict_coach destructive = deny
mode_policies guided destructive = deny
mode_policies normal_agent destructive = ask

pub grant_key : PermissionQuery → Text
grant_key q = q.tool ++ (lit "::" ++ q.summary)

-- `includes`
abbrev pub includes : Text → List Text → Bool
includes key = any (λ k. k == key)

-- `resolve` up to its prompt: a decision, or `none` if the user is asked.
pub decide : LearningMode → List Text → PermissionQuery → Option PermissionDecision
decide mode keys q = elim (mode_policies mode q.permission) [
  | allow ↦ some allow
  | deny ↦ some deny
  | ask ↦ if includes (grant_key q) keys then some allow else none
]

-- `[...new Set(keys)]`, which keeps the first of equal entries.
pub unique_from : List Text → List Text → List Text
unique_from seen [] = []
unique_from seen (k ∷ ks) =
    let skipped = unique_from seen ks in
    let kept = unique_from (k ∷ seen) ks in if includes k seen then skipped else k ∷ kept

unfoldable pub remember : Text → List Text → List Text
remember key keys = unique_from [] (keys ++ key ∷ [])

-- `resolve` from the outcome of its prompt on; `none` is a prompt that failed.
pub conclude : Option ApprovalOutcome → List Text → PermissionQuery → PermissionDecision × List Text
conclude none keys q = (deny, keys)
conclude (some allow_always) keys q = (allow, remember (grant_key q) keys)
conclude (some allow_once) keys q = (allow, keys)
conclude (some denied) keys q = (deny, keys)

pub forget_all : List Text → ℕ × List Text
forget_all keys = (length keys, [])

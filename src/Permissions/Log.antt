-- ===== src/Permissions/Log.antt =====
-- The permission gate of PermissionManager.ts over a whole run: calls come, prompts are answered in
-- any order while others are open, and the user may clear what is remembered.
use dumbwaystodie.Prelude.{
  Option, none, some, List, [], ◌∷◌, Text, nat_eq, list_eq, ◌≡◌, refl, ap, ◌∙◌, arith,
}
use dumbwaystodie.Protocol.Wire.{LearningMode}
use dumbwaystodie.Permissions.{
  PermissionDecision, PermissionQuery, ApprovalOutcome, allow_always, grant_key, includes, decide,
  conclude, forget_all,
}
use dumbwaystodie.Permissions.Grants.{includes-remember}

pub record Gate : Type 0 where
  pub keys : List Text
  pub decisions : List (Text × PermissionDecision)

pub data Happening : Type 0 where
  asked : LearningMode → PermissionQuery → Happening
  -- The outcome of a prompt, or `none` if it failed.
  answered : PermissionQuery → Option ApprovalOutcome → Happening
  forgotten : Happening

-- `decisions` grows at its head.
unfoldable pub step : Gate → Happening → Gate
step g (asked mode q) = elim (decide mode g.keys q) [
  | none ↦ g
  | some d ↦ record g { decisions = (q.call_id, d) ∷ g.decisions }
]
step g (answered q outcome) =
    let (d, keys) = conclude outcome g.keys q in
    record { keys = keys; decisions = (q.call_id, d) ∷ g.decisions }
step g forgotten = record g { keys = (forget_all g.keys).1 }

pub run : Gate → List Happening → Gate
unfolding step
run g [] = g
run g (e ∷ es) = run (step g e) es

-- What the user approved for good since the last time that the approvals were cleared.
pub approved : List Text → List Happening → List Text
approved keys [] = keys
approved keys (answered q (some allow_always) ∷ es) = approved (grant_key q ∷ keys) es
approved keys (forgotten ∷ es) = approved [] es
approved keys (e ∷ es) = approved keys es

keys-asked :
    (g : Gate) (mode : LearningMode) (q : PermissionQuery) → (step g (asked mode q)).keys ≡ g.keys
unfolding step
keys-asked g mode q = ground arith

run-keys_from :
    (g : Gate) (keys : List Text) (es : List Happening) (k : Text)
    → ((j : Text) → includes j g.keys ≡ includes j keys)
    → includes k (run g es).keys ≡ includes k (approved keys es)
unfolding run approved step conclude forget_all
run-keys_from g keys [] k h = h k
run-keys_from g keys (asked mode q ∷ es) k h =
    run-keys_from (step g (asked mode q)) keys es k
      (λ j. ap (includes j) (keys-asked g mode q) ∙ h j)
run-keys_from g keys (answered q none ∷ es) k h =
    run-keys_from (step g (answered q none)) keys es k h
run-keys_from g keys (answered q (some allow_always) ∷ es) k h =
    run-keys_from (step g (answered q (some allow_always))) (grant_key q ∷ keys) es k
      (λ j. ground (arith, includes-remember j (grant_key q) g.keys, h j))
run-keys_from g keys (answered q (some ApprovalOutcome.allow_once) ∷ es) k h =
    run-keys_from (step g (answered q (some ApprovalOutcome.allow_once))) keys es k h
run-keys_from g keys (answered q (some ApprovalOutcome.denied) ∷ es) k h =
    run-keys_from (step g (answered q (some ApprovalOutcome.denied))) keys es k h
run-keys_from g keys (forgotten ∷ es) k h = run-keys_from (step g forgotten) [] es k (λ j. refl)

-- From an empty store, a key is remembered at the end of a run exactly when the user answered "always
-- allow" for it since the approvals were last cleared, in whatever order prompts were answered.
pub run-keys :
    (es : List Happening) (k : Text)
    → includes k (run (record { keys = []; decisions = [] }) es).keys ≡ includes k (approved [] es)
run-keys es k = run-keys_from _ [] es k (λ j. refl)

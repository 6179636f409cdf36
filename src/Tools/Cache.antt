-- ===== src/Tools/Cache.antt =====
-- The cache of results of ToolRegistry.ts.
use dumbwaystodie.Prelude.{
  ℕ, ◌+◌, ◌≤◌, ◌<◌, some, [], ◌∷◌, Text, length, if◌then◌else◌, ltb, ◌==◌, nat_eq, list_eq, Map,
  lookup, insert, erase, lookup-insert_self, lookup-erase, length-insert-le, ◌≡◌, refl, inl, inr,
  arith, Bool-cases, beq_refl,
}
use dumbwaystodie.Protocol.Wire.{ToolCallRequest, ToolCallResult}
use dumbwaystodie.Tools.{ToolRegistry, delete_oldest, remember_result, done, start}

length-erase-le : (k : Text) (m : Map Text ToolCallResult) → length (erase k m) ≤ length m
unfolding erase
length-erase-le k [] = omega arith
length-erase-le k ((j, w) ∷ m) = ground (arith, length-erase-le k m)

length-delete_oldest :
    (m : Map Text ToolCallResult) (n : ℕ) → length m ≤ n + 1 → length (delete_oldest m) ≤ n
unfolding delete_oldest erase
length-delete_oldest [] n h = omega arith
length-delete_oldest ((k, v) ∷ m) n h = ground (arith, length-erase-le k m, beq_refl k)

-- Remembering a result keeps the cache within its size.
pub remember_result-le :
    (call : ToolCallRequest) (result : ToolCallResult) (r : ToolRegistry)
    → length r.recent_results ≤ r.cache_size
    → length (remember_result call result r).recent_results ≤ r.cache_size
unfolding remember_result
remember_result-le call result r h =
    let recent = insert call.id result r.recent_results in
    let grown = length-insert-le call.id result r.recent_results in
    elim (Bool-cases (ltb r.cache_size (length recent))) [
      | inl over ↦ rw over (length-delete_oldest recent r.cache_size (omega (arith, grown, h)))
      | inr fits ↦ rw fits (ground (arith, fits))
    ]

-- The entry that is dropped to make room is not the one that was just made.
lookup-kept :
    (k : Text) (v : ToolCallResult) (m : Map Text ToolCallResult) (n : ℕ)
    → 0 < n
    → length m ≤ n
    → lookup k
        (if ltb n (length (insert k v m)) then delete_oldest (insert k v m) else insert k v m)
      ≡ some v
unfolding insert delete_oldest lookup
lookup-kept k v [] n pos h = ground (arith, beq_refl k)
lookup-kept k v ((j, w) ∷ m) n pos h = elim (Bool-cases (j == k)) [
  | inl same ↦ rw (same, insert) (ground (arith, same))
  | inr other ↦
      rw (other, insert)
        (ground (
          arith,
          other,
          lookup-insert_self k v m,
          lookup-erase j k ((j, w) ∷ insert k v m),
          lookup-erase j k (insert k v m),
        ))
]

-- A call that comes again after its result was remembered is answered with that result, and runs
-- nothing, if the cache has room for a result and is not over its size.
pub start-remember_result :
    (elapsed : ℕ) (call again : ToolCallRequest) (result : ToolCallResult) (r : ToolRegistry)
    → again.id ≡ call.id
    → 0 < r.cache_size
    → length r.recent_results ≤ r.cache_size
    → start elapsed again (remember_result call result r)
      ≡ (done result, remember_result call result r)
unfolding start remember_result
start-remember_result elapsed call again result r e pos h =
    let found = lookup-kept call.id result r.recent_results r.cache_size pos h in
    rw (e, start, found) refl

-- ===== src/Diff/Minimal.antt =====
-- The two sides of an edit script, and the length of the one that diff.ts makes.
use dumbwaystodie.Prelude.{
  ℕ, zero, suc, ◌+◌, ◌*◌, ◌≤◌, ◌≡◌, refl, ap, ◌∙◌, sym, List, [], ◌∷◌, length, drop, Eq, arith,
}
use dumbwaystodie.Diff.{
  Op, same, add, remove, cell, fill_table, walk, drain_old, drain_new, operations,
}
use dumbwaystodie.Diff.Lcs.{
  lcs, lcs-cons, lcs-nil, lcs-nil_left, lcs-le-cons_left, lcs-le-cons_right, lcs-cons_same,
  cell-fill_table,
}

module _ {A : Type 0} where
  -- The lines that an edit script reads, and those that it writes.
  abbrev pub old_side : List (Op A) → List A
  old_side [] = []
  old_side (same x ∷ ops) = x ∷ old_side ops
  old_side (remove x ∷ ops) = x ∷ old_side ops
  old_side (add y ∷ ops) = old_side ops

  abbrev pub new_side : List (Op A) → List A
  new_side [] = []
  new_side (same x ∷ ops) = x ∷ new_side ops
  new_side (remove x ∷ ops) = new_side ops
  new_side (add y ∷ ops) = y ∷ new_side ops

  -- `ops.filter((op) => op.kind !== "same").length`
  abbrev pub changed_lines : List (Op A) → ℕ
  changed_lines [] = 0
  changed_lines (same x ∷ ops) = changed_lines ops
  changed_lines (remove x ∷ ops) = suc (changed_lines ops)
  changed_lines (add y ∷ ops) = suc (changed_lines ops)

  kept_lines : List (Op A) → ℕ
  kept_lines [] = 0
  kept_lines (same x ∷ ops) = suc (kept_lines ops)
  kept_lines (remove x ∷ ops) = kept_lines ops
  kept_lines (add y ∷ ops) = kept_lines ops

  -- Each line of either side is kept, removed or added.
  changed-kept :
      (ops : List (Op A))
      → changed_lines ops + 2 * kept_lines ops ≡ length (old_side ops) + length (new_side ops)
  unfolding kept_lines
  changed-kept [] = refl
  changed-kept (same x ∷ ops) = omega (arith, changed-kept ops)
  changed-kept (remove x ∷ ops) = omega (arith, changed-kept ops)
  changed-kept (add y ∷ ops) = omega (arith, changed-kept ops)

  drain_old-sides :
      (xs : List A)
      → (old_side (drain_old xs) ≡ xs)
        × (new_side (drain_old xs) ≡ [])
        × (kept_lines (drain_old xs) ≡ 0)
  unfolding drain_old kept_lines
  drain_old-sides [] = (refl, refl, refl)
  drain_old-sides (x ∷ xs) = ground (arith, drain_old-sides xs)

  drain_new-sides :
      (ys : List A)
      → (old_side (drain_new ys) ≡ [])
        × (new_side (drain_new ys) ≡ ys)
        × (kept_lines (drain_new ys) ≡ 0)
  unfolding drain_new kept_lines
  drain_new-sides [] = (refl, refl, refl)
  drain_new-sides (y ∷ ys) = ground (arith, drain_new-sides ys)

pub drop-suc {ℓ} :
    {A : Type ℓ} (n : ℕ) (l : List A) (x : A) (xs : List A)
    → drop n l ≡ x ∷ xs
    → drop (suc n) l ≡ xs
drop-suc zero [] x xs h = cc
drop-suc zero (y ∷ l) x xs h = cc
drop-suc (suc n) [] x xs h = cc
drop-suc (suc n) (y ∷ l) x xs h = drop-suc n l x xs h

module _ {A : Type 0} ⦃e : Eq A⦄ where
  -- An edit script keeps at most a common subsequence.
  kept-le-lcs : (ops : List (Op A)) → kept_lines ops ≤ lcs (old_side ops) (new_side ops)
  unfolding kept_lines
  kept-le-lcs [] = omega arith
  kept-le-lcs (same x ∷ ops) =
      omega (arith, kept-le-lcs ops, lcs-cons_same x (old_side ops) (new_side ops))
  kept-le-lcs (remove x ∷ ops) =
      omega (arith, kept-le-lcs ops, lcs-le-cons_left x (old_side ops) (new_side ops))
  kept-le-lcs (add y ∷ ops) =
      omega (arith, kept-le-lcs ops, lcs-le-cons_right (old_side ops) y (new_side ops))

  walk-sides :
      (table : List (List ℕ)) (i j : ℕ) (xs ys : List A)
      → (old_side (walk table i j xs ys) ≡ xs) × (new_side (walk table i j xs ys) ≡ ys)
  unfolding walk
  walk-sides table i j [] ys = ground (arith, drain_new-sides ys)
  walk-sides table i j (x ∷ xs) [] = ground (arith, drain_old-sides (x ∷ xs))
  walk-sides table i j (x ∷ xs) (y ∷ ys) = ground (
    arith,
    e.beq_iff x y,
    walk-sides table (suc i) (suc j) xs ys,
    walk-sides table (suc i) j xs (y ∷ ys),
    walk-sides table i (suc j) (x ∷ xs) ys,
  )

  module _ (old new : List A) where
    cell-at :
        (i j : ℕ) {xs ys : List A}
        → drop i old ≡ xs
        → drop j new ≡ ys
        → cell (fill_table old new) i j ≡ lcs xs ys
    cell-at i j p q = rw (cell-fill_table old new i j, p, q)

    -- The walk keeps as many lines as a longest common subsequence has.
    walk-kept :
        (i j : ℕ) (xs ys : List A)
        → drop i old ≡ xs
        → drop j new ≡ ys
        → kept_lines (walk (fill_table old new) i j xs ys) ≡ lcs xs ys
    unfolding walk kept_lines
    walk-kept i j [] ys p q = (drain_new-sides ys).2 ∙ sym (lcs-nil_left ys)
    walk-kept i j (x ∷ xs) [] p q = (drain_old-sides (x ∷ xs)).2 ∙ sym (lcs-nil (x ∷ xs))
    walk-kept i j (x ∷ xs) (y ∷ ys) p q =
        let p' = drop-suc i old x xs p in
        let q' = drop-suc j new y ys q in
        ground (
          arith,
          e.beq_iff x y,
          lcs-cons x y xs ys,
          cell-at i (suc j) p q',
          cell-at (suc i) j p' q,
          walk-kept (suc i) (suc j) xs ys p' q',
          walk-kept (suc i) j xs (y ∷ ys) p' q,
          walk-kept i (suc j) (x ∷ xs) ys p q',
        )

  -- Both sides are kept whole: dropping the added lines gives the old text, and dropping the removed
  -- lines gives the new one.
  pub operations-sides :
      (old new : List A)
      → (old_side (operations old new) ≡ old) × (new_side (operations old new) ≡ new)
  unfolding operations
  operations-sides old new = walk-sides (fill_table old new) 0 0 old new

  -- No edit script from the old text to the new one changes fewer lines.
  pub operations-minimal :
      (old new : List A) (ops : List (Op A))
      → old_side ops ≡ old
      → new_side ops ≡ new
      → changed_lines (operations old new) ≤ changed_lines ops
  unfolding operations
  operations-minimal old new ops p q =
      let w = operations old new in
      let bound : kept_lines ops ≤ lcs old new = rw (← p, ← q) (kept-le-lcs ops) in
      let (left, right) = operations-sides old new in
      omega (
        arith,
        bound,
        walk-kept old new 0 0 old new refl refl,
        changed-kept w,
        changed-kept ops,
        ap length p,
        ap length q,
        ap length left,
        ap length right,
      )

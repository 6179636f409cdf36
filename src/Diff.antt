-- ===== src/Diff.antt =====
-- The line diff of packages/extension/src/context/diff.ts. A text is the list of its UTF-16 code
-- units, and an array index that the source reads with `?? 0` is `get_or` with 0.
pub mod Lcs
pub mod Minimal
pub mod Hunks
pub mod Patch
mod Tests
use dumbwaystodie.Prelude.{
  ℕ, zero, suc, ◌+◌, max, List, [], ◌∷◌, Bool, true, false, if◌then◌else◌, leb, get_or, drop, Eq,
}

pub data Op (A : Type 0) : Type 0 where
  same add remove : A → Op A

-- `table[i]?.[j] ?? 0`
abbrev pub cell : List (List ℕ) → ℕ → ℕ → ℕ
cell table i j = get_or (get_or table i []) j 0

module _ {A : Type 0} where
  -- The two loops after the walk, which empty what is left of either side.
  drain_old : List A → List (Op A)
  drain_old [] = []
  drain_old (x ∷ old) = remove x ∷ drain_old old

  drain_new : List A → List (Op A)
  drain_new [] = []
  drain_new (y ∷ new) = add y ∷ drain_new new

module _ {A : Type 0} ⦃e : Eq A⦄ where
  -- `new Array(columns + 1).fill(0)`
  zeros : List A → List ℕ
  zeros [] = 0 ∷ []
  zeros (y ∷ ys) = 0 ∷ zeros ys

  -- One round of the outer loop, `j` from the right: `next` is `table[i + 1]` from `j` on.
  fill_row : A → List A → List ℕ → List ℕ
  fill_row x [] next = 0 ∷ []
  fill_row x (y ∷ ys) next =
      let rest = fill_row x ys (drop 1 next) in
      (if e.beq x y then get_or next 1 0 + 1 else max (get_or next 0 0) (get_or rest 0 0)) ∷ rest

  pub fill_table : List A → List A → List (List ℕ)
  unfolding fill_row zeros
  fill_table [] new = zeros new ∷ []
  fill_table (x ∷ old) new =
      let rest = fill_table old new in fill_row x new (get_or rest 0 []) ∷ rest

  -- The walk through the table; the lists are the lines from `i` and from `j` on.
  pub walk : List (List ℕ) → ℕ → ℕ → List A → List A → List (Op A)
  walk table i j [] new = drain_new new
  walk table i j (x ∷ old) [] = drain_old (x ∷ old)
  walk table i j (x ∷ old) (y ∷ new) = elim (e.beq x y) [
    | true ↦ same x ∷ walk table (suc i) (suc j) old new
    | false ↦ elim (leb (cell table i (suc j)) (cell table (suc i) j)) [
      | true ↦ remove x ∷ walk table (suc i) j old (y ∷ new)
      | false ↦ add y ∷ walk table i (suc j) (x ∷ old) new
    ]
  ]

  pub operations : List A → List A → List (Op A)
  unfolding walk fill_table fill_row zeros drain_old drain_new
  operations old new = walk (fill_table old new) 0 0 old new

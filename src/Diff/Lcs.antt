-- ===== src/Diff/Lcs.antt =====
-- The longest common subsequence by its plain recursion, and the table of diff.ts against it.
use dumbwaystodie.Prelude.{
  ℕ, zero, suc, ◌≤◌, max, ◌≡◌, refl, ◌∙◌, List, [], ◌∷◌, if◌then◌else◌, get_or, drop, Eq, beq_refl,
  arith,
}
use dumbwaystodie.Diff.{zeros, fill_row, fill_table, cell}

get_or-drop : (xs : List ℕ) (j : ℕ) → get_or (drop 1 xs) j 0 ≡ get_or xs (suc j) 0
get_or-drop [] j = refl
get_or-drop (x ∷ xs) j = refl

module _ {A : Type 0} ⦃e : Eq A⦄ where
  pub lcs : List A → List A → ℕ
  lcs [] ys = 0
  lcs (x ∷ xs) [] = 0
  lcs (x ∷ xs) (y ∷ ys) =
      if e.beq x y then suc (lcs xs ys) else max (lcs xs (y ∷ ys)) (lcs (x ∷ xs) ys)

  pub lcs-cons :
      (x y : A) (xs ys : List A)
      → lcs (x ∷ xs) (y ∷ ys)
        ≡ (if e.beq x y then suc (lcs xs ys) else max (lcs xs (y ∷ ys)) (lcs (x ∷ xs) ys))
  unfolding lcs
  lcs-cons x y xs ys = refl

  pub lcs-nil_left : (ys : List A) → lcs [] ys ≡ 0
  unfolding lcs
  lcs-nil_left ys = refl

  pub lcs-nil : (xs : List A) → lcs xs [] ≡ 0
  unfolding lcs
  lcs-nil [] = refl
  lcs-nil (x ∷ xs) = refl

  pub lcs_comm : (xs ys : List A) → lcs xs ys ≡ lcs ys xs
  unfolding lcs
  lcs_comm [] [] = refl
  lcs_comm [] (y ∷ ys) = refl
  lcs_comm (x ∷ xs) [] = refl
  lcs_comm (x ∷ xs) (y ∷ ys) = ground (
    arith,
    e.beq_iff x y,
    e.beq_iff y x,
    lcs_comm xs ys,
    lcs_comm xs (y ∷ ys),
    lcs_comm (x ∷ xs) ys,
  )

  lcs-cons-le-suc_from :
      (x : A) (xs ys : List A)
      → ((y : A) (zs : List A) → lcs xs (y ∷ zs) ≤ suc (lcs xs zs))
      → lcs xs ys ≤ lcs (x ∷ xs) ys
  unfolding lcs
  lcs-cons-le-suc_from x xs [] ih = omega (arith, lcs-nil xs)
  lcs-cons-le-suc_from x xs (y ∷ ys) ih = ground (arith, ih y ys)

  lcs-cons-le-suc : (xs : List A) (y : A) (ys : List A) → lcs xs (y ∷ ys) ≤ suc (lcs xs ys)
  unfolding lcs
  lcs-cons-le-suc [] y ys = omega arith
  lcs-cons-le-suc (x ∷ xs) y ys =
      ground (arith, lcs-cons-le-suc xs y ys, lcs-cons-le-suc_from x xs ys (lcs-cons-le-suc xs))

  pub lcs-le-cons_left : (x : A) (xs ys : List A) → lcs xs ys ≤ lcs (x ∷ xs) ys
  lcs-le-cons_left x xs ys = lcs-cons-le-suc_from x xs ys (lcs-cons-le-suc xs)

  pub lcs-le-cons_right : (xs : List A) (y : A) (ys : List A) → lcs xs ys ≤ lcs xs (y ∷ ys)
  lcs-le-cons_right xs y ys =
      omega (arith, lcs_comm xs ys, lcs_comm xs (y ∷ ys), lcs-le-cons_left y ys xs)

  pub lcs-cons_same : (x : A) (xs ys : List A) → lcs (x ∷ xs) (x ∷ ys) ≡ suc (lcs xs ys)
  unfolding lcs
  lcs-cons_same x xs ys = ground (arith, beq_refl x)

  get_or-zeros : (ys : List A) (j : ℕ) → get_or (zeros ys) j 0 ≡ 0
  unfolding zeros
  get_or-zeros [] zero = refl
  get_or-zeros [] (suc j) = refl
  get_or-zeros (y ∷ ys) zero = refl
  get_or-zeros (y ∷ ys) (suc j) = get_or-zeros ys j

  -- A row that holds the values of `xs` gives, after one round, the row of `x ∷ xs`.
  get_or-fill_row :
      (x : A) (xs ys : List A) (next : List ℕ)
      → ((j : ℕ) → get_or next j 0 ≡ lcs xs (drop j ys))
      → (j : ℕ) → get_or (fill_row x ys next) j 0 ≡ lcs (x ∷ xs) (drop j ys)
  unfolding fill_row lcs
  get_or-fill_row x xs [] next h zero = refl
  get_or-fill_row x xs [] next h (suc j) = refl
  get_or-fill_row x xs (y ∷ ys) next h zero = ground (
    arith,
    h 0,
    h 1,
    get_or-drop next 0,
    get_or-fill_row x xs ys (drop 1 next) (λ k. get_or-drop next k ∙ h (suc k)) 0,
  )
  get_or-fill_row x xs (y ∷ ys) next h (suc j) =
      get_or-fill_row x xs ys (drop 1 next) (λ k. get_or-drop next k ∙ h (suc k)) j

  pub cell-fill_table :
      (old new : List A) (i j : ℕ) → cell (fill_table old new) i j ≡ lcs (drop i old) (drop j new)
  unfolding fill_table lcs
  cell-fill_table [] new zero j = get_or-zeros new j
  cell-fill_table [] new (suc i) j = refl
  cell-fill_table (x ∷ old) new zero j = get_or-fill_row x old new _ (cell-fill_table old new 0) j
  cell-fill_table (x ∷ old) new (suc i) j = cell-fill_table old new i j

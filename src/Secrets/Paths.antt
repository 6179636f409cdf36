-- ===== src/Secrets/Paths.antt =====
-- What the filter of secretFilter.ts says of a path under further folders, and of its separators.
use dumbwaystodie.Prelude.{
  ℕ, suc, ◌-◌, Bool, true, inl, inr, List, [], ◌∷◌, ◌++◌, Text, length, take, keep, drop_end,
  Bool-cases, ◌≡◌, refl, ap, arith,
}
use dumbwaystodie.Secrets.{
  is_separator, cons_first, pieces_of, is_present, segments_of, is_secret_directory,
  inspect_basename, inspect_segments, inspect_path, verdict_of,
}

cons_first-append :
    (c : ℕ) (ps qs : List Text)
    → (p : Text) × (rest : List Text) × (ps ≡ p ∷ rest)
    → cons_first c (ps ++ qs) ≡ cons_first c ps ++ qs
cons_first-append c [] qs h = ground arith
cons_first-append c (p ∷ ps) qs h = refl

pieces_of-some : (t : Text) → (p : Text) × (rest : List Text) × (pieces_of t ≡ p ∷ rest)
unfolding pieces_of
pieces_of-some [] = ([], [], refl)
pieces_of-some (c ∷ cs) =
    let (p, rest, h) = pieces_of-some cs in
    elim (Bool-cases (is_separator c)) [
      | inl e ↦ ([], p ∷ rest, rw (e, h))
      | inr e ↦ (c ∷ p, rest, rw (e, h))
    ]

pub pieces_of-append :
    (folder path : Text) (s : ℕ)
    → is_separator s ≡ true
    → pieces_of (folder ++ s ∷ path) ≡ pieces_of folder ++ pieces_of path
unfolding pieces_of
pieces_of-append [] path s h = rw (h)
pieces_of-append (c ∷ cs) path s h = elim (Bool-cases (is_separator c)) [
  | inl e ↦ rw (e, pieces_of-append cs path s h)
  | inr e ↦
      rw (e, pieces_of-append cs path s h)
        (cons_first-append c (pieces_of cs) (pieces_of path) (pieces_of-some cs))
]

keep-append :
    {A : Type 0} (p : A → Bool) (xs ys : List A) → keep p (xs ++ ys) ≡ keep p xs ++ keep p ys
keep-append p [] ys = refl
keep-append p (x ∷ xs) ys = ground (arith, keep-append p xs ys)

segments_of-append :
    (folder path : Text) (s : ℕ)
    → is_separator s ≡ true
    → segments_of (folder ++ s ∷ path) ≡ segments_of folder ++ segments_of path
unfolding segments_of
segments_of-append folder path s h =
    rw (pieces_of-append folder path s h)
      (keep-append is_present (pieces_of folder) (pieces_of path))

drop_end-cons :
    {A : Type 0} (x y : A) (ys : List A) → drop_end 1 (x ∷ y ∷ ys) ≡ x ∷ drop_end 1 (y ∷ ys)
unfolding drop_end
drop_end-cons x y ys =
    let same : suc (suc (length ys)) - 1 ≡ suc (suc (length ys) - 1) = omega arith in
    ap (λ n. take n (x ∷ y ∷ ys)) same

module _ (fold : ℕ → Text) where
  blocked-cons :
      (d s : Text) (ss : List Text)
      → (inspect_segments fold (s ∷ ss)).blocked ≡ true
      → (inspect_segments fold (d ∷ s ∷ ss)).blocked ≡ true
  unfolding inspect_segments verdict_of
  blocked-cons d s ss h = elim (Bool-cases (is_secret_directory fold d)) [
    | inl e ↦ rw (drop_end-cons d s ss, e) refl
    | inr e ↦ rw (drop_end-cons d s ss, e) h
  ]

  blocked-directory :
      (d s : Text) (ss : List Text)
      → is_secret_directory fold d ≡ true
      → (inspect_segments fold (d ∷ s ∷ ss)).blocked ≡ true
  unfolding inspect_segments verdict_of
  blocked-directory d s ss h = rw (drop_end-cons d s ss, h) refl

  blocked-append :
      (ds ss : List Text)
      → (inspect_segments fold ss).blocked ≡ true
      → (inspect_segments fold (ds ++ ss)).blocked ≡ true
  unfolding inspect_segments verdict_of inspect_basename
  blocked-append ds [] h = ground arith
  blocked-append [] (s ∷ ss) h = h
  blocked-append (d ∷ []) (s ∷ ss) h = blocked-cons d s ss h
  blocked-append (d ∷ e ∷ ds) (s ∷ ss) h =
      blocked-cons d e (ds ++ s ∷ ss) (blocked-append (e ∷ ds) (s ∷ ss) h)

  -- A file that the filter blocks is blocked in every folder.
  pub inspect_path-under :
      (folder path : Text) (s : ℕ)
      → is_separator s ≡ true
      → (inspect_path fold path).blocked ≡ true
      → (inspect_path fold (folder ++ s ∷ path)).blocked ≡ true
  unfolding inspect_path
  inspect_path-under folder path s e h =
      rw (segments_of-append folder path s e)
        (blocked-append (segments_of folder) (segments_of path) h)

  -- Whatever lies in a folder that the filter knows is blocked, at any depth.
  pub inspect_path-inside :
      (folder directory path : Text) (s z : ℕ)
      → is_separator s ≡ true
      → is_separator z ≡ true
      → segments_of directory ≡ directory ∷ []
      → is_secret_directory fold directory ≡ true
      → (segment : Text) → (rest : List Text) → segments_of path ≡ segment ∷ rest
      → (inspect_path fold (folder ++ s ∷ (directory ++ z ∷ path))).blocked ≡ true
  unfolding inspect_path
  inspect_path-inside folder directory path s z e f own secret segment rest h =
      rw
        (
          segments_of-append folder (directory ++ z ∷ path) s e,
          segments_of-append directory path z f,
        )
        (blocked-append (segments_of folder) (segments_of directory ++ segments_of path)
          (rw (own, h) (blocked-directory directory segment rest secret)))

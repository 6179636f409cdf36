-- ===== src/Diff/Patch/Applies.antt =====
-- Applying the hunks of groups that cover every change.
use dumbwaystodie.Prelude.{
  ℕ, zero, suc, ◌+◌, ◌-◌, ◌≤◌, ◌<◌, ◌≡◌, refl, sym, ap, ◌∙◌, List, [], ◌∷◌, ◌++◌, map, Bool, true,
  some, take, drop, Text, nat_eq, list_eq, arith, take-append-drop,
}
use dumbwaystodie.Diff.{same, add, remove}
use dumbwaystodie.Diff.Minimal.{old_side, new_side}
use dumbwaystodie.Diff.Hunks.{is_same, reads, writes, window, to_index, from_index, hunk_of}
use dumbwaystodie.Diff.Patch.{patch}
use dumbwaystodie.Diff.Patch.Hunk.{
  Ops, IsHunk, patch-hunk, reads-append, writes-append, old_side-append, new_side-append,
}

-- The operation at an index keeps a line; behind the end nothing changes.
abbrev pub same_at : Ops → ℕ → Bool
same_at [] i = true
same_at (op ∷ ops) zero = is_same op
same_at (op ∷ ops) (suc i) = same_at ops i

pub same_at-drop : (a i : ℕ) (ops : Ops) → same_at (drop a ops) i ≡ same_at ops (a + i)
same_at-drop zero i ops = ap (same_at ops) (omega arith)
same_at-drop (suc a) i [] = refl
same_at-drop (suc a) i (op ∷ ops) =
    same_at-drop a i ops ∙ ap (same_at (op ∷ ops)) {x = suc (a + i)} {y = suc a + i} (omega arith)

quiet-sides : (ops : Ops) → ((i : ℕ) → same_at ops i ≡ true) → old_side ops ≡ new_side ops
quiet-sides [] h = refl
quiet-sides (same x ∷ ops) h = ap (◌∷◌ x) (quiet-sides ops (λ i. h (suc i)))
quiet-sides (remove x ∷ ops) h = cc (h 0)
quiet-sides (add x ∷ ops) h = cc (h 0)

same_at-take :
    (n : ℕ) (ops : Ops)
    → ((i : ℕ) → i < n → same_at ops i ≡ true)
    → (i : ℕ) → same_at (take n ops) i ≡ true
same_at-take zero ops h i = refl
same_at-take (suc n) [] h i = refl
same_at-take (suc n) (op ∷ ops) h zero = h 0 (omega arith)
same_at-take (suc n) (op ∷ ops) h (suc i) = same_at-take n ops (λ j lt. h (suc j) (omega arith)) i

drop-nil {ℓ} : {A : Type ℓ} (n : ℕ) → drop {A = A} n [] ≡ []
drop-nil zero = refl
drop-nil (suc n) = refl

take-nil {ℓ} : {A : Type ℓ} (n : ℕ) → take {A = A} n [] ≡ []
take-nil zero = refl
take-nil (suc n) = refl

drop-add {ℓ} : {A : Type ℓ} (m n : ℕ) (l : List A) → drop n (drop m l) ≡ drop (m + n) l
drop-add zero n l = ap (λ k. drop k l) (omega arith)
drop-add (suc m) n [] = drop-nil n ∙ sym (drop-nil (suc m + n))
drop-add (suc m) n (x ∷ l) =
    drop-add m n l ∙ ap (λ k. drop k (x ∷ l)) {x = suc (m + n)} {y = suc m + n} (omega arith)

take-add {ℓ} : {A : Type ℓ} (m n : ℕ) (l : List A) → take (m + n) l ≡ take m l ++ take n (drop m l)
take-add zero n l = ap (λ k. take k l) (omega arith)
take-add (suc m) n [] = take-nil (suc m + n) ∙ sym (take-nil n)
take-add (suc m) n (x ∷ l) =
    ap (λ k. take k (x ∷ l)) {x = suc m + n} {y = suc (m + n)} (omega arith)
    ∙ ap (◌∷◌ x) (take-add m n l)

-- The same two laws between a lower and an upper index.
drop-to {ℓ} : {A : Type ℓ} (m n : ℕ) (l : List A) → m ≤ n → drop (n - m) (drop m l) ≡ drop n l
drop-to m n l h = drop-add m (n - m) l ∙ ap (λ k. drop k l) (omega arith)

take-to {ℓ} :
    {A : Type ℓ} (m n : ℕ) (l : List A) → m ≤ n → take n l ≡ take m l ++ take (n - m) (drop m l)
take-to m n l h = ap (λ k. take k l) {x = n} {y = m + (n - m)} (omega arith) ∙ take-add m (n - m) l

-- What lies from `k` on, cut at `a` and at `b`.
drop-cut {ℓ} :
    {A : Type ℓ} (k a b : ℕ) (l : List A)
    → k ≤ a
    → a ≤ b
    → drop k l ≡ take (a - k) (drop k l) ++ (take (b - a) (drop a l) ++ drop b l)
drop-cut k a b l p q =
    sym (take-append-drop (a - k) (drop k l))
    ∙ ap (λ r. take (a - k) (drop k l) ++ r)
        (drop-to k a l p
          ∙ sym (take-append-drop (b - a) (drop a l))
          ∙ ap (λ r. take (b - a) (drop a l) ++ r) (drop-to a b l q))

sides-cut :
    (all pre win post : Ops)
    → all ≡ pre ++ (win ++ post)
    → (old_side all ≡ old_side pre ++ (old_side win ++ old_side post))
      × (new_side all ≡ new_side pre ++ (new_side win ++ new_side post))
sides-cut all pre win post e = (
  rw (e, old_side-append pre (win ++ post), old_side-append win post),
  rw (e, new_side-append pre (win ++ post), new_side-append win post),
)

patch-nil : (old : List Text) (n m : ℕ) → patch old n m [] ≡ some old
unfolding patch
patch-nil old n m = refl

module _ (context : ℕ) (ops : Ops) where
  -- From index `k` on, everything outside the windows of the groups keeps its line, and the windows
  -- follow one another.
  abbrev pub Covers : ℕ → List (ℕ × ℕ) → Type 0
  Covers k [] = (i : ℕ) → k ≤ i → same_at ops i ≡ true
  Covers k ((first, final) ∷ gs) =
      (k ≤ from_index context first)
      × (from_index context first ≤ suc (to_index context ops final))
      × ((i : ℕ) → k ≤ i → i < from_index context first → same_at ops i ≡ true)
      × Covers (suc (to_index context ops final)) gs

  hunk_of-IsHunk :
      (k first final : ℕ)
      → k ≤ from_index context first
      → IsHunk
          (1 + reads (take k ops))
          (1 + writes (take k ops))
          (take (from_index context first - k) (drop k ops))
          (window context ops (first, final))
          (hunk_of context ops (first, final))
  unfolding hunk_of
  hunk_of-IsHunk k first final h =
      let a = from_index context first in
      let gap = take (a - k) (drop k ops) in
      let e = take-to k a ops h in
      record {
        old_start = omega (arith, ap reads e, reads-append (take k ops) gap);
        old_lines = refl;
        new_start = omega (arith, ap writes e, writes-append (take k ops) gap);
        new_lines = refl;
        lines = refl;
      }

  -- The number of lines before the end of a hunk.
  reads-hunk :
      (first final : ℕ)
      → from_index context first ≤ suc (to_index context ops final)
      → let h = hunk_of context ops (first, final) in
        let b = suc (to_index context ops final) in
        (h.old_start + h.old_lines ≡ 1 + reads (take b ops))
        × (h.new_start + h.new_lines ≡ 1 + writes (take b ops))
  unfolding hunk_of
  reads-hunk first final h =
      let a = from_index context first in
      let e = take-to a (suc (to_index context ops final)) ops h in
      let win = window context ops (first, final) in
      (
        omega (arith, ap reads e, reads-append (take a ops) win),
        omega (arith, ap writes e, writes-append (take a ops) win),
      )

  pub patch-Covers :
      (k : ℕ) (gs : List (ℕ × ℕ))
      → Covers k gs
      → patch
          (old_side (drop k ops))
          (1 + reads (take k ops))
          (1 + writes (take k ops))
          (map (hunk_of context ops) gs)
        ≡ some (new_side (drop k ops))
  patch-Covers k [] c =
      patch-nil (old_side (drop k ops)) _ _
      ∙ ap some (quiet-sides (drop k ops) (λ i. same_at-drop k i ops ∙ c (k + i) (omega arith)))
  patch-Covers k ((first, final) ∷ gs) (le, le', quiet, rest) =
      let a = from_index context first in
      let b = suc (to_index context ops final) in
      let pre = take (a - k) (drop k ops) in
      let win = window context ops (first, final) in
      let cut = drop-cut k a b ops le le' in
      let still : old_side pre ≡ new_side pre = quiet-sides pre (
        same_at-take (a - k) (drop k ops)
          (λ i lt. same_at-drop k i ops ∙ quiet (k + i) (omega arith) (omega arith))) in
      let (olds, news) = reads-hunk first final le' in
      let h = hunk_of context ops (first, final) in
      let next : patch (old_side (drop b ops)) (h.old_start + h.old_lines)
            (h.new_start + h.new_lines) (map (hunk_of context ops) gs)
          ≡ some (new_side (drop b ops)) =
        rw (olds, news) (patch-Covers b gs rest) in
      ap
        (λ o.
          patch o (1 + reads (take k ops)) (1 + writes (take k ops))
            (h ∷ map (hunk_of context ops) gs))
        (sides-cut _ pre win (drop b ops) cut).0
      ∙ patch-hunk pre win (drop b ops) _ _ h _ _ still (hunk_of-IsHunk k first final le) next
      ∙ ap some (sym (sides-cut _ pre win (drop b ops) cut).1)

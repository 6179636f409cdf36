-- ===== src/Diff/Patch/Hunk.antt =====
-- Applying one hunk of a unified diff.
use dumbwaystodie.Prelude.{
  ℕ, suc, ◌+◌, ◌-◌, ◌≡◌, refl, ap, ◌∙◌, List, [], ◌∷◌, ◌++◌, map, some, length, take, drop, Text,
  nat_eq, list_eq, arith, length-append,
}
use dumbwaystodie.Diff.{Op, same, add, remove}
use dumbwaystodie.Diff.Minimal.{old_side, new_side}
use dumbwaystodie.Diff.Hunks.{DiffHunk, reads, writes, line_text}
use dumbwaystodie.Diff.Patch.{patch, patch_lines, patch_line}

abbrev pub Ops : Type 0
Ops = List (Op Text)

reads-length : (ops : Ops) → reads ops ≡ length (old_side ops)
reads-length [] = refl
reads-length (same x ∷ ops) = ap suc (reads-length ops)
reads-length (remove x ∷ ops) = ap suc (reads-length ops)
reads-length (add x ∷ ops) = reads-length ops

writes-length : (ops : Ops) → writes ops ≡ length (new_side ops)
writes-length [] = refl
writes-length (same x ∷ ops) = ap suc (writes-length ops)
writes-length (remove x ∷ ops) = writes-length ops
writes-length (add x ∷ ops) = ap suc (writes-length ops)

pub old_side-append : (xs ys : Ops) → old_side (xs ++ ys) ≡ old_side xs ++ old_side ys
old_side-append [] ys = refl
old_side-append (same x ∷ xs) ys = ap (◌∷◌ x) (old_side-append xs ys)
old_side-append (remove x ∷ xs) ys = ap (◌∷◌ x) (old_side-append xs ys)
old_side-append (add x ∷ xs) ys = old_side-append xs ys

pub new_side-append : (xs ys : Ops) → new_side (xs ++ ys) ≡ new_side xs ++ new_side ys
new_side-append [] ys = refl
new_side-append (same x ∷ xs) ys = ap (◌∷◌ x) (new_side-append xs ys)
new_side-append (remove x ∷ xs) ys = new_side-append xs ys
new_side-append (add x ∷ xs) ys = ap (◌∷◌ x) (new_side-append xs ys)

patch_line-add : (t : Text) (old : List Text) → patch_line b'+' t old ≡ some (t ∷ [], old)
unfolding patch_line
patch_line-add t [] = refl
patch_line-add t (x ∷ old) = refl

patch_lines-window :
    (win : Ops) (rest : List Text)
    → patch_lines (map line_text win) (old_side win ++ rest) ≡ some (new_side win, rest)
unfolding patch_lines patch_line
patch_lines-window [] rest = refl
patch_lines-window (same x ∷ win) rest =
    ground (arith, (list_eq {A = ℕ}).beq_iff x x, patch_lines-window win rest)
patch_lines-window (remove x ∷ win) rest =
    ground (arith, (list_eq {A = ℕ}).beq_iff x x, patch_lines-window win rest)
patch_lines-window (add x ∷ win) rest =
    ground (arith, patch_line-add x (old_side win ++ rest), patch_lines-window win rest)

take-length_append : (xs ys : List Text) → take (length xs) (xs ++ ys) ≡ xs
take-length_append [] ys = refl
take-length_append (x ∷ xs) ys = ap (◌∷◌ x) (take-length_append xs ys)

drop-length_append : (xs ys : List Text) → drop (length xs) (xs ++ ys) ≡ ys
drop-length_append [] ys = refl
drop-length_append (x ∷ xs) ys = drop-length_append xs ys

pub reads-append : (xs ys : Ops) → reads (xs ++ ys) ≡ reads xs + reads ys
reads-append [] ys = omega arith
reads-append (same x ∷ xs) ys = omega (arith, reads-append xs ys)
reads-append (remove x ∷ xs) ys = omega (arith, reads-append xs ys)
reads-append (add x ∷ xs) ys = reads-append xs ys

pub writes-append : (xs ys : Ops) → writes (xs ++ ys) ≡ writes xs + writes ys
writes-append [] ys = omega arith
writes-append (same x ∷ xs) ys = omega (arith, writes-append xs ys)
writes-append (remove x ∷ xs) ys = writes-append xs ys
writes-append (add x ∷ xs) ys = omega (arith, writes-append xs ys)

-- The numbers of a hunk that starts behind `pre` and covers `win`, seen from line `n` and line `m`.
pub record IsHunk (n m : ℕ) (pre win : Ops) (h : DiffHunk) : Type 0 where
  pub old_start : h.old_start ≡ n + reads pre
  pub old_lines : h.old_lines ≡ reads win
  pub new_start : h.new_start ≡ m + writes pre
  pub new_lines : h.new_lines ≡ writes win
  pub lines : h.lines ≡ map line_text win

-- The quiet lines before a hunk are copied, its lines fit, and the patch goes on behind it.
pub patch-hunk :
    (pre win post : Ops) (n m : ℕ) (h : DiffHunk) (hs : List DiffHunk) (out : List Text)
    → old_side pre ≡ new_side pre
    → IsHunk n m pre win h
    → patch (old_side post) (h.old_start + h.old_lines) (h.new_start + h.new_lines) hs ≡ some out
    → patch (old_side pre ++ (old_side win ++ old_side post)) n m (h ∷ hs)
      ≡ some (new_side pre ++ (new_side win ++ out))
unfolding patch
patch-hunk pre win post n m h hs out quiet is next =
    let rest = old_side win ++ old_side post in
    let skip : h.old_start - n ≡ length (old_side pre) =
      omega (arith, reads-length pre, is.old_start) in
    ground (
      arith,
      ap (λ k. take k (old_side pre ++ rest)) skip ∙ take-length_append (old_side pre) rest,
      ap (λ k. drop k (old_side pre ++ rest)) skip ∙ drop-length_append (old_side pre) rest,
      ap (λ ls. patch_lines ls rest) is.lines ∙ patch_lines-window win (old_side post),
      length-append (old_side win) (old_side post),
      reads-length pre,
      reads-length win,
      writes-length pre,
      writes-length win,
      ap length quiet,
    )

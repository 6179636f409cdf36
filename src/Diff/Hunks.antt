-- ===== src/Diff/Hunks.antt =====
-- `diffLines` and `renderUnifiedDiff` of diff.ts: changed lines are grouped, and each group becomes
-- a hunk with its context.
use dumbwaystodie.Prelude.{
  ℕ, suc, ◌+◌, ◌-◌, ◌*◌, min, List, [], ◌∷◌, ◌++◌, map, Bool, true, false, Option, none, some,
  if◌then◌else◌, leb, ltb, ◌||◌, length, take, drop, Text, lit, newline, split, join, decimal, ◌==◌,
  nat_eq, list_eq,
}
use dumbwaystodie.Diff.{Op, same, add, remove, operations}

pub record DiffHunk : Type 0 where
  pub old_start : ℕ
  pub old_lines : ℕ
  pub new_start : ℕ
  pub new_lines : ℕ
  pub lines : List Text

pub record DiffResult : Type 0 where
  pub hunks : List DiffHunk
  pub changed_lines : ℕ

module _ {A : Type 0} where
  abbrev pub is_same : Op A → Bool
  is_same (same x) = true
  is_same (add x) = false
  is_same (remove x) = false

  -- `op.kind !== "add"` and `op.kind !== "remove"`, counted over a stretch of operations.
  abbrev pub reads : List (Op A) → ℕ
  reads [] = 0
  reads (same x ∷ ops) = suc (reads ops)
  reads (remove x ∷ ops) = suc (reads ops)
  reads (add x ∷ ops) = reads ops

  abbrev pub writes : List (Op A) → ℕ
  writes [] = 0
  writes (same x ∷ ops) = suc (writes ops)
  writes (remove x ∷ ops) = writes ops
  writes (add x ∷ ops) = suc (writes ops)

  -- `changedIndexes`, from the index `i` on.
  unfoldable pub changed_indexes : ℕ → List (Op A) → List ℕ
  changed_indexes i [] = []
  changed_indexes i (op ∷ ops) =
      let rest = changed_indexes (suc i) ops in if is_same op then rest else i ∷ rest

-- The loop that joins an index to the last group, or opens a new one.
unfoldable pub groups_from : ℕ → ℕ → ℕ → List ℕ → List (ℕ × ℕ)
groups_from context first last [] = (first, last) ∷ []
groups_from context first last (k ∷ ks) = elim (leb (k - last) (context * 2)) [
  | true ↦ groups_from context first k ks
  | false ↦ (first, last) ∷ groups_from context k k ks
]

unfoldable pub groups : ℕ → List ℕ → List (ℕ × ℕ)
unfolding groups_from
groups context [] = []
groups context (k ∷ ks) = groups_from context k k ks

abbrev pub line_text : Op Text → Text
line_text (same t) = b' ' ∷ t
line_text (remove t) = b'-' ∷ t
line_text (add t) = b'+' ∷ t

abbrev pub from_index : ℕ → ℕ → ℕ
from_index context first = first - context

abbrev pub to_index : ℕ → List (Op Text) → ℕ → ℕ
to_index context ops final = min (length ops - 1) (final + context)

-- The operations of a hunk, `from` to `to`.
abbrev pub window : ℕ → List (Op Text) → ℕ × ℕ → List (Op Text)
window context ops (first, final) =
    take (suc (to_index context ops final) - from_index context first)
      (drop (from_index context first) ops)

unfoldable pub hunk_of : ℕ → List (Op Text) → ℕ × ℕ → DiffHunk
hunk_of context ops (first, final) =
    let before = take (from_index context first) ops in
    let inside = window context ops (first, final) in
    record {
      old_start = 1 + reads before;
      old_lines = reads inside;
      new_start = 1 + writes before;
      new_lines = writes inside;
      lines = map line_text inside;
    }

abbrev max_diff_lines : ℕ
max_diff_lines = 4000

unfoldable pub diff_ops : ℕ → List (Op Text) → DiffResult
unfolding hunk_of groups changed_indexes
diff_ops context ops =
    let changed = changed_indexes 0 ops in
    if length changed == 0 then record { hunks = []; changed_lines = 0 } else record {
      hunks = map (hunk_of context ops) (groups context changed);
      changed_lines = length changed;
    }

unfoldable pub diff_lines : Text → Text → ℕ → Option DiffResult
unfolding diff_ops operations split
diff_lines before after context =
    let old = split newline before in
    let new = split newline after in
    if ltb max_diff_lines (length old) || ltb max_diff_lines (length new)
    then none
    else some (diff_ops context (operations old new))

render_hunk : DiffHunk → Text
render_hunk h =
    lit "@@ -"
    ++ decimal h.old_start
    ++ lit ","
    ++ decimal h.old_lines
    ++ lit " +"
    ++ decimal h.new_start
    ++ lit ","
    ++ decimal h.new_lines
    ++ lit " @@\n"
    ++ join (newline ∷ []) h.lines

unfoldable pub render_unified_diff : Text → DiffResult → Text
unfolding render_hunk decimal join
render_unified_diff path r =
    lit "--- a/"
    ++ path
    ++ lit "\n+++ b/"
    ++ path
    ++ lit "\n"
    ++ join (newline ∷ []) (map render_hunk r.hunks)

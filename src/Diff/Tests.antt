-- ===== src/Diff/Tests.antt =====
-- Tests of the diff of diff.ts, and its theorems at concrete texts.
use dumbwaystodie.Prelude.{
  ℕ, ◌≤◌, some, List, [], ◌∷◌, Text, lit, newline, split, join, nat_eq, list_eq, ◌≡◌, refl,
}
use mathlib.Core.Option
use dumbwaystodie.Diff.{Op, add, remove, operations}
use dumbwaystodie.Diff.Minimal.{changed_lines, operations-minimal}
use dumbwaystodie.Diff.Hunks.{DiffResult, diff_lines, render_unified_diff}
use dumbwaystodie.Diff.Patch.{patch}
use dumbwaystodie.Diff.Patch.Groups.{diff_lines-patch}

abbrev before : Text
before = lit "a\nb\nc"

abbrev after : Text
after = lit "a\nx\nc"

abbrev result : DiffResult
result = record {
  hunks =
      record {
        old_start = 1;
        old_lines = 3;
        new_start = 1;
        new_lines = 3;
        lines = lit " a" ∷ lit "-b" ∷ lit "+x" ∷ lit " c" ∷ [];
      }
      ∷ [];
  changed_lines = 2;
}

diff_lines_test : diff_lines before after 1 ≡ some result
unfolding diff_lines
diff_lines_test = refl

render_test :
    render_unified_diff (lit "f.ts") result
    ≡ lit "--- a/f.ts\n+++ b/f.ts\n@@ -1,3 +1,3 @@\n a\n-b\n+x\n c"
unfolding render_unified_diff
render_test = refl

diff_lines-patch_example :
    Option.map (join (newline ∷ [])) (patch (split newline before) 1 1 result.hunks) ≡ some after
diff_lines-patch_example = diff_lines-patch before after 1 result diff_lines_test

-- A script that rewrites both lines, against the computed one, which keeps the line 2.
abbrev rewrite_all : List (Op ℕ)
rewrite_all = remove 1 ∷ remove 2 ∷ add 2 ∷ add 3 ∷ []

operations-minimal_example :
    changed_lines {A = ℕ} (operations (1 ∷ 2 ∷ []) (2 ∷ 3 ∷ [])) ≤ changed_lines rewrite_all
operations-minimal_example = operations-minimal (1 ∷ 2 ∷ []) (2 ∷ 3 ∷ []) rewrite_all refl refl

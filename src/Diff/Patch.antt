-- ===== src/Diff/Patch.antt =====
-- What a reader does with a unified diff: each hunk names where it starts on either side, and its
-- lines are checked against the copy that is held.
pub mod Hunk
pub mod Applies
pub mod Groups
use dumbwaystodie.Prelude.{
  ℕ, ◌+◌, ◌-◌, List, [], ◌∷◌, ◌++◌, Option, none, some, if◌then◌else◌, ltb, length, take, drop,
  Text, ◌==◌, nat_eq, list_eq, ◌&&◌, ◌||◌, not,
}
use mathlib.Core.Option
use dumbwaystodie.Diff.Hunks.{DiffHunk}

-- The lines that a hunk writes, and what is left of the old text; `none` if a line does not fit.
pub patch_line : ℕ → Text → List Text → Option (List Text × List Text)
patch_line sign t [] = if sign == b'+' then some (t ∷ [], []) else none
patch_line sign t (x ∷ old) =
    if sign == b'+'
    then some (t ∷ [], x ∷ old)
    else if sign == b' ' && x == t
    then some (t ∷ [], old)
    else if sign == b'-' && x == t
    then some ([], old)
    else none

pub patch_lines : List Text → List Text → Option (List Text × List Text)
patch_lines [] old = some ([], old)
patch_lines ([] ∷ ls) old = none
patch_lines ((sign ∷ t) ∷ ls) old = elim (patch_line sign t old) [
  | none ↦ none
  | some (out, old') ↦ Option.map (λ r. (out ++ r.0, r.1)) (patch_lines ls old')
]

-- `old` is what is left of the old text from line `line` on, and `line'` is the next line of the
-- new text. A hunk that starts before `line`, or not where it says on the new side, is refused.
pub patch : List Text → ℕ → ℕ → List DiffHunk → Option (List Text)
patch old line line' [] = some old
patch old line line' (h ∷ hs) =
    let skip = h.old_start - line in
    if ltb h.old_start line || not (h.new_start == line' + skip)
    then none
    else elim (patch_lines h.lines (drop skip old)) [
      | none ↦ none
      | some (out, rest) ↦
          if length out == h.new_lines && length (drop skip old) == h.old_lines + length rest
          then Option.map (λ more. take skip old ++ (out ++ more))
              (patch rest (h.old_start + h.old_lines) (h.new_start + h.new_lines) hs)
          else none
    ]

-- ===== src/Search.antt =====
-- The search of packages/extension/src/workspace/search.ts in a text. `fold` is the parameter of
-- Secrets, for `toLowerCase`.
pub mod Matches
mod Tests
use dumbwaystodie.Prelude.{
  ℕ, suc, zero, ◌+◌, Bool, true, false, none, some, Option, List, [], ◌∷◌, ◌++◌, ◌&&◌, ◌||◌, Text,
  nat_beq, leb, ltb, if◌then◌else◌, length, take, includes, trim,
}
use dumbwaystodie.Secrets.{cons_first, to_lower}

pub record TextMatch : Type 0 where
  pub line : ℕ
  pub preview : Text

abbrev max_preview_characters : ℕ
max_preview_characters = 200

unfoldable pub make_preview : Text → Text
unfolding trim
make_preview line =
    let trimmed = trim line in
    if ltb max_preview_characters (length trimmed)
    then take max_preview_characters trimmed ++ 0x2026 ∷ []
    else trimmed

-- `content.split(/\r\n|\r|\n/)`
unfoldable pub split_lines : Text → List Text
split_lines [] = [] ∷ []
split_lines (c ∷ []) = if nat_beq c 13 || nat_beq c 10 then [] ∷ [] ∷ [] else (c ∷ []) ∷ []
split_lines (c ∷ d ∷ t) =
    let after = split_lines t in
    let rest = split_lines (d ∷ t) in
    if nat_beq c 13 && nat_beq d 10
    then [] ∷ after
    else if nat_beq c 13 || nat_beq c 10
    then [] ∷ rest
    else cons_first c rest

-- `matches.length >= maxMatches`, where there may be no limit.
abbrev pub is_full : Option ℕ → ℕ → Bool
is_full none found = false
is_full (some limit) found = leb limit found

abbrev pub or_false : Option Bool → Bool
or_false none = false
or_false (some b) = b

module _ (fold : ℕ → Text) where
  unfoldable pub cased : Bool → Text → Text
  unfolding to_lower
  cased true t = t
  cased false t = to_lower fold t

  -- The loop over the lines, from the line `index` on, after `found` matches.
  unfoldable pub scan : Bool → Text → Option ℕ → ℕ → ℕ → List Text → List TextMatch
  unfolding cased includes make_preview
  scan case_sensitive needle limit found index [] = []
  scan case_sensitive needle limit found index (line ∷ lines) =
      let hit : TextMatch = record { line = suc index; preview = make_preview line } in
      let after = scan case_sensitive needle limit (suc found) (suc index) lines in
      let rest = scan case_sensitive needle limit found (suc index) lines in
      if includes needle (cased case_sensitive line)
      then (if is_full limit (suc found) then hit ∷ [] else hit ∷ after)
      else rest

  unfoldable pub find_matches_in_text : Text → Text → Option Bool → Option ℕ → List TextMatch
  unfolding scan split_lines
  find_matches_in_text content [] case_sensitive max_matches = []
  find_matches_in_text content (c ∷ query) case_sensitive max_matches =
      let sensitive = or_false case_sensitive in
      scan sensitive (cased sensitive (c ∷ query)) max_matches 0 0 (split_lines content)

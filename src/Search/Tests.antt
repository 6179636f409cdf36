-- ===== src/Search/Tests.antt =====
-- The search of search.ts in a text of three lines.
use dumbwaystodie.Prelude.{
  ℕ, false, none, some, [], ◌∷◌, Text, lit, includes, starts_with, ◌≡◌, refl,
}
use dumbwaystodie.Secrets.{to_lower}
use dumbwaystodie.Search.{make_preview, split_lines, cased, scan, find_matches_in_text}
use dumbwaystodie.Search.Matches.{limited, hits, find_matches_in_text-limited}

abbrev fold : ℕ → Text
fold c = c ∷ []

abbrev content : Text
content = lit "let a = 1\r\n  LET b\nend"

find_matches_in_text-limited_example :
    find_matches_in_text fold content (lit "let") none (some 5)
    ≡ limited (some 5) (hits fold false (cased fold false (lit "let")) 0 (split_lines content))
find_matches_in_text-limited_example =
    find_matches_in_text-limited fold content b'l' (lit "et") none (some 5)

both_found :
    find_matches_in_text fold content (lit "let") none (some 5)
    ≡ record { line = 1; preview = lit "let a = 1" }
      ∷ record { line = 2; preview = lit "LET b" }
      ∷ []
unfolding find_matches_in_text scan cased to_lower split_lines includes starts_with make_preview
both_found = refl

-- ===== src/Furniture.antt =====
-- What a chat page draws around a reply, packages/browser-adapter/src/surfaces/cleanReply.ts. The
-- patterns of `FURNITURE` are words, pairs of words, and the count of a page.
pub mod Echo
pub mod Kept
mod Tests
use dumbwaystodie.Prelude.{
  ℕ, suc, zero, ◌+◌, ◌*◌, ◌/◌, ◌%◌, Bool, true, false, not, ◌&&◌, ◌||◌, List, [], ◌∷◌, ◌++◌, Text,
  lit, newline, trim, trim_start, is_space, split, join, reverse, length, take, drop, keep, any,
  if◌then◌else◌, nat_beq, leb, ltb, ◌==◌, nat_eq, list_eq, starts_with,
}
use dumbwaystodie.Secrets.{to_lower}

abbrev one_word : List Text
one_word =
    lit "thinking"
    ∷ lit "thinking."
    ∷ lit "thinking.."
    ∷ lit "thinking..."
    ∷ lit "thought"
    ∷ lit "thoughts"
    ∷ lit "reasoning"
    ∷ lit "skip"
    ∷ lit "copy"
    ∷ lit "copied"
    ∷ lit "copied!"
    ∷ lit "regenerate"
    ∷ lit "retry"
    ∷ lit "edit"
    ∷ lit "share"
    ∷ lit "like"
    ∷ lit "dislike"
    ∷ lit "source"
    ∷ lit "sources"
    ∷ lit "citation"
    ∷ lit "citations"
    ∷ []

abbrev two_words : List (Text × Text)
two_words =
    (lit "thought", lit "process")
    ∷ (lit "show", lit "more")
    ∷ (lit "show", lit "less")
    ∷ (lit "show", lit "thinking")
    ∷ (lit "show", lit "reasoning")
    ∷ (lit "hide", lit "thinking")
    ∷ (lit "hide", lit "reasoning")
    ∷ (lit "good", lit "response")
    ∷ (lit "bad", lit "response")
    ∷ (lit "read", lit "aloud")
    ∷ []

abbrev starts_blank : Text → Bool
starts_blank [] = false
starts_blank (c ∷ t) = is_space c

-- The first word, white space, and the second word.
unfoldable pub is_two_words : Text → Text × Text → Bool
unfolding starts_with trim_start
is_two_words t (first, second) =
    let rest = drop (length first) t in
    starts_with first t && starts_blank rest && trim_start rest == second

abbrev digit : ℕ → Bool
digit c = leb b'0' c && leb c b'9'

abbrev only_digits : Text → Bool
only_digits [] = true
only_digits (c ∷ t) = digit c && only_digits t

abbrev more_digits : Text → Bool
more_digits [] = false
more_digits (c ∷ t) = only_digits (c ∷ t)

abbrev skip_digits : Text → Text
skip_digits [] = []
skip_digits (c ∷ t) = if digit c then skip_digits t else c ∷ t

-- A slash, white space and digits.
unfoldable pub slash_digits : Text → Bool
unfolding trim_start
slash_digits [] = false
slash_digits (c ∷ t) = nat_beq c b'/' && more_digits (trim_start t)

unfoldable pub is_page_count : Text → Bool
unfolding slash_digits trim_start
is_page_count [] = false
is_page_count (c ∷ t) = digit c && slash_digits (trim_start (skip_digits t))

-- The flag `i`, for the ASCII letters of the patterns.
abbrev plain_lower : ℕ → Text
plain_lower c = c ∷ []

abbrev max_furniture_length : ℕ
max_furniture_length = 24

unfoldable pub is_furniture : Text → Bool
unfolding trim to_lower is_two_words is_page_count
is_furniture line =
    let trimmed = trim line in
    let lower = to_lower plain_lower trimmed in
    if nat_beq (length trimmed) 0 || ltb max_furniture_length (length trimmed)
    then false
    else any (λ w. lower == w) one_word || any (is_two_words lower) two_words || is_page_count lower

unfoldable pub is_blank_line : Text → Bool
unfolding trim
is_blank_line line = nat_beq (length (trim line)) 0

abbrev pub skip_blank_lines : List Text → List Text
skip_blank_lines [] = []
skip_blank_lines (line ∷ lines) =
    if is_blank_line line then skip_blank_lines lines else line ∷ lines

abbrev pub drop_blank_ends : List Text → List Text
drop_blank_ends lines = reverse (skip_blank_lines (reverse (skip_blank_lines lines)))

abbrev joined : List Text → Text
joined lines = join (newline ∷ []) lines

unfoldable pub is_echo : List Text → List Text → Bool
unfolding trim join
is_echo front back =
    ltb 40 (length (trim (joined front))) && trim (joined front) == trim (joined back)

abbrev pub middle_blank : List Text → Bool
middle_blank [] = true
middle_blank (line ∷ lines) = is_blank_line line

unfoldable pub collapse_repeat : List Text → List Text
unfolding is_echo is_blank_line
collapse_repeat lines =
    let n = length lines in
    let half = n / 2 in
    if leb 2 n && nat_beq (n % 2) 0
    then (if is_echo (take half lines) (drop half lines) then drop half lines else lines)
    else if leb 3 n && nat_beq (n % 2) 1 && middle_blank (drop half lines)
    then (if is_echo (take half lines) (drop (suc half) lines)
        then drop (suc half) lines
        else lines)
    else lines

unfoldable pub clean_reply : Text → Text
unfolding is_furniture is_blank_line collapse_repeat split join
clean_reply text = joined (
    collapse_repeat (drop_blank_ends (keep (λ line. not (is_furniture line)) (split newline text))))

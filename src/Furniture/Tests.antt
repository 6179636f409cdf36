-- ===== src/Furniture/Tests.antt =====
-- The tests of cleanReply.ts at a reply with a header, a button and its preview.
use dumbwaystodie.Prelude.{
  List, not, [], ◌∷◌, ◌++◌, Text, lit, newline, split, join, trim, trim_start, starts_with, keep,
  ◌≡◌, refl,
}
use dumbwaystodie.Secrets.{to_lower}
use dumbwaystodie.Furniture.{
  is_furniture, is_blank_line, is_two_words, is_page_count, slash_digits, is_echo, collapse_repeat,
  clean_reply,
}
use dumbwaystodie.Furniture.Echo.{IsCollapsed, IsEcho}
use dumbwaystodie.Furniture.Kept.{IsBody, clean_reply-kept}

abbrev reply : Text
reply =
    lit
      "Thought  Process\n\n  The loop reads one element past the end of it.\n\n  The loop reads one element past the end of it.\n1 / 2\nCopy"

preview_dropped : clean_reply reply ≡ lit "  The loop reads one element past the end of it."
unfolding clean_reply is_furniture is_blank_line is_two_words is_page_count slash_digits is_echo
    collapse_repeat split join trim trim_start starts_with to_lower
preview_dropped = refl

clean_reply-kept_example :
    (body : List Text) × (part : List Text) × IsBody body
      (keep (λ line. not (is_furniture line)) (split newline reply))
    × IsCollapsed part body
    × ((front blank back : List Text)
        → IsEcho front blank back
        → body ≡ front ++ blank ++ back
        → part ≡ back)
    × (clean_reply reply ≡ join (newline ∷ []) part)
clean_reply-kept_example = clean_reply-kept reply

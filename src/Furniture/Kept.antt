-- ===== src/Furniture/Kept.antt =====
-- What cleanReply.ts keeps of a reply.
use dumbwaystodie.Prelude.{
  false, not, List, [], ◌∷◌, ◌++◌, Text, newline, split, join, reverse, keep, reverse-append,
  reverse-reverse, reverse-cons, list_eq, nat_eq, subst, Bool-cases, inl, inr, append_assoc, ◌≡◌,
  refl, sym, ap, ◌∙◌,
}
use dumbwaystodie.Furniture.{
  is_furniture, is_blank_line, skip_blank_lines, drop_blank_ends, collapse_repeat, clean_reply,
}
use dumbwaystodie.Furniture.Echo.{
  AllBlank, IsCollapsed, IsEcho, collapse_repeat-IsCollapsed, collapse_repeat-echo,
}

skip_blank_lines-append :
    (lines : List Text)
    → (blank : List Text) × (lines ≡ blank ++ skip_blank_lines lines) × AllBlank blank
skip_blank_lines-append [] = ([], refl, tt)
skip_blank_lines-append (l ∷ lines) = elim (Bool-cases (is_blank_line l)) [
  | inl e ↦
      let (blank, whole, blanks) = skip_blank_lines-append lines in
      (l ∷ blank, rw (e) (ap (λ t. l ∷ t) whole), (e, blanks))
  | inr e ↦ ([], rw (e) refl, tt)
]

append-AllBlank : (a b : List Text) → AllBlank a → AllBlank b → AllBlank (a ++ b)
append-AllBlank [] b x y = y
append-AllBlank (l ∷ a) b (e, x) y = (e, append-AllBlank a b x y)

reverse-AllBlank : (a : List Text) → AllBlank a → AllBlank (reverse a)
reverse-AllBlank [] x = tt
reverse-AllBlank (l ∷ a) (e, x) =
    subst AllBlank (sym (reverse-cons l a))
      (append-AllBlank (reverse a) (l ∷ []) (reverse-AllBlank a x) (e, tt))

-- The first line, if there is one, is not blank.
abbrev pub StartsInk : List Text → Type 0
StartsInk [] = Unit {0}
StartsInk (l ∷ lines) = is_blank_line l ≡ false

skip_blank_lines-StartsInk : (lines : List Text) → StartsInk (skip_blank_lines lines)
skip_blank_lines-StartsInk [] = tt
skip_blank_lines-StartsInk (l ∷ lines) = elim (Bool-cases (is_blank_line l)) [
  | inl e ↦ rw (e) (skip_blank_lines-StartsInk lines)
  | inr e ↦ rw (e) e
]

append-StartsInk : (a b : List Text) → StartsInk (a ++ b) → StartsInk a
append-StartsInk [] b h = tt
append-StartsInk (l ∷ a) b h = h

-- The lines without the blank ones at the ends.
abbrev pub IsBody : List Text → List Text → Type 0
IsBody body lines =
    (before : List Text) × (after : List Text) × (lines ≡ before ++ body ++ after)
    × AllBlank before
    × AllBlank after
    × StartsInk body
    × StartsInk (reverse body)

drop_blank_ends-IsBody : (lines : List Text) → IsBody (drop_blank_ends lines) lines
drop_blank_ends-IsBody lines =
    let (before, whole, blanks) = skip_blank_lines-append lines in
    let rest = skip_blank_lines lines in
    let (after, whole', blanks') = skip_blank_lines-append (reverse rest) in
    let body = drop_blank_ends lines in
    let rest_whole : rest ≡ body ++ reverse after =
      sym (reverse-reverse rest)
      ∙ ap reverse whole'
      ∙ reverse-append after (skip_blank_lines (reverse rest)) in
    (
      before,
      reverse after,
      whole ∙ ap (λ t. before ++ t) rest_whole ∙ sym (append_assoc before body (reverse after)),
      blanks,
      reverse-AllBlank after blanks',
      append-StartsInk body (reverse after)
          (subst StartsInk rest_whole (skip_blank_lines-StartsInk lines)),
      subst StartsInk (sym (reverse-reverse (skip_blank_lines (reverse rest))))
          (skip_blank_lines-StartsInk (reverse rest)),
    )

-- A cleaned reply is, of the lines that are not furniture, those from the first to the last that is not
-- blank; but where they are the same long text twice, with nothing or a blank line between, it is the
-- second of the two, and it leaves out nothing else.
pub clean_reply-kept :
    (text : Text)
    → (body : List Text) × (part : List Text) × IsBody body
        (keep (λ line. not (is_furniture line)) (split newline text))
      × IsCollapsed part body
      × ((front blank back : List Text)
          → IsEcho front blank back
          → body ≡ front ++ blank ++ back
          → part ≡ back)
      × (clean_reply text ≡ join (newline ∷ []) part)
unfolding clean_reply
clean_reply-kept text =
    let lines = keep (λ line. not (is_furniture line)) (split newline text) in
    let body = drop_blank_ends lines in
    (
      body,
      collapse_repeat body,
      drop_blank_ends-IsBody lines,
      collapse_repeat-IsCollapsed body,
      λ front blank back e twice.
          ap collapse_repeat twice ∙ collapse_repeat-echo front blank back e,
      refl,
    )

-- ===== src/Furniture/Echo.antt =====
-- When cleanReply.ts takes a reply for one answer that is there twice.
use dumbwaystodie.Prelude.{
  ℕ, suc, zero, ◌/◌, ◌%◌, true, ◌&&◌, List, [], ◌∷◌, ◌++◌, Text, newline, join, length, take, drop,
  All, if◌then◌else◌, ◌≤◌, lt→ltb, length-append, length-drop, ◌+◌, if_true, if_false, trim,
  list_eq, nat_eq, Eq, ◌⊎◌, Bool-cases, inl, inr, leb, nat_beq, append-nil, append_assoc,
  take-append-drop, ◌≡◌, refl, sym, ap, ◌∙◌, arith,
}
use dumbwaystodie.Furniture.{is_blank_line, is_echo, middle_blank, collapse_repeat}

abbrev text_eq : Eq Text
text_eq = list_eq

abbrev pub AllBlank : List Text → Type 0
AllBlank lines = All (λ line. is_blank_line line ≡ true) lines

-- Twice the same, with nothing or one blank line between.
abbrev pub IsEcho : List Text → List Text → List Text → Type 0
IsEcho front blank back =
    (length front ≡ length back)
    × AllBlank blank
    × (length blank ≤ 1)
    × (41 ≤ length (trim (join (newline ∷ []) front)))
    × (trim (join (newline ∷ []) front) ≡ trim (join (newline ∷ []) back))

-- The part is all of the body; or the body has it twice, and the part is the second time.
abbrev pub IsCollapsed : List Text → List Text → Type 0
IsCollapsed part body =
    (part ≡ body)
    ⊎ ((front : List Text) × (blank : List Text) × (body ≡ front ++ blank ++ part)
        × IsEcho front blank part)

is_echo-same :
    (front back : List Text)
    → is_echo front back ≡ true
    → (41 ≤ length (trim (join (newline ∷ []) front)))
      × (trim (join (newline ∷ []) front) ≡ trim (join (newline ∷ []) back))
unfolding is_echo
is_echo-same front back h =
    let long : 41 ≤ length (trim (join (newline ∷ []) front)) = ground arith in
    (
      long,
      (text_eq.beq_iff (trim (join (newline ∷ []) front)) (trim (join (newline ∷ []) back))).0
          (ground arith),
    )

middle :
    (n : ℕ) (lines : List Text)
    → middle_blank (drop n lines) ≡ true
    → (blank : List Text) × (drop n lines ≡ blank ++ drop (suc n) lines)
      × AllBlank blank
      × (length blank ≤ 1)
middle zero [] h = ([], refl, tt, omega arith)
middle zero (line ∷ lines) h = (line ∷ [], refl, (h, tt), omega arith)
middle (suc n) [] h = ([], refl, tt, omega arith)
middle (suc n) (line ∷ lines) h = middle n lines h

even-IsCollapsed :
    (lines : List Text)
    → length lines % 2 ≡ 0
    → let half = length lines / 2 in
      IsCollapsed
        (if is_echo (take half lines) (drop half lines) then drop half lines else lines)
        lines
even-IsCollapsed lines parity =
    let half = length lines / 2 in
    let P = λ (l : List Text). IsCollapsed l lines in
    let size : length (take half lines) + length (drop half lines) ≡ length lines =
      sym (length-append (take half lines) (drop half lines))
      ∙ ap length (take-append-drop half lines) in
    let rest = length-drop half lines in
    elim (Bool-cases (is_echo (take half lines) (drop half lines))) [
      | inl e ↦
          let (long, same) = is_echo-same (take half lines) (drop half lines) e in
          if_true P (is_echo (take half lines) (drop half lines)) _ _ e (
            inr (
              take half lines,
              [],
              sym (take-append-drop half lines)
                  ∙ ap (λ t. t ++ drop half lines) (sym (append-nil (take half lines))),
              (omega (arith, size, rest, parity), tt, omega arith, long, same),
            ))
      | inr e ↦ if_false P (is_echo (take half lines) (drop half lines)) _ _ e (inl refl)
    ]

odd-IsCollapsed :
    (lines : List Text)
    → length lines % 2 ≡ 1
    → middle_blank (drop (length lines / 2) lines) ≡ true
    → let half = length lines / 2 in
      IsCollapsed
        (if is_echo (take half lines) (drop (suc half) lines) then drop (suc half) lines else lines)
        lines
odd-IsCollapsed lines parity m =
    let half = length lines / 2 in
    let P = λ (l : List Text). IsCollapsed l lines in
    let size : length (take half lines) + length (drop half lines) ≡ length lines =
      sym (length-append (take half lines) (drop half lines))
      ∙ ap length (take-append-drop half lines) in
    let rest = length-drop half lines in
    let after = length-drop (suc half) lines in
    let (blank, split_at, blanks, one) = middle half lines m in
    elim (Bool-cases (is_echo (take half lines) (drop (suc half) lines))) [
      | inl e ↦
          let (long, same) = is_echo-same (take half lines) (drop (suc half) lines) e in
          if_true P (is_echo (take half lines) (drop (suc half) lines)) _ _ e (
            inr (
              take half lines,
              blank,
              sym (take-append-drop half lines)
                  ∙ ap (λ t. take half lines ++ t) split_at
                  ∙ sym (append_assoc (take half lines) blank (drop (suc half) lines)),
              (omega (arith, size, rest, after, parity), blanks, one, long, same),
            ))
      | inr e ↦ if_false P (is_echo (take half lines) (drop (suc half) lines)) _ _ e (inl refl)
    ]

pub collapse_repeat-IsCollapsed : (lines : List Text) → IsCollapsed (collapse_repeat lines) lines
unfolding collapse_repeat
collapse_repeat-IsCollapsed lines =
    let P = λ (l : List Text). IsCollapsed l lines in
    let even = leb 2 (length lines) && nat_beq (length lines % 2) 0 in
    let blank = middle_blank (drop (length lines / 2) lines) in
    let odd = leb 3 (length lines) && nat_beq (length lines % 2) 1 && blank in
    elim (Bool-cases even) [
      | inl e ↦ if_true P even _ _ e (even-IsCollapsed lines (ground arith))
      | inr e ↦ if_false P even _ _ e (elim (Bool-cases odd) [
        | inl o ↦ if_true P odd _ _ o (odd-IsCollapsed lines (ground arith) (ground arith))
        | inr o ↦ if_false P odd _ _ o (inl refl)
      ])
    ]

IsEcho-is_echo :
    (front blank back : List Text) → IsEcho front blank back → is_echo front back ≡ true
unfolding is_echo
IsEcho-is_echo front blank back (n, blanks, one, long, same) =
    rw (lt→ltb 40 _ long, (text_eq.beq_iff _ _).1 same) refl

front-some : (front blank back : List Text) → IsEcho front blank back → 1 ≤ length front
unfolding trim join
front-some [] blank back (n, blanks, one, long, same) = ground arith
front-some (l ∷ front) blank back e = omega arith

take-front : (front rest : List Text) → take (length front) (front ++ rest) ≡ front
take-front [] rest = refl
take-front (l ∷ front) rest = ap (λ t. l ∷ t) (take-front front rest)

drop-front : (front rest : List Text) → drop (length front) (front ++ rest) ≡ rest
drop-front [] rest = refl
drop-front (l ∷ front) rest = drop-front front rest

drop-suc-front :
    (front : List Text) (l : Text) (rest : List Text)
    → drop (suc (length front)) (front ++ l ∷ rest) ≡ rest
drop-suc-front [] l rest = refl
drop-suc-front (k ∷ front) l rest = drop-suc-front front l rest

collapse_repeat-even :
    (front back : List Text) → IsEcho front [] back → collapse_repeat (front ++ back) ≡ back
unfolding collapse_repeat
collapse_repeat-even front back e =
    let body = front ++ back in
    let some_lines = front-some front [] back e in
    let size = length-append front back in
    let half : length body / 2 ≡ length front = omega (arith, size, e.0) in
    let parity : length body % 2 ≡ 0 = omega (arith, size, e.0) in
    let first : take (length body / 2) body ≡ front = rw (half) (take-front front back) in
    let second : drop (length body / 2) body ≡ back = rw (half) (drop-front front back) in
    let P = λ (l : List Text). l ≡ back in
    if_true P (leb 2 (length body) && nat_beq (length body % 2) 0) _ _ (ground arith) (
      if_true P (is_echo (take (length body / 2) body) (drop (length body / 2) body)) _ _
        (rw (first, second) (IsEcho-is_echo front [] back e)) second)

collapse_repeat-odd :
    (front : List Text) (l : Text) (back : List Text)
    → IsEcho front (l ∷ []) back
    → collapse_repeat (front ++ l ∷ back) ≡ back
unfolding collapse_repeat
collapse_repeat-odd front l back e =
    let body = front ++ l ∷ back in
    let some_lines = front-some front (l ∷ []) back e in
    let size = length-append front (l ∷ back) in
    let half : length body / 2 ≡ length front = omega (arith, size, e.0) in
    let parity : length body % 2 ≡ 1 = omega (arith, size, e.0) in
    let first : take (length body / 2) body ≡ front = rw (half) (take-front front (l ∷ back)) in
    let second : drop (suc (length body / 2)) body ≡ back =
      rw (half) (drop-suc-front front l back) in
    let between : middle_blank (drop (length body / 2) body) ≡ true =
      rw (half) (ap middle_blank (drop-front front (l ∷ back)) ∙ e.1.0) in
    let P = λ (t : List Text). t ≡ back in
    if_false P (leb 2 (length body) && nat_beq (length body % 2) 0) _ _ (ground arith) (
      if_true P
        (leb 3 (length body)
          && nat_beq (length body % 2) 1
          && middle_blank (drop (length body / 2) body))
        _ _ (ground arith)
        (if_true P (is_echo (take (length body / 2) body) (drop (suc (length body / 2)) body)) _ _
          (rw (first, second) (IsEcho-is_echo front (l ∷ []) back e)) second))

-- A text that has itself twice is reduced to the second time.
pub collapse_repeat-echo :
    (front blank back : List Text)
    → IsEcho front blank back
    → collapse_repeat (front ++ blank ++ back) ≡ back
collapse_repeat-echo front [] back e =
    ap (λ t. collapse_repeat (t ++ back)) (append-nil front) ∙ collapse_repeat-even front back e
collapse_repeat-echo front (l ∷ []) back e =
    ap collapse_repeat (append_assoc front (l ∷ []) back) ∙ collapse_repeat-odd front l back e
collapse_repeat-echo front (l ∷ k ∷ blank) back (n, blanks, one, long, same) =
    let no : ⊥ = ground arith in absurd no

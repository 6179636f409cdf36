-- ===== src/Quiescence/Accepted.antt =====
-- Which observations quiescence.ts accepts, and that its loop ends.
use dumbwaystodie.Prelude.{
  ℕ, suc, zero, ◌≤◌, ◌<◌, Bool, true, false, none, some, Option, [], ◌∷◌, inl, inr, ◌⊎◌, ◌↔◌, Text,
  trim, Option-cases, length, drop, length-drop, ◌≡◌, refl, ap, arith, leb→le, le→leb,
}
use dumbwaystodie.Context.Markdown.{leading}
use dumbwaystodie.Quiescence.{
  should_accept_completion, skip_blanks, after_newline, after_opening, after_closing, closed_by,
  first_of, after_closed_block, has_closed_block, counted, count_closed, ends_inside_block,
  QuiescenceInput, or_default, judge_completion, default_idle_ms, default_max_wait_ms,
  closed_block_idle_ms,
}

-- An observation is accepted exactly at the deadline; or when a closed block has settled and no
-- other is open; or when a text that is not blank has been quiet and nothing is generated.
pub accepted_iff :
    (i : QuiescenceInput) (generating : Bool)
    → (should_accept_completion (judge_completion i) generating ≡ true) ↔ (
        (or_default default_max_wait_ms i.max_wait_ms ≤ i.ms_since_start)
        ⊎ (((ends_inside_block i.text ≡ false)
              × (has_closed_block i.text ≡ true)
              × (or_default closed_block_idle_ms i.closed_block_idle_ms ≤ i.ms_since_last_change))
            ⊎ ((generating ≡ false)
                × (ends_inside_block i.text ≡ false)
                × (1 ≤ length (trim i.text))
                × (or_default default_idle_ms i.idle_ms ≤ i.ms_since_last_change))))
unfolding should_accept_completion judge_completion
accepted_iff i generating =
    let settled = or_default closed_block_idle_ms i.closed_block_idle_ms in
    let latest = or_default default_max_wait_ms i.max_wait_ms in
    let quiet = or_default default_idle_ms i.idle_ms in
    (
      λ h. ground (
        arith,
        leb→le settled i.ms_since_last_change,
        leb→le latest i.ms_since_start,
        leb→le quiet i.ms_since_last_change,
      ),
      λ h. ground (
        arith,
        le→leb settled i.ms_since_last_change,
        le→leb latest i.ms_since_start,
        le→leb quiet i.ms_since_last_change,
      ),
    )

skip_blanks-le : (t : Text) → length (skip_blanks t) ≤ length t
skip_blanks-le [] = omega arith
skip_blanks-le (c ∷ t) = ground (arith, skip_blanks-le t)

after_newline-le : (t r : Text) → after_newline t ≡ some r → length r < length t
after_newline-le [] r h = ground arith
after_newline-le (c ∷ []) r h = ground arith
after_newline-le (c ∷ d ∷ t) r h = ground arith

after_closing-le : (n : ℕ) (t r : Text) → after_closing n t ≡ some r → length r < length t
unfolding after_closing
after_closing-le n [] r h = ground arith
after_closing-le n (c ∷ t) r h =
    let fewer = skip_blanks-le t in
    let dropped = length-drop n (skip_blanks t) in ground (arith, after_closing-le n t r)

after_opening-le : (n : ℕ) (t r : Text) → after_opening n t ≡ some r → length r ≤ length t
unfolding after_opening
after_opening-le n t r h =
    let tagged = skip_blanks (drop n t) in
    let from = length-drop n t in
    let past = length-drop 4 tagged in
    let skipped = skip_blanks-le (drop n t) in
    let again = skip_blanks-le (drop 4 tagged) in
    ground (arith, after_newline-le (skip_blanks (drop 4 tagged)) r)

closed_by-lt :
    (n : ℕ) (o : Option Text) (t r : Text)
    → ((u : Text) → o ≡ some u → length u ≤ length t)
    → closed_by n o ≡ some r
    → length r < length t
closed_by-lt n none t r small h = ground arith
closed_by-lt n (some u) t r small h = ground (arith, small u refl, after_closing-le n u r h)

first_of-either :
    (o p : Option Text) (r : Text) → first_of o p ≡ some r → (o ≡ some r) ⊎ (p ≡ some r)
first_of-either none p r h = inr h
first_of-either (some t) p r h = inl h

-- A match is not empty: the loop goes on with a shorter text.
after_closed_block-lt : (t r : Text) → after_closed_block t ≡ some r → length r < length t
unfolding after_closed_block
after_closed_block-lt [] r h = ground arith
after_closed_block-lt (c ∷ t) r h =
    let n = leading (c ∷ t) in
    let here = closed_by-lt n (after_opening n (c ∷ t)) (c ∷ t) r (after_opening-le n (c ∷ t)) in
    elim (first_of-either (closed_by n (after_opening n (c ∷ t))) (after_closed_block t) r h) [
      | inl e ↦ here e
      | inr e ↦ ground (arith, after_closed_block-lt t r e)
    ]

count_closed-enough :
    (fuel more : ℕ) (t : Text)
    → length t ≤ fuel
    → length t ≤ more
    → count_closed fuel t ≡ count_closed more t
unfolding count_closed
count_closed-enough zero zero t small large = refl
count_closed-enough zero (suc more) [] small large = refl
count_closed-enough zero (suc more) (c ∷ t) small large = ground arith
count_closed-enough (suc fuel) zero [] small large = refl
count_closed-enough (suc fuel) zero (c ∷ t) small large = ground arith
count_closed-enough (suc fuel) (suc more) t small large =
    elim (Option-cases (after_closed_block t)) [
      | inl e ↦ rw (e)
      | inr (u, e) ↦
          let shorter = after_closed_block-lt t u e in
          rw (e) (ap suc (count_closed-enough fuel more u (omega arith) (omega arith)))
    ]

-- The count of closed blocks is that of the loop: none where no block is closed, and else one more
-- than in what follows the first.
pub ends_inside_block-loop :
    (t : Text)
    → count_closed (length t) t
      ≡ counted (λ rest. count_closed (length rest) rest) (after_closed_block t)
unfolding count_closed
ends_inside_block-loop [] = refl
ends_inside_block-loop (c ∷ t) = elim (Option-cases (after_closed_block (c ∷ t))) [
  | inl e ↦ rw (e)
  | inr (u, e) ↦
      let shorter = after_closed_block-lt (c ∷ t) u e in
      rw (e) (ap suc (count_closed-enough (length t) (length u) u (omega arith) (omega arith)))
]

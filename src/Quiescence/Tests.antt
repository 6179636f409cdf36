-- ===== src/Quiescence/Tests.antt =====
-- The tests of quiescence.ts at a reply with a protocol block.
use dumbwaystodie.Prelude.{
  true, false, none, ◌≤◌, ◌⊎◌, ◌↔◌, Text, lit, length, trim, starts_with, ◌≡◌, refl,
}
use dumbwaystodie.Quiescence.{
  CompletionReason, should_accept_completion, has_closed_block, after_closed_block, after_opening,
  after_closing, ends_inside_block, count_opened, count_closed, QuiescenceInput, judge_completion,
  default_idle_ms, default_max_wait_ms,
}
use dumbwaystodie.Quiescence.Accepted.{accepted_iff}

abbrev one_closed : Text
one_closed = lit "Sure:\n```dwtd\n{}\n```\n"

abbrev one_open : Text
one_open = lit "Sure:\n```dwtd\n{}\n```\nThen\n```dwtd\n{"

abbrev seen : Text → QuiescenceInput
seen text = record {
  text = text;
  ms_since_last_change = 700;
  ms_since_start = 5000;
  idle_ms = none;
  max_wait_ms = none;
  closed_block_idle_ms = none;
}

closed_taken : (judge_completion (seen one_closed)).reason ≡ CompletionReason.closed_block
unfolding judge_completion ends_inside_block count_opened count_closed has_closed_block
    after_closed_block after_opening after_closing starts_with
closed_taken = refl

open_left : (judge_completion (seen one_open)).reason ≡ CompletionReason.still_changing
unfolding judge_completion ends_inside_block count_opened count_closed has_closed_block
    after_closed_block after_opening after_closing starts_with trim
open_left = refl

accepted_iff_example :
    (should_accept_completion (judge_completion (seen one_closed)) true ≡ true) ↔ (
      (default_max_wait_ms ≤ 5000)
      ⊎ (((ends_inside_block one_closed ≡ false)
            × (has_closed_block one_closed ≡ true)
            × (600 ≤ 700))
          ⊎ ((true ≡ false)
              × (ends_inside_block one_closed ≡ false)
              × (1 ≤ length (trim one_closed))
              × (default_idle_ms ≤ 700))))
accepted_iff_example = accepted_iff (seen one_closed) true

-- ===== src/Quiescence.antt =====
-- When a streaming reply is over, packages/browser-adapter/src/surfaces/quiescence.ts. The regular
-- expressions are matchers: a fence is the whole run of backticks before `dwtd`, since what follows
-- a shorter part of the run is a backtick.
mod Accepted
mod Tests
use dumbwaystodie.Prelude.{
  ℕ, suc, zero, Bool, true, false, not, none, some, Option, List, [], ◌∷◌, ◌&&◌, ◌||◌, Text, lit,
  newline, trim, nat_beq, leb, ltb, if◌then◌else◌, length, drop, is_some, starts_with,
}
use dumbwaystodie.Context.Markdown.{tick, leading}

abbrev default_idle_ms : ℕ
default_idle_ms = 2200

abbrev default_max_wait_ms : ℕ
default_max_wait_ms = 120_000

abbrev closed_block_idle_ms : ℕ
closed_block_idle_ms = 600

pub data CompletionReason : Type 0 where
  closed_block idle timeout still_changing : CompletionReason

pub record CompletionVerdict : Type 0 where
  pub complete : Bool
  pub reason : CompletionReason
  pub certain : Bool

abbrev is_fact : CompletionReason → Bool
is_fact CompletionReason.closed_block = true
is_fact CompletionReason.timeout = true
is_fact reason = false

unfoldable pub should_accept_completion : CompletionVerdict → Bool → Bool
should_accept_completion verdict generating =
    if not verdict.complete then false else not generating || is_fact verdict.reason

abbrev is_blank : ℕ → Bool
is_blank c = nat_beq c 32 || nat_beq c 9

-- What follows `[ \t]*`
abbrev skip_blanks : Text → Text
skip_blanks [] = []
skip_blanks (c ∷ t) = if is_blank c then skip_blanks t else c ∷ t

-- What follows `[ \t]*dwtd`
abbrev after_tag : Text → Option Text
after_tag t =
    let tagged = skip_blanks t in
    if starts_with (lit "dwtd") tagged then some (drop 4 tagged) else none

-- What follows `\r?\n`
abbrev after_newline : Text → Option Text
after_newline [] = none
after_newline (c ∷ []) = if nat_beq c newline then some [] else none
after_newline (c ∷ d ∷ t) =
    if nat_beq c newline
    then some (d ∷ t)
    else if nat_beq c 13 && nat_beq d newline
    then some t
    else none

abbrev then_newline : Option Text → Option Text
then_newline none = none
then_newline (some t) = after_newline (skip_blanks t)

-- What follows the opening line of a block whose fence has `n` backticks.
unfoldable pub after_opening : ℕ → Text → Option Text
unfolding starts_with
after_opening n t = if leb 3 n then then_newline (after_tag (drop n t)) else none

-- What follows the first closing fence of `n` backticks, which stands after a newline.
unfoldable pub after_closing : ℕ → Text → Option Text
after_closing n [] = none
after_closing n (c ∷ t) =
    let rest = after_closing n t in
    let fenced = skip_blanks t in
    if nat_beq c newline && leb n (leading fenced) then some (drop n fenced) else rest

abbrev closed_by : ℕ → Option Text → Option Text
closed_by n none = none
closed_by n (some t) = after_closing n t

abbrev first_of : Option Text → Option Text → Option Text
first_of (some t) other = some t
first_of none other = other

-- What follows the first match of `CLOSED_BLOCK`.
unfoldable pub after_closed_block : Text → Option Text
unfolding after_opening after_closing
after_closed_block [] = none
after_closed_block (c ∷ t) =
    let n = leading (c ∷ t) in
    first_of (closed_by n (after_opening n (c ∷ t))) (after_closed_block t)

unfoldable pub has_closed_block : Text → Bool
unfolding after_closed_block
has_closed_block t = is_some (after_closed_block t)

-- The matches of `OPEN_BLOCK`: a run of backticks has at most one, from its start.
unfoldable pub count_opened : Bool → Text → ℕ
unfolding starts_with
count_opened in_run [] = 0
count_opened in_run (c ∷ t) =
    let rest = count_opened (nat_beq c tick) t in
    let n = leading (c ∷ t) in
    if not in_run && leb 3 n && is_some (after_tag (drop n (c ∷ t))) then suc rest else rest

-- The loop that counts closed blocks. A round goes on after a match, which is not empty.
abbrev counted : (Text → ℕ) → Option Text → ℕ
counted count none = 0
counted count (some rest) = suc (count rest)

unfoldable pub count_closed : ℕ → Text → ℕ
unfolding after_closed_block
count_closed zero t = 0
count_closed (suc fuel) t = counted (count_closed fuel) (after_closed_block t)

unfoldable pub ends_inside_block : Text → Bool
unfolding count_opened count_closed
ends_inside_block t =
    let opened = count_opened false t in
    if nat_beq opened 0 then false else ltb (count_closed (length t) t) opened

pub record QuiescenceInput : Type 0 where
  pub text : Text
  pub ms_since_last_change : ℕ
  pub ms_since_start : ℕ
  pub idle_ms : Option ℕ
  pub max_wait_ms : Option ℕ
  pub closed_block_idle_ms : Option ℕ

abbrev pub or_default : ℕ → Option ℕ → ℕ
or_default n none = n
or_default n (some m) = m

abbrev verdict : Bool → CompletionReason → Bool → CompletionVerdict
verdict complete reason certain = record { complete = complete; reason = reason; certain = certain }

unfoldable pub judge_completion : QuiescenceInput → CompletionVerdict
unfolding ends_inside_block has_closed_block trim
judge_completion i =
    let mid_block = ends_inside_block i.text in
    let settled =
      leb (or_default closed_block_idle_ms i.closed_block_idle_ms) i.ms_since_last_change in
    if not mid_block && has_closed_block i.text && settled
    then verdict true CompletionReason.closed_block true
    else if leb (or_default default_max_wait_ms i.max_wait_ms) i.ms_since_start
    then verdict true CompletionReason.timeout false
    else if mid_block
    then verdict false CompletionReason.still_changing false
    else if nat_beq (length (trim i.text)) 0
    then verdict false CompletionReason.still_changing false
    else if leb (or_default default_idle_ms i.idle_ms) i.ms_since_last_change
    then verdict true CompletionReason.idle false
    else verdict false CompletionReason.still_changing false

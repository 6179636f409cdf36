-- ===== src/Ledger.antt =====
-- What a conversation has already been told: packages/extension/src/context/ledger.ts. `hash` is
-- the truncated SHA-256 of node:crypto and stands for any function of a text.
pub mod Notes
pub mod Reader
pub mod Plan
mod Tests
use dumbwaystodie.Prelude.{
  ℕ, suc, ◌*◌, min, Bool, false, Option, none, some, List, [], ◌∷◌, ◌++◌, Text, lit, newline, split,
  join, decimal, if◌then◌else◌, ltb, length, take, ◌==◌, list_eq, nat_eq, Map, lookup, insert, ℤ,
  pos, sub_ℕ, ◌+ℤ◌,
}
use dumbwaystodie.Protocol.Context.{ContextItem, FileContextItem, file_item, note_item}
use dumbwaystodie.Diff.Hunks.{DiffResult, diff_lines, render_unified_diff}

-- `maxDiffFraction` is a number such as 0.5, kept as a quotient of two naturals.
pub record LedgerOptions : Type 0 where
  pub pull_threshold : ℕ
  pub max_diff_numerator : ℕ
  pub max_diff_denominator : ℕ

abbrev pub default_ledger_options : LedgerOptions
default_ledger_options = record {
  pull_threshold = 12_000;
  max_diff_numerator = 1;
  max_diff_denominator = 2;
}

pub data Coverage : Type 0 where
  full preview : Coverage

pub record SentFile : Type 0 where
  pub hash : Text
  pub content : Text
  pub line_count : ℕ
  pub turn : ℕ
  pub coverage : Coverage

pub record ContextLedger : Type 0 where
  pub files : Map Text SentFile
  pub turn : ℕ
  pub session_id : Option Text
  pub options : LedgerOptions

pub record PlanResult : Type 0 where
  pub items : List ContextItem
  pub saved_characters : ℤ

abbrev preview_lines : ℕ
preview_lines = 40

abbrev same_session : Option Text → Text → Bool
same_session none id = false
same_session (some s) id = s == id

pub start_session : ContextLedger → Text → ContextLedger
start_session l id =
    if same_session l.session_id id
    then l
    else record l { session_id = some id; files = []; turn = 0 }

-- What `plan` does with one file, before it is put into words.
pub data Verdict : Type 0 where
  unchanged : Verdict
  unchanged_preview : Verdict
  edited : DiffResult → Text → Verdict
  described : Verdict
  sent : Verdict

-- `diff && diff.hunks.length > 0 ? renderUnifiedDiff(item.path, diff) : undefined`
abbrev worth_showing : Text → Option DiffResult → Option (DiffResult × Text)
worth_showing path none = none
worth_showing path (some r) = elim r.hunks [
  | [] ↦ none
  | h ∷ hs ↦ some (r, render_unified_diff path r)
]

-- Steps 2 and 3: the edit if it is small enough, otherwise a description or the file itself.
pub resend : LedgerOptions → FileContextItem → Option (DiffResult × Text) → Verdict
resend o item none = if ltb o.pull_threshold (length item.content) then described else sent
resend o item (some (r, rendered)) =
    if ltb (length rendered * o.max_diff_denominator) (length item.content * o.max_diff_numerator)
    then edited r rendered
    else if ltb o.pull_threshold (length item.content)
    then described
    else sent

pub edit_of : FileContextItem → Option SentFile → Option (DiffResult × Text)
edit_of item none = none
edit_of item (some s) = worth_showing item.path (diff_lines s.content item.content 3)

pub judge : LedgerOptions → FileContextItem → Text → Option SentFile → Verdict
unfolding resend edit_of
judge o item current none = resend o item none
judge o item current (some s) = elim s.coverage [
  | full ↦ if s.hash == current then unchanged else resend o item (edit_of item (some s))
  | preview ↦ if s.hash == current then unchanged_preview else resend o item none
]

abbrev pub described_lines : Text → Text → List Text
described_lines path content =
    let lines = split newline content in
    let shown = join (newline ∷ []) (take preview_lines lines) in
    (path
      ++ lit " is "
      ++ decimal (length lines)
      ++ lit " lines ("
      ++ decimal (length content)
      ++ lit " characters) — too long to paste in full.")
    ∷ []
    ∷ (lit "Here are the first " ++ decimal (min preview_lines (length lines)) ++ lit " lines:")
    ∷ []
    ∷ lit "```"
    ∷ shown
    ∷ lit "```"
    ∷ []
    ∷ (lit "Ask for any part of it with `workspace.read_file` and `startLine`/`endLine`, "
        ++ lit "or search it with `workspace.search`. Do not guess at what the rest contains.")
    ∷ []

pub describe_instead_of_sending : Text → Text → Text
unfolding split join decimal
describe_instead_of_sending path content = join (newline ∷ []) (described_lines path content)

-- The note that carries an edit.
abbrev pub edit_note : Text → Text → Text
edit_note path rendered =
    path
    ++ lit " changed since I sent it earlier. Apply this to the copy you have "
    ++ lit "rather than asking for the whole file again:\n\n```diff\n"
    ++ rendered
    ++ lit "\n```"

pub planned_item : FileContextItem → Verdict → ContextItem
unfolding describe_instead_of_sending
planned_item item unchanged =
    note_item (
      item.path
      ++ lit " is unchanged since I sent it earlier in this conversation — use that copy.")
planned_item item unchanged_preview = note_item (
    item.path
    ++ lit " is unchanged since I described it earlier. I did not send "
    ++ lit "the whole file — ask for any part with `workspace.read_file` and "
    ++ lit "`startLine`/`endLine`.")
planned_item item (edited r rendered) = note_item (edit_note item.path rendered)
planned_item item described = note_item (describe_instead_of_sending item.path item.content)
planned_item item sent = file_item item

saved_by : FileContextItem → Verdict → ℤ
saved_by item unchanged = pos (length item.content)
saved_by item unchanged_preview = sub_ℕ (length item.content) (preview_lines * 80)
saved_by item (edited r rendered) = sub_ℕ (length item.content) (length rendered)
saved_by item described = sub_ℕ (length item.content) (preview_lines * 80)
saved_by item sent = pos 0

pub coverage_of : ContextLedger → Text → Option Coverage
unfolding lookup
coverage_of l path = elim (lookup path l.files) [ none ↦ none | some s ↦ some s.coverage ]

module _ (hash : Text → Text) where
  pub remember : ContextLedger → Text → Text → Coverage → ContextLedger
  unfolding insert split
  remember l path content coverage =
      let entry : SentFile = record {
        hash = hash content;
        content = content;
        line_count = length (split newline content);
        turn = l.turn;
        coverage = coverage;
      } in
      record l { files = insert path entry l.files }

  pub judge_file : ContextLedger → FileContextItem → Verdict
  unfolding judge lookup
  judge_file l item = judge l.options item (hash item.content) (lookup item.path l.files)

  -- The ledger after one file.
  pub record_file : ContextLedger → FileContextItem → Verdict → ContextLedger
  unfolding remember
  record_file l item unchanged = l
  record_file l item unchanged_preview = l
  record_file l item (edited r rendered) = remember l item.path item.content full
  record_file l item described = remember l item.path item.content preview
  record_file l item sent = remember l item.path item.content full

  -- The loop of `plan`, with the items in order and the sum so far.
  plan_from : ContextLedger → List ContextItem → ℤ → PlanResult × ContextLedger
  unfolding judge_file record_file planned_item saved_by ◌+ℤ◌
  plan_from l [] saved = (record { items = []; saved_characters = saved }, l)
  plan_from l (file_item item ∷ items) saved =
      let verdict = judge_file l item in
      let (rest, l') =
        plan_from (record_file l item verdict) items (saved +ℤ saved_by item verdict) in
      (record rest { items = planned_item item verdict ∷ rest.items }, l')
  plan_from l (other ∷ items) saved =
      let (rest, l') = plan_from l items saved in (record rest { items = other ∷ rest.items }, l')

  pub plan : ContextLedger → List ContextItem → PlanResult × ContextLedger
  unfolding plan_from
  plan l items = plan_from (record l { turn = suc l.turn }) items (pos 0)

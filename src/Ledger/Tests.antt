-- ===== src/Ledger/Tests.antt =====
-- The theorems about ledger.ts at a conversation in which a file is sent, edited and sent again.
use dumbwaystodie.Prelude.{
  suc, false, none, some, List, [], ◌∷◌, Text, lit, lookup, nat_eq, list_eq, ◌≡◌, ◌≢◌, refl, sym,
  ◌∙◌,
}
use dumbwaystodie.Protocol.Context.{
  ContextItem, FileContentSource, FileContextItem, file_item, note_item,
}
use dumbwaystodie.Ledger.{
  ContextLedger, default_ledger_options, Verdict, unchanged, described, unchanged_preview,
  judge_file, plan, start_session,
}
use dumbwaystodie.Ledger.Reader.{Copies, read_file}
use dumbwaystodie.Ledger.Plan.{read_from, plan-Agrees_from, start_session-Agrees, read_file-current}

-- A hash for the examples.
abbrev digest : Text → Text
digest t = t

abbrev blank : ContextLedger
blank = record { files = []; turn = 0; session_id = none; options = default_ledger_options }

abbrev opened : ContextLedger
opened = start_session blank (lit "s1")

abbrev file : Text → FileContextItem
file content = record {
  path = lit "f.ts";
  source = FileContentSource.filesystem;
  language = none;
  content = content;
  is_dirty = none;
  document_version = none;
  truncated = false;
  truncation = none;
}

abbrev first_text : Text
first_text = lit "a long first line of the file\nb\nc"

abbrev turn_items : List ContextItem
turn_items =
    file_item (file first_text) ∷ note_item (lit "why?") ∷ file_item (file (lit "a\nx\nc")) ∷ []

-- The ledger and the reader after the file was sent once.
abbrev one_item : List ContextItem
one_item = file_item (file first_text) ∷ []

abbrev ledger_after : ContextLedger
ledger_after = (plan digest opened one_item).1

abbrev copies_after : Copies
copies_after = read_from digest (record opened { turn = suc opened.turn }) [] one_item

judged : judge_file digest ledger_after (file first_text) ≡ unchanged
unfolding judge_file plan start_session
judged = refl

judged-ne : (v : Verdict) → unchanged ≢ v → judge_file digest ledger_after (file first_text) ≢ v
judged-ne v ne e = ne (sym judged ∙ e)

read_file-current_example :
    lookup
      (lit "f.ts")
      (read_file copies_after (file first_text) (judge_file digest ledger_after (file first_text)))
    ≡ some first_text
read_file-current_example =
    read_file-current digest ledger_after copies_after (file first_text)
      (plan-Agrees_from digest opened [] one_item
        (start_session-Agrees digest blank (lit "s1") refl).0)
      (λ s found same. same) (judged-ne described (λ e. cc)) (judged-ne unchanged_preview (λ e. cc))

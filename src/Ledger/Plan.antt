-- ===== src/Ledger/Plan.antt =====
-- The ledger of ledger.ts and its reader over whole turns and sessions.
use dumbwaystodie.Prelude.{
  suc, false, none, some, List, [], ◌∷◌, Text, length, list_eq, nat_eq, lookup, lookup-insert_self,
  ◌≡◌, ◌≢◌, refl, sym, ap, ◌∙◌, ℤ, ◌+ℤ◌, pos,
}
use dumbwaystodie.Protocol.Context.{
  ContextItem, FileContextItem, file_item, selection_item, note_item,
}
use dumbwaystodie.Ledger.{
  ContextLedger, SentFile, Verdict, unchanged, unchanged_preview, edited, described, sent,
  judge_file, record_file, plan_from, plan, saved_by, start_session, coverage_of, same_session,
}
use dumbwaystodie.Ledger.Notes.{ends_tick}
use dumbwaystodie.Ledger.Reader.{
  Copies, read_file, Agrees, Justified, judge_file-Justified, record_file-Agrees, apply_edit-held,
}

module _ (hash : Text → Text) where
  -- The reader's copies after the items of a turn, in order.
  pub read_from : ContextLedger → Copies → List ContextItem → Copies
  read_from l c [] = c
  read_from l c (file_item item ∷ items) =
      let verdict = judge_file hash l item in
      read_from (record_file hash l item verdict) (read_file c item verdict) items
  read_from l c (other ∷ items) = read_from l c items

  plan_from-Agrees :
      (l : ContextLedger) (c : Copies) (items : List ContextItem) (saved : ℤ)
      → Agrees hash l c
      → Agrees hash (plan_from hash l items saved).1 (read_from l c items)
  unfolding plan_from read_from
  plan_from-Agrees l c [] saved a = a
  plan_from-Agrees l c (file_item item ∷ items) saved a =
      let v = judge_file hash l item in
      plan_from-Agrees (record_file hash l item v) (read_file c item v) items
        (saved +ℤ saved_by item v)
        (record_file-Agrees hash l c item v a (judge_file-Justified hash l item v refl))
  plan_from-Agrees l c (selection_item i ∷ items) saved a = plan_from-Agrees l c items saved a
  plan_from-Agrees l c (other ∷ items) saved a = plan_from-Agrees l c items saved a

  -- The notes among the items are no edits: they do not end in a fence.
  abbrev pub ArePlain : List ContextItem → Type 0
  ArePlain [] = Unit {0}
  ArePlain (note_item note ∷ items) = (ends_tick note ≡ false) × ArePlain items
  ArePlain (other ∷ items) = ArePlain items

  -- The same for the copies that `read_from` gives.
  pub plan-Agrees_from :
      (l : ContextLedger) (c : Copies) (items : List ContextItem)
      → Agrees hash l c
      → Agrees hash (plan hash l items).1 (read_from (record l { turn = suc l.turn }) c items)
  unfolding plan
  plan-Agrees_from l c items a =
      plan_from-Agrees (record l { turn = suc l.turn }) c items (pos 0)
        (record { held = a.held; hashed = a.hashed })

  -- A session with another id starts from nothing sent, in agreement with a reader of nothing.
  pub start_session-Agrees :
      (l : ContextLedger) (id : Text)
      → same_session l.session_id id ≡ false
      → Agrees hash (start_session l id) []
        × ((path : Text) → coverage_of (start_session l id) path ≡ none)
  unfolding start_session coverage_of lookup
  start_session-Agrees l id h = (
    rw (h, start_session) (record { held = λ p s found e. cc; hashed = λ p s found. cc }),
    λ p. rw (h, start_session) refl,
  )

  read_as-current :
      (l : ContextLedger) (c : Copies) (item : FileContextItem) (v : Verdict)
      → Agrees hash l c
      → ((s : SentFile)
          → lookup item.path l.files ≡ some s
          → hash s.content ≡ hash item.content
          → s.content ≡ item.content)
      → Justified hash l item v
      → v ≢ described
      → v ≢ unchanged_preview
      → lookup item.path (read_file c item v) ≡ some item.content
  unfolding read_file
  read_as-current l c item unchanged a fresh (s, found, e, h) nd np =
      a.held item.path s found e ∙ ap some (fresh s found (sym (a.hashed item.path s found) ∙ h))
  read_as-current l c item unchanged_preview a fresh j nd np = absurd (np refl)
  read_as-current l c item (edited r t) a fresh (s, found, e, d, shown) nd np =
      rw (apply_edit-held c item.path s.content item.content r (a.held item.path s found e) d)
        (lookup-insert_self item.path item.content c)
  read_as-current l c item described a fresh j nd np = absurd (nd refl)
  read_as-current l c item sent a fresh j nd np = lookup-insert_self item.path item.content c

  -- Where ledger and reader agree, and the digest tells the text on record from the present one, a file
  -- that is judged unchanged, edited or sent leaves the reader with its present text.
  pub read_file-current :
      (l : ContextLedger) (c : Copies) (item : FileContextItem)
      → Agrees hash l c
      → ((s : SentFile)
          → lookup item.path l.files ≡ some s
          → hash s.content ≡ hash item.content
          → s.content ≡ item.content)
      → judge_file hash l item ≢ described
      → judge_file hash l item ≢ unchanged_preview
      → lookup item.path (read_file c item (judge_file hash l item)) ≡ some item.content
  read_file-current l c item a fresh nd np =
      read_as-current l c item _ a fresh (judge_file-Justified hash l item _ refl) nd np

  length-plan_from :
      (l : ContextLedger) (items : List ContextItem) (saved : ℤ)
      → length (plan_from hash l items saved).0.items ≡ length items
  unfolding plan_from
  length-plan_from l [] saved = refl
  length-plan_from l (file_item item ∷ items) saved =
      let v = judge_file hash l item in
      ap suc (length-plan_from (record_file hash l item v) items (saved +ℤ saved_by item v))
  length-plan_from l (selection_item i ∷ items) saved = ap suc (length-plan_from l items saved)
  length-plan_from l (other ∷ items) saved = ap suc (length-plan_from l items saved)

  -- Planning drops no item and adds none.
  pub length-plan :
      (l : ContextLedger) (items : List ContextItem)
      → length (plan hash l items).0.items ≡ length items
  unfolding plan
  length-plan l items = length-plan_from (record l { turn = suc l.turn }) items (pos 0)

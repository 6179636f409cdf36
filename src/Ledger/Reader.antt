-- ===== src/Ledger/Reader.antt =====
-- The chat's side of ledger.ts: the copies that a reader of the planned items holds, and what it is
-- for the ledger to agree with them.
use dumbwaystodie.Prelude.{
  ℕ, Bool, true, false, ◌++◌, Option, none, some, List, [], ◌∷◌, Text, lit, newline, split, join,
  length, list_eq, nat_eq, Map, lookup, insert, lookup-insert_self, lookup-insert_ne,
  lookup-insert-cases, ◌≡◌, ◌≢◌, refl, ap, ◌∙◌, inl, inr, arith,
}
use dumbwaystodie.Protocol.Context.{ContextItem, FileContextItem, file_item, note_item}
use dumbwaystodie.Diff.Hunks.{DiffResult, diff_lines, render_unified_diff}
use dumbwaystodie.Diff.Patch.{patch}
use dumbwaystodie.Diff.Patch.Groups.{diff_lines-patch}
use dumbwaystodie.Ledger.{
  ContextLedger, LedgerOptions, SentFile, Coverage, full, preview, Verdict, unchanged,
  unchanged_preview, edited, described, sent, judge, resend, edit_of, judge_file, remember,
  edit_note, planned_item, record_file,
}
use dumbwaystodie.Ledger.Notes.{ends_tick, append-EndsPlain, ends_plain, described-EndsPlain}

abbrev pub Copies : Type 0
Copies = Map Text Text

-- The reader's copy after an edit; the old one stays if the edit does not fit.
abbrev patched : Text → Option (List Text) → Text
patched old none = old
patched old (some lines) = join (newline ∷ []) lines

pub apply_edit : Copies → Text → DiffResult → Copies
apply_edit c path r = elim (lookup path c) [
  | none ↦ c
  | some old ↦ insert path (patched old (patch (split newline old) 1 1 r.hunks)) c
]

-- What the reader makes of one planned item.
unfoldable pub read_file : Copies → FileContextItem → Verdict → Copies
unfolding apply_edit
read_file c item unchanged = c
read_file c item unchanged_preview = c
read_file c item (edited r rendered) = apply_edit c item.path r
read_file c item described = c
read_file c item sent = insert item.path item.content c

abbrev pub is_copy_or_note : ContextItem → Bool
is_copy_or_note (file_item item) = true
is_copy_or_note (note_item note) = true
is_copy_or_note other = false

-- A reader of one item, who has the item and the copies only: a file is a copy of it, an edit is applied
-- to the copy, and other notes and items give none. An edit ends in a fence, other notes do not.
pub data Reads (c : Copies) : ContextItem → Copies → Type 0 where
  whole : {item : FileContextItem} → Reads c (file_item item) (insert item.path item.content c)
  edit :
      {note : Text} (path : Text) (r : DiffResult)
      → note ≡ edit_note path (render_unified_diff path r)
      → Reads c (note_item note) (apply_edit c path r)
  told : {note : Text} → ends_tick note ≡ false → Reads c (note_item note) c
  seen : {item : ContextItem} → is_copy_or_note item ≡ false → Reads c item c

pub data ReadsAll : Copies → List ContextItem → Copies → Type 0 where
  none_left : {c : Copies} → ReadsAll c [] c
  one_read :
      {item : ContextItem} {items : List ContextItem} {c c' c'' : Copies}
      → Reads c item c'
      → ReadsAll c' items c''
      → ReadsAll c (item ∷ items) c''

-- The file that an edit is based on was held in full, and the edit is its diff.
resend-ne-edited_none :
    (o : LedgerOptions) (item : FileContextItem) (r : DiffResult) (t : Text)
    → resend o item none ≢ edited r t
unfolding resend
resend-ne-edited_none o item r t = ground arith

resend-eq-edited :
    (o : LedgerOptions) (item : FileContextItem) (s : SentFile) (r : DiffResult) (t : Text)
    → resend o item (edit_of item (some s)) ≡ edited r t
    → (diff_lines s.content item.content 3 ≡ some r) × (t ≡ render_unified_diff item.path r)
unfolding resend edit_of
resend-eq-edited o item s r t h = ground arith

module _ (o : LedgerOptions) (item : FileContextItem) (current : Text) where
  judge-eq-unchanged :
      (p : Option SentFile)
      → judge o item current p ≡ unchanged
      → (s : SentFile) × (p ≡ some s) × (s.coverage ≡ full) × (s.hash ≡ current)
  unfolding judge resend
  judge-eq-unchanged none h = ground arith
  judge-eq-unchanged (some s) h =
      (s, refl, ground arith, ground (arith, (list_eq {A = ℕ}).beq_iff s.hash current))

  judge-eq-unchanged_preview :
      (p : Option SentFile)
      → judge o item current p ≡ unchanged_preview
      → (s : SentFile) × (p ≡ some s) × (s.coverage ≡ preview) × (s.hash ≡ current)
  unfolding judge resend
  judge-eq-unchanged_preview none h = ground arith
  judge-eq-unchanged_preview (some s) h =
      (s, refl, ground arith, ground (arith, (list_eq {A = ℕ}).beq_iff s.hash current))

  judge-eq-edited :
      (p : Option SentFile) (r : DiffResult) (t : Text)
      → judge o item current p ≡ edited r t
      → (s : SentFile) × (p ≡ some s)
        × (s.coverage ≡ full)
        × (diff_lines s.content item.content 3 ≡ some r)
        × (t ≡ render_unified_diff item.path r)
  unfolding judge resend edit_of
  judge-eq-edited none r t h = ground arith
  judge-eq-edited (some s) r t h = (s, refl, ground arith, ground arith, ground arith)

pub apply_edit-held :
    (c : Copies) (path old new : Text) (r : DiffResult)
    → lookup path c ≡ some old
    → diff_lines old new 3 ≡ some r
    → apply_edit c path r ≡ insert path new c
unfolding apply_edit
apply_edit-held c path old new r held e = ground (arith, diff_lines-patch old new 3 r e)

module _ (hash : Text → Text) where
  -- What the ledger must know for a verdict about a file.
  abbrev pub Justified : ContextLedger → FileContextItem → Verdict → Type 0
  Justified l item unchanged =
      (s : SentFile) × (lookup item.path l.files ≡ some s)
      × (s.coverage ≡ full)
      × (s.hash ≡ hash item.content)
  Justified l item unchanged_preview =
      (s : SentFile) × (lookup item.path l.files ≡ some s)
      × (s.coverage ≡ preview)
      × (s.hash ≡ hash item.content)
  Justified l item (edited r t) =
      (s : SentFile) × (lookup item.path l.files ≡ some s)
      × (s.coverage ≡ full)
      × (diff_lines s.content item.content 3 ≡ some r)
      × (t ≡ render_unified_diff item.path r)
  Justified l item described = Unit {0}
  Justified l item sent = Unit {0}

  pub judge_file-Justified :
      (l : ContextLedger) (item : FileContextItem) (v : Verdict)
      → judge_file hash l item ≡ v
      → Justified l item v
  unfolding judge_file
  judge_file-Justified l item unchanged h =
      judge-eq-unchanged l.options item (hash item.content) _ h
  judge_file-Justified l item unchanged_preview h =
      judge-eq-unchanged_preview l.options item (hash item.content) _ h
  judge_file-Justified l item (edited r t) h =
      judge-eq-edited l.options item (hash item.content) _ r t h
  judge_file-Justified l item described h = tt
  judge_file-Justified l item sent h = tt

  -- The verdict on a file is put into words that a reader takes as it is meant.
  pub planned_item-Reads :
      (l : ContextLedger) (c : Copies) (item : FileContextItem) (v : Verdict)
      → Justified l item v
      → Reads c (planned_item item v) (read_file c item v)
  unfolding planned_item read_file
  planned_item-Reads l c item unchanged j =
      Reads.told (ends_plain _ (append-EndsPlain item.path _ (_, _, refl, refl)))
  planned_item-Reads l c item unchanged_preview j = Reads.told (
      ends_plain _ (
        append-EndsPlain
          (item.path
            ++ lit " is unchanged since I described it earlier. I did not send "
            ++ lit "the whole file — ask for any part with `workspace.read_file` and ")
          (lit "`startLine`/`endLine`.") (_, _, refl, refl)))
  planned_item-Reads l c item (edited r t) (s, found, e, d, shown) =
      Reads.edit item.path r (ap (edit_note item.path) shown)
  planned_item-Reads l c item described j =
      Reads.told (ends_plain _ (described-EndsPlain item.path item.content))
  planned_item-Reads l c item sent j = Reads.whole

  -- Whatever the ledger records as sent in full, the reader holds in exactly that form, and each
  -- record carries the hash of its text.
  pub record Agrees (l : ContextLedger) (c : Copies) : Type 0 where
    pub held :
        (path : Text) (s : SentFile)
        → lookup path l.files ≡ some s
        → s.coverage ≡ full
        → lookup path c ≡ some s.content
    pub hashed :
        (path : Text) (s : SentFile) → lookup path l.files ≡ some s → s.hash ≡ hash s.content

  abbrev entry_for : ContextLedger → Text → Coverage → SentFile
  entry_for l content coverage = record {
    hash = hash content;
    content = content;
    line_count = length (split newline content);
    turn = l.turn;
    coverage = coverage;
  }

  remember-Agrees :
      (l : ContextLedger) (c c' : Copies) (path content : Text) (coverage : Coverage)
      → Agrees l c
      → (coverage ≡ full → lookup path c' ≡ some content)
      → ((p : Text) → (list_eq {A = ℕ}).beq path p ≡ false → lookup p c' ≡ lookup p c)
      → Agrees (remember hash l path content coverage) c'
  unfolding remember
  remember-Agrees l c c' path content coverage a here there = record {
    held = λ p s found e.
        elim (lookup-insert-cases path p (entry_for l content coverage) s l.files found) [
          | inl (same_path, same_entry) ↦
              rw (← same_path, ← same_entry)
                (here (ap (λ (x : SentFile). x.coverage) same_entry ∙ e))
          | inr (ne, old) ↦ there p ne ∙ a.held p s old e
        ];
    hashed = λ p s found.
        elim (lookup-insert-cases path p (entry_for l content coverage) s l.files found) [
          | inl (same_path, same_entry) ↦ rw (← same_entry)
          | inr (ne, old) ↦ a.hashed p s old
        ];
  }

  pub record_file-Agrees :
      (l : ContextLedger) (c : Copies) (item : FileContextItem) (v : Verdict)
      → Agrees l c
      → Justified l item v
      → Agrees (record_file hash l item v) (read_file c item v)
  unfolding record_file read_file
  record_file-Agrees l c item unchanged a j = a
  record_file-Agrees l c item unchanged_preview a j = a
  record_file-Agrees l c item (edited r t) a (s, found, e, d, shown) =
      let copied =
        apply_edit-held c item.path s.content item.content r (a.held item.path s found e) d in
      remember-Agrees l c _ item.path item.content full a
        (λ same. rw copied (lookup-insert_self item.path item.content c))
        (λ p ne. rw copied (lookup-insert_ne item.path p item.content c ne))
  record_file-Agrees l c item described a j =
      remember-Agrees l c c item.path item.content preview a (λ e. cc) (λ p ne. refl)
  record_file-Agrees l c item sent a j =
      remember-Agrees l c _ item.path item.content full a
        (λ e. lookup-insert_self item.path item.content c)
        (λ p ne. lookup-insert_ne item.path p item.content c ne)

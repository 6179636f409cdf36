-- ===== src/Context.antt =====
-- The context engine of packages/extension/src/context/ContextEngine.ts: what of the editor a request
-- carries by default. `fold` is the parameter of Secrets, and `Editor` is what the `EditorAdapter`
-- answers while a request is built.
mod Budget
mod Withheld
pub mod Markdown
mod Tests
use dumbwaystodie.Prelude.{
  ℕ, ◌+◌, ◌-◌, Bool, true, false, none, some, Option, List, [], ◌∷◌, ◌++◌, Text, lit, decimal, leb,
  ltb, if◌then◌else◌, length, take, map, is_some,
}
use dumbwaystodie.Protocol.Context.{
  WorkspaceContext, DocumentSnapshot, SelectionSnapshot, CursorSnapshot, DiagnosticSnapshot,
  EditorContext, ContextItem, selection_item, file_item, diagnostics_item, note_item,
  TruncationInfo, LearningState, ContextBudget,
}
use dumbwaystodie.Protocol.Size.{sum, context_item_characters}
use dumbwaystodie.Protocol.Wire.{AttachmentRef, ClientCapabilities, ToolDescriptor, CoachRequest}
use dumbwaystodie.Secrets.{SecretFilterVerdict, inspect_path}

pub record Editor : Type 0 where
  pub workspace : WorkspaceContext
  pub document : Option DocumentSnapshot
  pub selection : Option SelectionSnapshot
  pub cursor : Option CursorSnapshot
  pub diagnostics : List DiagnosticSnapshot

pub record ToolDirectory : Type 0 where
  pub capabilities : ClientCapabilities
  pub tools : List ToolDescriptor

pub record BuildRequestInput : Type 0 where
  pub session_id : Text
  pub message : Text
  pub learning : Option LearningState
  pub attachments : Option (List AttachmentRef)

-- What has been gathered so far: the items, and the notes on what is left out.
pub record Gathered : Type 0 where
  pub items : List ContextItem
  pub notes : List Text

-- `items.push(item)` and the note, if there is one.
abbrev pub add_item : ContextItem → List Text → Gathered → Gathered
add_item item notes g = record { items = g.items ++ item ∷ []; notes = g.notes ++ notes }

unfoldable pub truncate : Text → ℕ → Text × Option TruncationInfo
truncate content max = if leb (length content) max then (content, none) else (
  take max content,
  some record { original_characters = length content; included_characters = max },
)

abbrev pub truncation_note : Text → Option TruncationInfo → List Text
truncation_note what none = []
truncation_note what (some t) =
    (what
      ++ lit " truncated to "
      ++ decimal t.included_characters
      ++ lit " of "
      ++ decimal t.original_characters
      ++ lit " characters.")
    ∷ []

unfoldable pub gather_selection : ContextBudget → Option SelectionSnapshot → Gathered → Gathered
unfolding truncate
gather_selection budget none g = g
gather_selection budget (some s) g =
    let (content, truncation) = truncate s.content budget.max_file_characters in
    add_item
      (selection_item record {
        range = s.range;
        path = s.path;
        language = s.language;
        content = content;
        is_dirty = s.is_dirty;
        truncation = truncation;
      })
      (truncation_note (lit "Selection") truncation) g

unfoldable pub gather_buffer : ContextBudget → DocumentSnapshot → Gathered → Gathered
unfolding truncate
gather_buffer budget d g =
    let (content, truncation) = truncate d.content budget.max_file_characters in
    add_item
      (file_item record {
        path = d.path;
        source = d.source;
        language = some d.language;
        content = content;
        is_dirty = some d.is_dirty;
        document_version = some d.document_version;
        truncated = is_some truncation;
        truncation = truncation;
      })
      (truncation_note (lit "Active buffer") truncation) g

unfoldable pub gather_diagnostics :
    ContextBudget → DocumentSnapshot → List DiagnosticSnapshot → Gathered → Gathered
gather_diagnostics budget d [] g = g
gather_diagnostics budget d (x ∷ xs) g =
    let included = take budget.max_diagnostic_items (x ∷ xs) in
    let omitted = length (x ∷ xs) - length included in
    let left_out = ltb (length included) (length (x ∷ xs)) in
    add_item
      (diagnostics_item record {
        path = d.path;
        diagnostics = included;
        omitted_count = if left_out then some omitted else none;
      })
      (if left_out
        then (decimal omitted ++ lit " diagnostics omitted by the context budget.") ∷ []
        else [])
      g

-- A reason is missing from a verdict only where nothing is blocked; it is then `undefined`.
abbrev pub reason_or : Text → Option Text → Text
reason_or other none = other
reason_or other (some reason) = reason

unfoldable pub editor_context_of : Editor → DocumentSnapshot → EditorContext
editor_context_of e d = record {
  active_file = d.path;
  absolute_path = d.absolute_path;
  language = d.language;
  is_dirty = d.is_dirty;
  document_version = d.document_version;
  line_count = d.line_count;
  cursor = e.cursor;
  selection = elim e.selection [ none ↦ none | some s ↦ some s.range ];
}

abbrev pub nothing_gathered : Gathered
nothing_gathered = record { items = []; notes = [] }

-- The three types that may be dropped, in the order in which they are.
pub data Droppable : Type 0 where
  file_type diagnostics_type selection_type : Droppable

abbrev pub type_name : Droppable → Text
type_name Droppable.file_type = lit "file"
type_name Droppable.diagnostics_type = lit "diagnostics"
type_name Droppable.selection_type = lit "selection"

abbrev pub drop_order : List Droppable
drop_order = Droppable.file_type ∷ Droppable.diagnostics_type ∷ Droppable.selection_type ∷ []

-- `item.type === type`
unfoldable pub has_type : Droppable → ContextItem → Bool
has_type Droppable.file_type (file_item item) = true
has_type Droppable.diagnostics_type (diagnostics_item item) = true
has_type Droppable.selection_type (selection_item item) = true
has_type type item = false

-- `findIndex` and `splice`: the items without the first of the type, if there is one.
unfoldable pub without_first : Droppable → List ContextItem → Option (List ContextItem)
unfolding has_type
without_first type [] = none
without_first type (item ∷ items) =
    if has_type type item
    then some items
    else elim (without_first type items) [ none ↦ none | some rest ↦ some (item ∷ rest) ]

unfoldable pub total_characters : List ContextItem → ℕ
unfolding context_item_characters
total_characters items = sum (map context_item_characters items)

-- `items` is what is left without the first item of the type.
abbrev pub drop_found : ContextBudget → Droppable → Gathered → Option (List ContextItem) → Gathered
drop_found budget type g none = g
drop_found budget type g (some items) = record {
  items = items;
  notes =
      g.notes
      ++ (lit "Dropped \""
          ++ type_name type
          ++ lit "\" context: request exceeded "
          ++ decimal budget.max_characters
          ++ lit " characters.")
        ∷ [];
}

-- One round of the loop over `drop_order`.
unfoldable pub drop_type : ContextBudget → Droppable → Gathered → Gathered
unfolding without_first
drop_type budget type g = drop_found budget type g (without_first type g.items)

unfoldable pub drop_types : ContextBudget → List Droppable → Gathered → Gathered
unfolding total_characters drop_type
drop_types budget [] g = g
drop_types budget (type ∷ types) g =
    if leb (total_characters g.items) budget.max_characters
    then g
    else drop_types budget types (drop_type budget type g)

unfoldable pub apply_total_budget : ContextBudget → Gathered → Gathered
unfolding drop_types
apply_total_budget budget g = drop_types budget drop_order g

module _ (fold : ℕ → Text) where
  unfoldable pub gather_content : ContextBudget → Editor → DocumentSnapshot → Gathered
  unfolding gather_selection gather_buffer inspect_path
  gather_content budget e d =
      let verdict = inspect_path fold d.path in
      if verdict.blocked
      then record {
        items = [];
        notes =
            (lit "Content of "
              ++ d.path
              ++ lit " was withheld: "
              ++ reason_or (lit "undefined") verdict.reason
              ++ lit ".")
            ∷ [];
      }
      else gather_buffer budget d (gather_selection budget e.selection nothing_gathered)

  unfoldable pub gather_document : ContextBudget → Editor → Option DocumentSnapshot → Gathered
  unfolding gather_content gather_diagnostics
  gather_document budget e none = record {
    items = [];
    notes = lit "No active text editor when the message was sent." ∷ [];
  }
  gather_document budget e (some d) =
      gather_diagnostics budget d e.diagnostics (gather_content budget e d)

  unfoldable pub gather : ContextBudget → Editor → Gathered
  unfolding gather_document
  gather budget e = gather_document budget e e.document

  unfoldable pub build_request :
      ContextBudget → ToolDirectory → Editor → Text → BuildRequestInput → CoachRequest × List Text
  unfolding gather apply_total_budget editor_context_of
  build_request budget directory e id input =
      let kept = apply_total_budget budget (gather budget e) in
      (
        record {
          id = id;
          session_id = input.session_id;
          message = input.message;
          workspace = e.workspace;
          editor_context = elim e.document [ none ↦ none | some d ↦ some (editor_context_of e d) ];
          rendered = none;
          model = none;
          context_items = kept.items ++ map note_item kept.notes;
          attachments = elim input.attachments [ none ↦ [] | some attachments ↦ attachments ];
          learning = input.learning;
          coaching = none;
          client_capabilities = directory.capabilities;
          available_tools = directory.tools;
        },
        kept.notes,
      )

-- `summarize`, for the panel.
pub record SelectionSummary : Type 0 where
  pub start_line : ℕ
  pub end_line : ℕ
  pub characters : ℕ

pub record ContextSummary : Type 0 where
  pub workspace_name : Text
  pub active_file : Option Text
  pub language : Option Text
  pub is_dirty : Bool
  pub document_version : Option ℕ
  pub buffer_characters : Option ℕ
  pub selection : Option SelectionSummary
  pub cursor : Option CursorSnapshot
  pub diagnostic_count : ℕ
  pub blocked_reason : Option Text

module _ (fold : ℕ → Text) where
  unfoldable pub summarize : Editor → ContextSummary
  unfolding inspect_path
  summarize e = elim e.document [
    | none ↦ record {
      workspace_name = e.workspace.name;
      active_file = none;
      language = none;
      is_dirty = false;
      document_version = none;
      buffer_characters = none;
      selection = none;
      cursor = none;
      diagnostic_count = 0;
      blocked_reason = none;
    }
    | some d ↦
        let verdict = inspect_path fold d.path in
        let blocked : ContextSummary = record {
          workspace_name = e.workspace.name;
          active_file = some d.path;
          language = some d.language;
          is_dirty = d.is_dirty;
          document_version = some d.document_version;
          buffer_characters = none;
          selection = none;
          cursor = none;
          diagnostic_count = length e.diagnostics;
          blocked_reason = some (reason_or (lit "matched a secret-file pattern") verdict.reason);
        } in
        if verdict.blocked then blocked else record blocked {
          buffer_characters = some (length d.content);
          selection = elim e.selection [
            | none ↦ none
            | some s ↦ some record {
              start_line = s.range.start_line;
              end_line = s.range.end_line;
              characters = length s.content;
            }
          ];
          cursor = e.cursor;
          blocked_reason = none;
        }
  ]

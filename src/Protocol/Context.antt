-- ===== src/Protocol/Context.antt =====
-- The context model of packages/protocol/src/context.ts: what a request carries about the editor.
use dumbwaystodie.Prelude.{ℕ, Bool, List, Option, Text}

pub data FileContentSource : Type 0 where
  editor_buffer filesystem : FileContentSource

pub record WorkspaceRootRef : Type 0 where
  pub name : Text
  pub path : Text

pub record WorkspaceContext : Type 0 where
  pub name : Text
  pub roots : List WorkspaceRootRef

pub record TruncationInfo : Type 0 where
  pub original_characters : ℕ
  pub included_characters : ℕ

pub record DocumentSnapshot : Type 0 where
  pub path : Text
  pub absolute_path : Text
  pub language : Text
  pub is_dirty : Bool
  pub document_version : ℕ
  pub line_count : ℕ
  pub source : FileContentSource
  pub content : Text

pub record SelectionRange : Type 0 where
  pub start_line : ℕ
  pub start_column : ℕ
  pub end_line : ℕ
  pub end_column : ℕ

pub record SelectionSnapshot : Type 0 where
  pub range : SelectionRange
  pub path : Text
  pub language : Text
  pub content : Text
  pub is_dirty : Bool

pub record CursorSnapshot : Type 0 where
  pub line : ℕ
  pub column : ℕ

-- Metadata only: the capture time is left out.
pub record EditorContext : Type 0 where
  pub active_file : Text
  pub absolute_path : Text
  pub language : Text
  pub is_dirty : Bool
  pub document_version : ℕ
  pub line_count : ℕ
  pub cursor : Option CursorSnapshot
  pub selection : Option SelectionRange

pub data DiagnosticSeverity : Type 0 where
  error warning info hint : DiagnosticSeverity

pub record DiagnosticSnapshot : Type 0 where
  pub path : Text
  pub severity : DiagnosticSeverity
  pub message : Text
  pub line : ℕ
  pub column : ℕ
  pub source : Option Text
  pub code : Option Text

pub record SelectionContextItem : Type 0 where
  pub range : SelectionRange
  pub path : Text
  pub language : Text
  pub content : Text
  pub is_dirty : Bool
  pub truncation : Option TruncationInfo

pub record FileContextItem : Type 0 where
  pub path : Text
  pub source : FileContentSource
  pub language : Option Text
  pub content : Text
  pub is_dirty : Option Bool
  pub document_version : Option ℕ
  pub truncated : Bool
  pub truncation : Option TruncationInfo

pub record DiagnosticContextItem : Type 0 where
  pub path : Text
  pub diagnostics : List DiagnosticSnapshot
  pub omitted_count : Option ℕ

pub record TerminalContextItem : Type 0 where
  pub terminal_name : Option Text
  pub content : Text
  pub captured_at : Text

pub record GitContextItem : Type 0 where
  pub branch : Option Text
  pub status : Option Text
  pub diff : Option Text

pub data EntryType : Type 0 where
  file directory : EntryType

pub record ProjectTreeEntry : Type 0 where
  pub path : Text
  pub entry_type : EntryType

pub record LearningState : Type 0 where
  pub current_goal : Option Text
  pub current_feature : Option Text
  pub current_micro_skill : Option Text
  pub current_understanding : Option Text
  pub prediction : Option Text
  pub observed_result : Option Text
  pub demonstrated : Option (List Text)
  pub shaky : Option (List Text)

pub data ContextItem : Type 0 where
  selection_item : SelectionContextItem → ContextItem
  file_item : FileContextItem → ContextItem
  diagnostics_item : DiagnosticContextItem → ContextItem
  terminal_item : TerminalContextItem → ContextItem
  git_item : GitContextItem → ContextItem
  note_item : Text → ContextItem
  tree_item : List ProjectTreeEntry → Bool → ContextItem
  learning_item : LearningState → ContextItem

pub record ContextBudget : Type 0 where
  pub max_characters : ℕ
  pub max_file_characters : ℕ
  pub max_diagnostic_items : ℕ
  pub max_tree_entries : ℕ

abbrev pub default_context_budget : ContextBudget
default_context_budget = record {
  max_characters = 120_000;
  max_file_characters = 40_000;
  max_diagnostic_items = 100;
  max_tree_entries = 500;
}

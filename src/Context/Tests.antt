-- ===== src/Context/Tests.antt =====
-- The theorems about ContextEngine.ts at an editor with a file of five characters.
use dumbwaystodie.Prelude.{
  ℕ, ◌+◌, ◌≤◌, true, false, none, some, [], ◌∷◌, ◌++◌, newline, Text, lit, map, All, ◌≡◌, refl,
  starts_with, ends_with, includes, last_index_of, drop_end,
}
use dumbwaystodie.Protocol.Context.{
  editor_buffer, DocumentSnapshot, SelectionSnapshot, SelectionRange, ContextBudget,
  DiagnosticSnapshot, DiagnosticSeverity, note_item,
}
use dumbwaystodie.Protocol.Wire.{no_capabilities}
use dumbwaystodie.Context.{
  Editor, ToolDirectory, BuildRequestInput, total_characters, build_request,
}
use dumbwaystodie.Secrets.{
  inspect_path, inspect_segments, segments_of, pieces_of, inspect_basename, to_lower, extension_of,
  verdict_of,
}
use dumbwaystodie.Context.Markdown.{fence}
use dumbwaystodie.Context.Markdown.Fence.{read_block, read_block-fence}
use dumbwaystodie.Context.Budget.{build_request-fits}
use dumbwaystodie.Context.Withheld.{
  has_text, IsHonest, build_request-withheld, build_request-IsHonest,
}

-- An editor whose files have ASCII names only.
abbrev fold : ℕ → Text
fold c = c ∷ []

abbrev range : SelectionRange
range = record { start_line = 1; start_column = 1; end_line = 1; end_column = 3 }

abbrev document : Text → DocumentSnapshot
document path = record {
  path = path;
  absolute_path = path;
  language = lit "text";
  is_dirty = true;
  document_version = 3;
  line_count = 1;
  source = editor_buffer;
  content = lit "a = 1";
}

abbrev selected : Text → SelectionSnapshot
selected path = record {
  range = range;
  path = path;
  language = lit "text";
  content = lit "a =";
  is_dirty = true;
}

abbrev diagnostic : Text → DiagnosticSnapshot
diagnostic path = record {
  path = path;
  severity = DiagnosticSeverity.error;
  message = lit "no";
  line = 1;
  column = 1;
  source = none;
  code = none;
}

abbrev editor : Text → Editor
editor path = record {
  workspace = record { name = lit "w"; roots = [] };
  document = some (document path);
  selection = some (selected path);
  cursor = some record { line = 1; column = 3 };
  diagnostics = diagnostic path ∷ [];
}

-- Two characters for a text, and forty-three for all.
abbrev budget : ContextBudget
budget = record {
  max_characters = 43;
  max_file_characters = 2;
  max_diagnostic_items = 1;
  max_tree_entries = 0;
}

abbrev directory : ToolDirectory
directory = record { capabilities = no_capabilities; tools = [] }

abbrev input : BuildRequestInput
input = record { session_id = lit "s"; message = lit "why?"; learning = none; attachments = none }

build_request-fits_example :
    total_characters
      (build_request fold budget directory (editor (lit "a.txt")) (lit "r") input).0.context_items
    ≤ 43
      + total_characters (
          map note_item
            (build_request fold budget directory (editor (lit "a.txt")) (lit "r") input).1)
build_request-fits_example =
    build_request-fits fold budget directory (editor (lit "a.txt")) (lit "r") input

build_request-withheld_example :
    All
      (λ item. has_text item ≡ false)
      (build_request fold budget directory
        (editor (lit "conf/.env.local"))
        (lit "r")
        input).0.context_items
unfolding inspect_path inspect_segments segments_of pieces_of inspect_basename to_lower extension_of
    starts_with ends_with includes last_index_of drop_end verdict_of
build_request-withheld_example =
    build_request-withheld fold budget directory (editor (lit "conf/.env.local")) (lit "r") input
      (document (lit "conf/.env.local")) refl refl

build_request-IsHonest_example :
    All
      (IsHonest budget (editor (lit "a.txt")) (document (lit "a.txt")))
      (build_request fold budget directory (editor (lit "a.txt")) (lit "r") input).0.context_items
build_request-IsHonest_example =
    build_request-IsHonest fold budget directory (editor (lit "a.txt")) (lit "r") input
      (document (lit "a.txt")) refl

read_block-fence_example :
    read_block (fence (lit "md") (lit "a\n````\nb") ++ newline ∷ lit "````")
    ≡ some (lit "md", lit "a\n````\nb")
read_block-fence_example =
    read_block-fence (lit "md") (lit "a\n````\nb") (lit "````") (refl, (refl, tt)) refl

-- ===== src/Context/Markdown.antt =====
-- The rendering of a request as Markdown, packages/extension/src/context/serialize.ts. The time at
-- which the editor was read is an argument.
pub mod Fence
use dumbwaystodie.Prelude.{
  ℕ, suc, zero, ◌+◌, max, Bool, true, false, none, some, Option, List, [], ◌∷◌, ◌++◌, Text, lit,
  newline, join, decimal, nat_beq, ltb, if◌then◌else◌, length, map, find, keep,
}
use dumbwaystodie.Protocol.Context.{
  ContextItem, selection_item, file_item, diagnostics_item, note_item, editor_buffer,
  FileContentSource, EditorContext, SelectionContextItem, FileContextItem, DiagnosticContextItem,
  DiagnosticSnapshot, DiagnosticSeverity, CursorSnapshot, TruncationInfo, LearningState,
}
use dumbwaystodie.Protocol.Wire.{CoachRequest, AttachmentRef, ToolDescriptor}

abbrev pub tick : ℕ
tick = b'`'

-- The run of backticks at the start of a text.
abbrev pub leading : Text → ℕ
leading [] = 0
leading (c ∷ t) = if nat_beq c tick then suc (leading t) else 0

-- The longest match of /`+/g: a match is as long as any run that starts in it.
abbrev pub longest_run : Text → ℕ
longest_run [] = 0
longest_run (c ∷ t) = max (leading (c ∷ t)) (longest_run t)

abbrev pub repeated : ℕ → ℕ → Text
repeated c zero = []
repeated c (suc n) = c ∷ repeated c n

abbrev pub fence_length : Text → ℕ
fence_length content = max 3 (longest_run content + 1)

unfoldable pub fence : Text → Text → Text
fence language content =
    let ticks = repeated tick (fence_length content) in
    ticks ++ language ++ newline ∷ (content ++ newline ∷ ticks)

abbrev boolean_text : Bool → Text
boolean_text true = lit "true"
boolean_text false = lit "false"

abbrev given : Option Text → Text → Text → Text
given none before after = []
given (some []) before after = []
given (some (c ∷ t)) before after = before ++ (c ∷ t) ++ after

abbrev cursor_lines : Option CursorSnapshot → List Text
cursor_lines none = []
cursor_lines (some c) =
    lit "## Cursor" ∷ (lit "L" ++ decimal c.line ++ lit ":" ++ decimal c.column) ∷ [] ∷ []

abbrev editor_lines : Text → Option EditorContext → List Text
editor_lines captured_at none =
    lit "## Active editor" ∷ lit "None. No capturable text editor was focused." ∷ [] ∷ []
editor_lines captured_at (some e) =
    lit "## Active editor"
    ∷ (lit "File: " ++ e.active_file)
    ∷ (lit "Language: " ++ e.language)
    ∷ (lit "Dirty: " ++ boolean_text e.is_dirty)
    ∷ (lit "Document version: " ++ decimal e.document_version)
    ∷ (lit "Lines: " ++ decimal e.line_count)
    ∷ (lit "Captured at: " ++ captured_at)
    ∷ []
    ∷ cursor_lines e.cursor

abbrev truncation_lines : Option TruncationInfo → List Text
truncation_lines none = []
truncation_lines (some t) =
    (lit "Truncated: "
      ++ decimal t.included_characters
      ++ lit " of "
      ++ decimal t.original_characters
      ++ lit " characters.")
    ∷ []

unfoldable pub first_selection : List ContextItem → Option SelectionContextItem
first_selection [] = none
first_selection (selection_item s ∷ items) = some s
first_selection (item ∷ items) = first_selection items

unfoldable selection_lines : Option SelectionContextItem → List Text
unfolding fence
selection_lines none = []
selection_lines (some s) =
    lit "## Selection"
    ∷ (lit "Lines " ++ decimal s.range.start_line ++ lit "-" ++ decimal s.range.end_line)
    ∷ (truncation_lines s.truncation ++ [] ∷ fence s.language s.content ∷ [] ∷ [])

abbrev is_editor_buffer : FileContentSource → Bool
is_editor_buffer FileContentSource.editor_buffer = true
is_editor_buffer FileContentSource.filesystem = false

unfoldable pub first_buffer : List ContextItem → Option FileContextItem
first_buffer [] = none
first_buffer (file_item f ∷ items) =
    let rest = first_buffer items in if is_editor_buffer f.source then some f else rest
first_buffer (item ∷ items) = first_buffer items

abbrev is_true : Option Bool → Bool
is_true none = false
is_true (some b) = b

abbrev or_empty_text : Option Text → Text
or_empty_text none = []
or_empty_text (some t) = t

unfoldable buffer_lines : Option FileContextItem → List Text
unfolding fence
buffer_lines none = []
buffer_lines (some f) =
    lit "## Active buffer"
    ∷ (if is_true f.is_dirty
        then lit "Live editor buffer, including unsaved changes. This is NOT the version on disk."
        else lit "Live editor buffer. It currently matches disk.")
    ∷ (truncation_lines f.truncation ++ [] ∷ fence (or_empty_text f.language) f.content ∷ [] ∷ [])

abbrev severity_text : DiagnosticSeverity → Text
severity_text DiagnosticSeverity.error = lit "error"
severity_text DiagnosticSeverity.warning = lit "warning"
severity_text DiagnosticSeverity.info = lit "info"
severity_text DiagnosticSeverity.hint = lit "hint"

abbrev code_text : Option Text → Text
code_text none = []
code_text (some code) = lit " [" ++ code ++ lit "]"

abbrev diagnostic_line : DiagnosticSnapshot → Text
diagnostic_line d =
    lit "- "
    ++ severity_text d.severity
    ++ lit " L"
    ++ decimal d.line
    ++ lit ":"
    ++ decimal d.column
    ++ given d.source (lit " (") (lit ")")
    ++ code_text d.code
    ++ lit " "
    ++ d.message

abbrev omitted_lines : Option ℕ → List Text
omitted_lines none = []
omitted_lines (some n) =
    if nat_beq n 0
    then []
    else (lit "- ..." ++ decimal n ++ lit " omitted by the context budget") ∷ []

unfoldable pub first_diagnostics : List ContextItem → Option DiagnosticContextItem
first_diagnostics [] = none
first_diagnostics (diagnostics_item d ∷ items) = some d
first_diagnostics (item ∷ items) = first_diagnostics items

abbrev no_diagnostics : List Text
no_diagnostics = lit "None reported for the active file." ∷ [] ∷ []

abbrev diagnostics_lines : Option DiagnosticContextItem → List Text
diagnostics_lines none = no_diagnostics
diagnostics_lines (some d) =
    if nat_beq (length d.diagnostics) 0
    then no_diagnostics
    else map diagnostic_line d.diagnostics ++ omitted_lines d.omitted_count ++ [] ∷ []

abbrev line_if : Option Text → Text → List Text
line_if none before = []
line_if (some []) before = []
line_if (some (c ∷ t)) before = (before ++ c ∷ t) ∷ []

abbrev understanding_lines : Option Text → List Text
understanding_lines none = []
understanding_lines (some []) = []
understanding_lines (some (c ∷ t)) = lit "Current understanding:" ∷ (c ∷ t) ∷ []

abbrev learning_lines : Option LearningState → List Text
learning_lines none = []
learning_lines (some l) =
    lit "## Learning state"
    ∷ (line_if l.current_feature (lit "Current feature: ")
        ++ line_if l.current_micro_skill (lit "Current micro-skill: ")
        ++ understanding_lines l.current_understanding
        ++ [] ∷ [])

abbrev attachment_line : AttachmentRef → Text
attachment_line a =
    lit "- " ++ a.filename ++ lit " (" ++ a.mime_type ++ lit ", " ++ decimal a.size ++ lit " bytes)"

-- A section, where there is something to say.
abbrev section : Text → List Text → List Text
section title [] = []
section title (l ∷ ls) = title ∷ ((l ∷ ls) ++ [] ∷ [])

unfoldable pub notes_of : List ContextItem → List Text
notes_of [] = []
notes_of (note_item note ∷ items) = note ∷ notes_of items
notes_of (item ∷ items) = notes_of items

abbrev tool_name : ToolDescriptor → Text
tool_name t = lit "`" ++ t.name ++ lit "`"

unfoldable describe_tools : List ToolDescriptor → Text
unfolding join
describe_tools [] =
    lit "## Tools" ++ newline ∷ lit "None. This build cannot fetch additional context on request."
describe_tools (t ∷ ts) =
    lit "## Tools"
    ++ newline
      ∷ (lit "Ask for these rather than guessing, or asking me to paste code: "
          ++ join (lit ", ") (map tool_name (t ∷ ts))
          ++ lit ".")

unfoldable pub request_to_markdown : Text → CoachRequest → Text
unfolding join first_selection selection_lines first_buffer buffer_lines first_diagnostics notes_of
    describe_tools
request_to_markdown captured_at request = join (newline ∷ []) (
    lit "# DUMB WAYS TO DIE — EDITOR CONTEXT"
    ∷ []
    ∷ lit "## User message"
    ∷ request.message
    ∷ []
    ∷ lit "## Workspace"
    ∷ request.workspace.name
    ∷ []
    ∷ (editor_lines captured_at request.editor_context
        ++ selection_lines (first_selection request.context_items)
        ++ buffer_lines (first_buffer request.context_items)
        ++ lit "## Diagnostics"
          ∷ (diagnostics_lines (first_diagnostics request.context_items)
              ++ learning_lines request.learning
              ++ section (lit "## Attachments") (map attachment_line request.attachments)
              ++ section (lit "## Notes from the context engine")
                  (map (λ note. lit "- " ++ note) (notes_of request.context_items))
              ++ describe_tools request.available_tools ∷ [] ∷ [])))

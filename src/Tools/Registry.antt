-- ===== src/Tools/Registry.antt =====
-- What ToolRegistry.ts offers: registration, the list of tools, and the capabilities derived from it.
use dumbwaystodie.Prelude.{
  Bool, false, ◌||◌, Option, none, some, List, [], ◌∷◌, map, Text, lit, if◌then◌else◌, ◌==◌, nat_eq,
  list_eq, Map, lookup, insert, has, ◌≡◌, ◌∙◌, arith,
}
use dumbwaystodie.Protocol.Wire.{ToolDescriptor, ClientCapabilities, no_capabilities}
use dumbwaystodie.Tools.{ToolDefinition, ToolRegistry}

-- `none` is the error that a name is taken.
register : ToolDefinition → ToolRegistry → Option ToolRegistry
register tool r =
    if has tool.name r.tools
    then none
    else some (record r { tools = insert tool.name tool r.tools })

pub list : ToolRegistry → List ToolDescriptor
list r =
    map
      (λ (e : Text × ToolDefinition). record {
        name = e.1.name;
        description = e.1.description;
        permission = e.1.permission;
      })
      r.tools

-- `capabilities[CAPABILITY_BY_TOOL[name]] = true`, if the name is in that table.
enable : Text → ClientCapabilities → ClientCapabilities
enable name c = record c {
  read_active_document = c.read_active_document || name == lit "editor.active_document";
  read_file = c.read_file || name == lit "workspace.read_file";
  search_files = c.search_files || name == lit "workspace.search";
  list_directory = c.list_directory || name == lit "workspace.list_directory";
  project_tree = c.project_tree || name == lit "workspace.project_tree";
  read_diagnostics = c.read_diagnostics || name == lit "editor.diagnostics";
  run_command = c.run_command || name == lit "shell.run";
}

enable_all : Map Text ToolDefinition → ClientCapabilities → ClientCapabilities
enable_all [] c = c
enable_all ((name, tool) ∷ m) c = enable_all m (enable name c)

pub get_capabilities : ToolRegistry → ClientCapabilities
get_capabilities r = enable_all r.tools no_capabilities

abbrev with_tools : Map Text ToolDefinition → ClientCapabilities → ClientCapabilities
with_tools m c = record c {
  read_active_document = c.read_active_document || has (lit "editor.active_document") m;
  read_file = c.read_file || has (lit "workspace.read_file") m;
  search_files = c.search_files || has (lit "workspace.search") m;
  list_directory = c.list_directory || has (lit "workspace.list_directory") m;
  project_tree = c.project_tree || has (lit "workspace.project_tree") m;
  read_diagnostics = c.read_diagnostics || has (lit "editor.diagnostics") m;
  run_command = c.run_command || has (lit "shell.run") m;
}

or-has :
    (b : Bool) (key name : Text) (tool : ToolDefinition) (m : Map Text ToolDefinition)
    → ((b || name == key) || has key m) ≡ (b || has key ((name, tool) ∷ m))
unfolding lookup
or-has b key name tool m = ground arith

or-false : (b : Bool) → (b || false) ≡ b
or-false b = ground arith

enable_all-with_tools :
    (m : Map Text ToolDefinition) (c : ClientCapabilities) → enable_all m c ≡ with_tools m c
unfolding enable_all enable lookup
enable_all-with_tools [] c = cc (
  or-false c.read_active_document,
  or-false c.read_file,
  or-false c.search_files,
  or-false c.list_directory,
  or-false c.project_tree,
  or-false c.read_diagnostics,
  or-false c.run_command,
)
enable_all-with_tools ((name, tool) ∷ m) c =
    enable_all-with_tools m (enable name c)
    ∙ cc (
      or-has c.read_active_document (lit "editor.active_document") name tool m,
      or-has c.read_file (lit "workspace.read_file") name tool m,
      or-has c.search_files (lit "workspace.search") name tool m,
      or-has c.list_directory (lit "workspace.list_directory") name tool m,
      or-has c.project_tree (lit "workspace.project_tree") name tool m,
      or-has c.read_diagnostics (lit "editor.diagnostics") name tool m,
      or-has c.run_command (lit "shell.run") name tool m,
    )

-- A capability is advertised exactly when the tool behind it is registered, and attachments never are.
pub get_capabilities-has :
    (r : ToolRegistry)
    → get_capabilities r ≡ record {
      read_active_document = has (lit "editor.active_document") r.tools;
      read_file = has (lit "workspace.read_file") r.tools;
      search_files = has (lit "workspace.search") r.tools;
      list_directory = has (lit "workspace.list_directory") r.tools;
      project_tree = has (lit "workspace.project_tree") r.tools;
      read_diagnostics = has (lit "editor.diagnostics") r.tools;
      run_command = has (lit "shell.run") r.tools;
      attachments = false;
    }
unfolding get_capabilities
get_capabilities-has r = enable_all-with_tools r.tools no_capabilities

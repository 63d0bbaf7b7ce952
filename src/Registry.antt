-- ===== src/Registry.antt =====
-- The code registry: src/acop/tools/registry.py. A registry is the list of its declarations, with
-- one for each name and version.
pub mod Reconcile
use cyberwithsteve_acop.Base.{
  none, if◌then◌else◌, [], ◌∷◌, some, ◌++◌, String, Bool, ◌&&◌, Option, List, str_eq, find,
}
use cyberwithsteve_acop.Contract.{ToolDefinition}
use cyberwithsteve_acop.Contract.Rules.{DeclarationError, Environment, validate_declaration}

abbrev has_key : String → String → ToolDefinition → Bool
has_key name version d = str_eq d.tool_name name && str_eq d.tool_version version

unfoldable pub get_definition : List ToolDefinition → String → String → Option ToolDefinition
get_definition registry name version = find (has_key name version) registry

pub data Registered : Type 0 where
  registered : List ToolDefinition → Registered
  refused : DeclarationError → Registered
  declared_twice : Registered

-- The declaration enters under its key, where there is none yet.
enter : Bool → ToolDefinition → List ToolDefinition → Option ToolDefinition → Registered
enter is_same d registry none = registered (registry ++ d ∷ [])
enter is_same d registry (some existing) = if is_same then registered registry else declared_twice

checked_entry : Bool → ToolDefinition → List ToolDefinition → Option DeclarationError → Registered
unfolding enter get_definition
checked_entry is_same d registry (some e) = refused e
checked_entry is_same d registry none =
    enter is_same d registry (get_definition registry d.tool_name d.tool_version)

-- `register`; `is_same` says whether the declaration that has the key is this very object.
pub register : Environment → Bool → ToolDefinition → List ToolDefinition → Registered
unfolding checked_entry
register env is_same d registry = checked_entry is_same d registry (validate_declaration env d)

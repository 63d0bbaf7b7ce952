-- ===== src/Contract/Rules.antt =====
-- The import rules of src/acop/tools/contract.py, in their order; a rule returns the error that it raises.
-- The JSON schemas of pydantic models and Unicode's decimal digits (`\d`) are parameters.
pub mod Passed
use cyberwithsteve_acop.Base.{
  ℕ, zero, suc, String, Bool, true, false, not, ◌&&◌, ◌||◌, Option, none, some, List, [], ◌∷◌, map,
  any, all, difference, meets, nonempty, str_eq, ltb, leb, filter, ◌==◌, if◌then◌else◌,
}
use cyberwithsteve_acop.Json.{codes}
use cyberwithsteve_acop.Redaction.{is_sensitive_key, lower}
use cyberwithsteve_acop.Vocabulary.Roles.{Role, role_value}
use cyberwithsteve_acop.Vocabulary.Reasons.{
  TargetKind, IdempotencyKind, ToolErrorCategory, PermissionClass, in_approval_required_classes,
  class_minimum_roles, prohibited_capabilities, retryable_categories, member_category,
}
use cyberwithsteve_acop.Contract.{Model, ToolDefinition}

pub data DeclarationError : Type 0 where
  tool_declaration adapter_binding : DeclarationError

-- What the schema of a model says: every field name, nested ones too, and whether every object in it refuses
-- undeclared keys. `is_decimal` is `\d`, and `resolve_adapter` the table of adapters.
pub record Environment : Type 0 where
  pub schema_field_names : Model → List String
  pub forbids_additional_properties : Model → Bool
  pub is_decimal : ℕ → Bool
  pub is_registered : String → Bool

-- `if bad: raise ToolDeclarationError`, and what comes after it.
infixr 20 ◌otherwise◌
abbrev pub ◌otherwise◌ : Bool → Option DeclarationError → Option DeclarationError
bad otherwise rest = if bad then some tool_declaration else rest

-- One check after the other.
infixr 20 ◌then_check◌
abbrev pub ◌then_check◌ :
    Option DeclarationError → Option DeclarationError → Option DeclarationError
none then_check rest = rest
some e then_check rest = some e

abbrev is_lower : ℕ → Bool
is_lower c = leb 97 c && leb c 122

abbrev is_word : ℕ → Bool
is_word c = is_lower c || (leb 48 c && leb c 57) || c == 95

-- The dots so far, and whether a segment has begun, after one more character.
abbrev name_step : ℕ → Bool → ℕ → Option (ℕ × Bool)
name_step dots false c = if is_lower c then some (dots, true) else none
name_step dots true c =
    if is_word c then some (dots, true) else if c == 46 then some (suc dots, false) else none

abbrev name_complete : ℕ → Bool → Bool
name_complete dots begun = begun && leb 2 dots && leb dots 4

abbrev is_last_newline : ℕ → List ℕ → Bool
is_last_newline c [] = c == 10
is_last_newline c (d ∷ s) = false

-- `$` also matches before a newline that ends the text.
name_matches : ℕ → Bool → List ℕ → Bool
name_matches dots begun [] = name_complete dots begun
name_matches dots begun (c ∷ s) = elim (name_step dots begun c) [
  | none ↦ is_last_newline c s && name_complete dots begun
  | some (more, inside) ↦ name_matches more inside s
]

module _ (env : Environment) where
  -- Whether the dot has been read, and whether a digit stands before the place.
  version_step : Bool → Bool → ℕ → Option (Bool × Bool)
  version_step dotted digit c =
      if env.is_decimal c
      then some (dotted, true)
      else if c == 46 && not dotted && digit
      then some (true, false)
      else none

  version_matches : Bool → Bool → List ℕ → Bool
  unfolding version_step
  version_matches dotted digit [] = dotted && digit
  version_matches dotted digit (c ∷ s) = elim (version_step dotted digit c) [
    | none ↦ is_last_newline c s && dotted && digit
    | some (dot, begun) ↦ version_matches dot begun s
  ]

  -- `_check_identity`
  check_identity : ToolDefinition → Option DeclarationError
  unfolding name_matches version_matches
  check_identity d =
      not (name_matches 0 false (codes d.tool_name))
      otherwise not (version_matches false false (codes d.tool_version))
      otherwise none

  abbrev is_class_zero : PermissionClass → Bool
  is_class_zero PermissionClass.class_0_information = true
  is_class_zero _ = false

  abbrev is_no_target : TargetKind → Bool
  is_no_target TargetKind.none = true
  is_no_target _ = false

  abbrev is_asset : TargetKind → Bool
  is_asset TargetKind.asset = true
  is_asset _ = false

  abbrev differ : Bool → Bool → Bool
  differ true b = not b
  differ false b = b

  -- `_check_class_agreement`
  pub check_class_agreement : ToolDefinition → Option DeclarationError
  check_class_agreement d =
      let requires_approval = in_approval_required_classes d.permission_class in
      (requires_approval && not d.approval_policy.approval_required)
      otherwise (requires_approval && not d.validation_required)
      otherwise nonempty
          (difference (map role_value (class_minimum_roles d.permission_class)) d.required_roles)
      otherwise differ (is_class_zero d.permission_class) (is_no_target d.target_type)
      otherwise (is_asset d.target_type && not (nonempty d.target_asset_types))
      otherwise none

  abbrev approval_authority : List String
  approval_authority = role_value Role.approver ∷ role_value Role.admin ∷ []

  -- `_check_approval_policy`
  pub check_approval_policy : ToolDefinition → Option DeclarationError
  check_approval_policy d =
      let policy = d.approval_policy in
      if not policy.approval_required
      then none
      else not (nonempty policy.approver_roles)
        otherwise nonempty (difference policy.approver_roles approval_authority)
        otherwise ltb policy.min_approvals 1
        otherwise (ltb 1 policy.min_approvals && not policy.distinct_approvers_required)
        otherwise leb policy.ttl_seconds 0
        otherwise none

  -- `_check_prohibition`
  pub check_prohibition : ToolDefinition → Option DeclarationError
  check_prohibition d =
      if not (meets d.capability_tags prohibited_capabilities)
      then none
      else if d.allow_registration_for_testing
      then none
      else some tool_declaration

  abbrev is_non_idempotent : IdempotencyKind → Bool
  is_non_idempotent IdempotencyKind.non_idempotent = true
  is_non_idempotent _ = false

  -- `_check_idempotency`
  pub check_idempotency : ToolDefinition → Option DeclarationError
  check_idempotency d =
      let retry = d.retry_policy in
      (is_non_idempotent d.idempotency && not (retry.max_attempts == 1))
      otherwise ltb retry.max_attempts 1
      otherwise any (λ c. not (member_category c retryable_categories)) retry.retry_on
      otherwise (ltb 1 retry.max_attempts && not d.adapter_idempotent)
      otherwise none

  abbrev network_locator_fields : List String
  network_locator_fields =
      "host" ∷ "hostname" ∷ "ip" ∷ "ip_address" ∷ "address" ∷ "url" ∷ "uri" ∷ "endpoint" ∷ "dsn"
      ∷ "connection_string" ∷ "server" ∷ "target_host" ∷ []

  abbrev command_fields : List String
  command_fields =
      "command" ∷ "cmd" ∷ "commands" ∷ "script" ∷ "shell" ∷ "exec" ∷ "execute" ∷ "query" ∷ "sql"
      ∷ "statement" ∷ "payload" ∷ "raw" ∷ "body" ∷ "powershell" ∷ []

  same_codes : List ℕ → List ℕ → Bool
  same_codes [] [] = true
  same_codes (a ∷ s) (b ∷ t) = a == b && same_codes s t
  same_codes _ _ = false

  -- name.lower() in names
  lowered_in : String → List String → Bool
  unfolding same_codes
  lowered_in name = any (λ n. same_codes (lower (codes name)) (codes n))

  check_fields : List String → Option DeclarationError
  unfolding lowered_in
  check_fields [] = none
  check_fields (name ∷ names) =
      let rest = check_fields names in
      is_sensitive_key name
      otherwise lowered_in name network_locator_fields
      otherwise lowered_in name command_fields
      otherwise rest

  -- `_check_input_schema`
  check_input_schema : ToolDefinition → Option DeclarationError
  unfolding check_fields
  check_input_schema d =
      check_fields (env.schema_field_names d.input_model)
      then_check (not (env.forbids_additional_properties d.input_model)
          otherwise not (env.forbids_additional_properties d.output_model)
          otherwise none)

  -- `_check_adapter_binding`
  check_adapter_binding : ToolDefinition → Option DeclarationError
  check_adapter_binding d = if env.is_registered d.adapter_id then none else some adapter_binding

  -- `validate_declaration`
  unfoldable pub validate_declaration : ToolDefinition → Option DeclarationError
  unfolding check_identity check_class_agreement check_approval_policy check_prohibition
      check_idempotency check_input_schema check_adapter_binding
  validate_declaration d =
      check_identity d
      then_check check_class_agreement d
      then_check check_approval_policy d
      then_check check_prohibition d
      then_check check_idempotency d
      then_check check_input_schema d
      then_check check_adapter_binding d

-- ===== src/Contract.antt =====
-- Tool declarations: src/acop/tools/contract.py.
-- Sets are lists that are read through membership; `sorted` texts stand in the order of the list.
-- Durations are whole microseconds. Counts and times to live are natural numbers: the import rules
-- refuse a value below one, as they refuse zero.
pub mod Rules
use cyberwithsteve_acop.Base.{ℕ, String, Bool, List, [], ◌∷◌, nonempty, if◌then◌else◌}
use cyberwithsteve_acop.Json.{Fields}
use cyberwithsteve_acop.Vocabulary.Reasons.{
  ToolLifecycle, TargetKind, IdempotencyKind, ToolErrorCategory, PermissionClass,
}

pub record RetryPolicy : Type 0 where
  pub max_attempts : ℕ
  pub backoff_seconds : ℕ
  pub retry_on : List ToolErrorCategory

pub record ApprovalPolicy : Type 0 where
  pub approval_required : Bool
  pub min_approvals : ℕ
  pub approver_roles : List String
  pub distinct_approvers_required : Bool
  pub ttl_seconds : ℕ
  pub allowed_environments : List String
  pub self_approval_permitted : Bool

-- `ApprovalPolicy()`
abbrev pub default_approval_policy : ApprovalPolicy
default_approval_policy = record {
  approval_required = Bool.false;
  min_approvals = 1;
  approver_roles = "approver" ∷ "admin" ∷ [];
  distinct_approvers_required = Bool.false;
  ttl_seconds = 3600;
  allowed_environments = [];
  self_approval_permitted = Bool.false;
}

-- What `model_validate` and `model_dump(mode="json")` of a pydantic model do with an input: the
-- validated input in JSON form, a `ValidationError`, or another exception.
pub data Validation : Type 0 where
  valid : Fields → Validation
  invalid : Validation
  crashed : Validation

-- A pydantic model, as far as the framework reads it.
pub record Model : Type 0 where
  pub model_fields : List String
  pub model_validate : Fields → Validation

pub record ToolDefinition : Type 0 where
  pub tool_name : String
  pub tool_version : String
  pub permission_class : PermissionClass
  pub input_model : Model
  pub output_model : Model
  pub adapter_id : String
  pub required_roles : List String
  pub target_type : TargetKind
  pub target_asset_types : List String
  pub capability_tags : List String
  pub prohibited : Bool
  pub approval_policy : ApprovalPolicy
  pub validation_required : Bool
  pub validation_delay_seconds : ℕ
  pub timeout_seconds : ℕ
  pub idempotency : IdempotencyKind
  pub adapter_idempotent : Bool
  pub retry_policy : RetryPolicy
  pub output_allow_list : List String
  pub lifecycle_default : ToolLifecycle
  pub allow_registration_for_testing : Bool
  -- What `contract_hash()` returns: SHA-256 over the declaration and pydantic's JSON schemas.
  pub contract_hash : String

-- The execution policy as applied, for an invocation's snapshot.
pub record ExecutionParameters : Type 0 where
  pub timeout_seconds : ℕ
  pub idempotency : IdempotencyKind
  pub adapter_idempotent : Bool
  pub max_attempts : ℕ
  pub backoff_seconds : ℕ
  pub retry_on : List ToolErrorCategory
  pub validation_required : Bool
  pub validation_delay_seconds : ℕ

unfoldable pub execution_parameters : ToolDefinition → ExecutionParameters
execution_parameters d = record {
  timeout_seconds = d.timeout_seconds;
  idempotency = d.idempotency;
  adapter_idempotent = d.adapter_idempotent;
  max_attempts = d.retry_policy.max_attempts;
  backoff_seconds = d.retry_policy.backoff_seconds;
  retry_on = d.retry_policy.retry_on;
  validation_required = d.validation_required;
  validation_delay_seconds = d.validation_delay_seconds;
}

-- The fields that the sanitizer keeps.
unfoldable pub effective_output_fields : ToolDefinition → List String
effective_output_fields d =
    if nonempty d.output_allow_list then d.output_allow_list else d.output_model.model_fields

-- ===== src/Envelope.antt =====
-- The execution envelope and its digest: src/acop/tools/envelope.py, with the snapshots of
-- src/acop/tools/contract.py that go into it. `sha256` stands for `hashlib.sha256(…).hexdigest()`.
use Prim.Native.Nat.{◌/◌, ◌%◌}
use cyberwithsteve_acop.Base.{
  ℕ, zero, suc, ◌+◌, String, Option, none, some, List, [], ◌∷◌, ◌++◌, map, ◌==◌, if◌then◌else◌,
}
use cyberwithsteve_acop.Json.{
  Value, Fields, null, bool, number, str, arr, obj, end, field, canonical_json, decimal, int, strs,
}
use cyberwithsteve_acop.Vocabulary.Reasons.{
  TargetKind, IdempotencyKind, ToolErrorCategory, PermissionClass,
}
use cyberwithsteve_acop.Contract.{
  ApprovalPolicy, ToolDefinition, ExecutionParameters, execution_parameters,
}

abbrev kind_value : TargetKind → String
kind_value TargetKind.none = "NONE"
kind_value TargetKind.asset = "ASSET"
kind_value TargetKind.external_ref = "EXTERNAL_REF"

abbrev class_value : PermissionClass → String
class_value PermissionClass.class_0_information = "CLASS_0_INFORMATION"
class_value PermissionClass.class_1_read_only = "CLASS_1_READ_ONLY"
class_value PermissionClass.class_2_low_risk_change = "CLASS_2_LOW_RISK_CHANGE"
class_value PermissionClass.class_3_high_risk_change = "CLASS_3_HIGH_RISK_CHANGE"
class_value PermissionClass.prohibited = "PROHIBITED"

idempotency_value : IdempotencyKind → String
idempotency_value IdempotencyKind.naturally_idempotent = "NATURALLY_IDEMPOTENT"
idempotency_value IdempotencyKind.keyed = "KEYED"
idempotency_value IdempotencyKind.non_idempotent = "NON_IDEMPOTENT"

-- ToolErrorCategory.value
abbrev category_value : ToolErrorCategory → String
category_value ToolErrorCategory.authentication = "AUTHENTICATION"
category_value ToolErrorCategory.authorization = "AUTHORIZATION"
category_value ToolErrorCategory.policy_denied = "POLICY_DENIED"
category_value ToolErrorCategory.capability_not_bound = "CAPABILITY_NOT_BOUND"
category_value ToolErrorCategory.approval_required = "APPROVAL_REQUIRED"
category_value ToolErrorCategory.approval_denied = "APPROVAL_DENIED"
category_value ToolErrorCategory.approval_expired = "APPROVAL_EXPIRED"
category_value ToolErrorCategory.approval_invalid_envelope = "APPROVAL_INVALID_ENVELOPE"
category_value ToolErrorCategory.self_approval_forbidden = "SELF_APPROVAL_FORBIDDEN"
category_value ToolErrorCategory.invalid_target = "INVALID_TARGET"
category_value ToolErrorCategory.validation_error = "VALIDATION_ERROR"
category_value ToolErrorCategory.idempotency_conflict = "IDEMPOTENCY_CONFLICT"
category_value ToolErrorCategory.timeout = "TIMEOUT"
category_value ToolErrorCategory.adapter_unavailable = "ADAPTER_UNAVAILABLE"
category_value ToolErrorCategory.target_unavailable = "TARGET_UNAVAILABLE"
category_value ToolErrorCategory.execution_failed = "EXECUTION_FAILED"
category_value ToolErrorCategory.execution_indeterminate = "EXECUTION_INDETERMINATE"
category_value ToolErrorCategory.validation_failed = "VALIDATION_FAILED"
category_value ToolErrorCategory.output_contract_violation = "OUTPUT_CONTRACT_VIOLATION"
category_value ToolErrorCategory.cancelled = "CANCELLED"
category_value ToolErrorCategory.internal_error = "INTERNAL_ERROR"

-- A duration in microseconds as the float of seconds that Python prints: 30.0, 0.5. (Below 0.0001
-- Python turns to an exponent, which no declaration of the catalog comes near.)
fraction : ℕ → ℕ → List ℕ
fraction zero n = (n % 10 + 48) ∷ []
fraction (suc places) n =
    let shorter = fraction places (n / 10) in
    let whole = fraction places (n / 10) ++ (n % 10 + 48) ∷ [] in
    if n % 10 == 0 then shorter else whole

float_text : ℕ → List ℕ
float_text n = decimal (n / 1000000) ++ (46 ∷ fraction 5 (n % 1000000))

float : ℕ → Value
float n = number (float_text n)

-- `ApprovalPolicy.as_snapshot`; the lists of roles and environments stand sorted.
as_snapshot : ApprovalPolicy → Fields
as_snapshot p = field "approval_required" (bool p.approval_required) (
    field "min_approvals" (int p.min_approvals) (
      field "approver_roles" (arr (strs p.approver_roles)) (
        field "distinct_approvers_required" (bool p.distinct_approvers_required) (
          field "ttl_seconds" (int p.ttl_seconds) (
            field "allowed_environments" (arr (strs p.allowed_environments))
              (field "self_approval_permitted" (bool p.self_approval_permitted) end))))))

-- `ToolDefinition.execution_parameters`
parameters_fields : ExecutionParameters → Fields
unfolding float idempotency_value float_text fraction
parameters_fields x = field "timeout_seconds" (float x.timeout_seconds) (
    field "idempotency" (str (idempotency_value x.idempotency)) (
      field "adapter_idempotent" (bool x.adapter_idempotent) (
        field "max_attempts" (int x.max_attempts) (
          field "backoff_seconds" (float x.backoff_seconds) (
            field "retry_on" (arr (strs (map category_value x.retry_on))) (
              field "validation_required" (bool x.validation_required)
                (field "validation_delay_seconds" (float x.validation_delay_seconds) end)))))))

optional : {A : Type 0} → (A → Value) → Option A → Value
optional f none = null
optional f (some a) = f a

-- A UUID is written as the decimal of its number. `target_ref if target_ref else None` is `none`
-- where the reference is missing or empty.
pub build_target_block : TargetKind → Option ℕ → Option Fields → Fields
unfolding optional
build_target_block kind asset_id target_ref = field "kind" (str (kind_value kind)) (
    field "asset_id" (optional (λ n. int n) asset_id)
      (field "target_ref" (optional obj target_ref) end))

pub build_envelope : ToolDefinition → Fields → Fields → Fields
unfolding as_snapshot parameters_fields execution_parameters
build_envelope d canonical_input target =
    field "tool"
      (obj (
        field "name" (str d.tool_name)
          (field "version" (str d.tool_version) (field "contract_hash" (str d.contract_hash) end))))
      (field "permission_class" (str (class_value d.permission_class)) (
        field "target" (obj target) (
          field "input" (obj canonical_input) (
            field "execution" (obj (parameters_fields (execution_parameters d)))
              (field "approval" (obj (as_snapshot d.approval_policy)) end)))))

module _ (sha256 : List ℕ → String) where
  pub digest_of : Value → String
  digest_of v = sha256 (canonical_json v)

  pub envelope_digest : Fields → String
  unfolding digest_of
  envelope_digest envelope = digest_of (obj envelope)

  unfoldable pub input_digest : Fields → String
  unfolding digest_of
  input_digest canonical_input = digest_of (obj canonical_input)

-- ===== src/Vocabulary/Reasons.antt =====
-- The smaller enumerations of src/acop/models/tool_vocabulary.py and
-- src/acop/models/provenance.py, and the code registries over them.
use cyberwithsteve_acop.Base.{ℕ, String, Bool, true, false, List, [], ◌∷◌, ◌==◌, any}
use cyberwithsteve_acop.Vocabulary.Roles.{Role, admin, operator, viewer}

pub data ToolLifecycle : Type 0 where
  active disabled retired : ToolLifecycle

pub data TargetKind : Type 0 where
  none asset external_ref : TargetKind

pub data GateDecision : Type 0 where
  allow deny : GateDecision

pub data ApprovalDecision : Type 0 where
  approved denied : ApprovalDecision

pub data ReconciliationDisposition : Type 0 where
  confirmed_succeeded confirmed_failed unknown : ReconciliationDisposition

pub data ValidationOutcome : Type 0 where
  confirmed not_confirmed indeterminate : ValidationOutcome

pub data AdapterOutcome : Type 0 where
  success failure timeout unavailable : AdapterOutcome

pub data IdempotencyKind : Type 0 where
  naturally_idempotent keyed non_idempotent : IdempotencyKind

pub data ToolErrorCategory : Type 0 where
  authentication authorization policy_denied capability_not_bound approval_required approval_denied
        approval_expired approval_invalid_envelope self_approval_forbidden invalid_target
        validation_error idempotency_conflict timeout adapter_unavailable target_unavailable
        execution_failed execution_indeterminate validation_failed output_contract_violation
        cancelled internal_error :
      ToolErrorCategory

-- The members in the order of the class body.
abbrev category_ordinal : ToolErrorCategory → ℕ
category_ordinal authentication = 0
category_ordinal authorization = 1
category_ordinal policy_denied = 2
category_ordinal capability_not_bound = 3
category_ordinal approval_required = 4
category_ordinal approval_denied = 5
category_ordinal approval_expired = 6
category_ordinal approval_invalid_envelope = 7
category_ordinal self_approval_forbidden = 8
category_ordinal invalid_target = 9
category_ordinal validation_error = 10
category_ordinal idempotency_conflict = 11
category_ordinal timeout = 12
category_ordinal adapter_unavailable = 13
category_ordinal target_unavailable = 14
category_ordinal execution_failed = 15
category_ordinal execution_indeterminate = 16
category_ordinal validation_failed = 17
category_ordinal output_contract_violation = 18
category_ordinal cancelled = 19
category_ordinal internal_error = 20

abbrev pub member_category : ToolErrorCategory → List ToolErrorCategory → Bool
member_category c = any (λ d. category_ordinal c == category_ordinal d)

abbrev pub retryable_categories : List ToolErrorCategory
retryable_categories = adapter_unavailable ∷ target_unavailable ∷ []

pub data PolicyReason : Type 0 where
  allowed capability_not_bound tool_disabled tool_retired prohibited_capability schema_invalid
        target_invalid target_out_of_scope target_retired role_insufficient environment_restricted
        approval_missing approval_expired approval_envelope_mismatch envelope_integrity_failed
        internal_error :
      PolicyReason

abbrev pub policy_value : PolicyReason → String
policy_value PolicyReason.allowed = "allowed"
policy_value PolicyReason.capability_not_bound = "capability_not_bound"
policy_value PolicyReason.tool_disabled = "tool_disabled"
policy_value PolicyReason.tool_retired = "tool_retired"
policy_value PolicyReason.prohibited_capability = "prohibited_capability"
policy_value PolicyReason.schema_invalid = "schema_invalid"
policy_value PolicyReason.target_invalid = "target_invalid"
policy_value PolicyReason.target_out_of_scope = "target_out_of_scope"
policy_value PolicyReason.target_retired = "target_retired"
policy_value PolicyReason.role_insufficient = "role_insufficient"
policy_value PolicyReason.environment_restricted = "environment_restricted"
policy_value PolicyReason.approval_missing = "approval_missing"
policy_value PolicyReason.approval_expired = "approval_expired"
policy_value PolicyReason.approval_envelope_mismatch = "approval_envelope_mismatch"
policy_value PolicyReason.envelope_integrity_failed = "envelope_integrity_failed"
policy_value PolicyReason.internal_error = "internal_error"

-- What an event's or a transition's `reason` column holds: the value of a `PolicyReason`, the
-- value of a `ToolErrorCategory`, or another text.
pub data Reason : Type 0 where
  policy : PolicyReason → Reason
  category : ToolErrorCategory → Reason
  text : String → Reason

pub data PermissionClass : Type 0 where
  class_0_information class_1_read_only class_2_low_risk_change class_3_high_risk_change
        prohibited :
      PermissionClass

-- `cls in APPROVAL_REQUIRED_CLASSES`
abbrev pub in_approval_required_classes : PermissionClass → Bool
in_approval_required_classes class_2_low_risk_change = true
in_approval_required_classes class_3_high_risk_change = true
in_approval_required_classes _ = false

abbrev pub class_minimum_roles : PermissionClass → List Role
class_minimum_roles class_0_information = viewer ∷ []
class_minimum_roles class_1_read_only = viewer ∷ []
class_minimum_roles class_2_low_risk_change = operator ∷ []
class_minimum_roles class_3_high_risk_change = operator ∷ []
class_minimum_roles prohibited = admin ∷ []

abbrev pub prohibited_capabilities : List String
prohibited_capabilities =
    "arbitrary.shell" ∷ "arbitrary.ssh" ∷ "arbitrary.cli" ∷ "arbitrary.powershell" ∷ "arbitrary.sql"
    ∷ "arbitrary.winrm" ∷ "storage.format" ∷ "vm.delete" ∷ "container.delete" ∷ "audit.disable"
    ∷ "logging.disable" ∷ "monitoring.disable" ∷ "authn.bypass" ∷ "authz.bypass"
    ∷ "firewall.unrestricted" ∷ "routing.unrestricted" ∷ "secrets.read" ∷ "secrets.export"
    ∷ "model.generated.command" ∷ []

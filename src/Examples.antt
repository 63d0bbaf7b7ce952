-- ===== src/Examples.antt =====
-- A tool, its people and its rows, for the runs in the modules below.
pub mod Policies
pub mod Transitions
pub mod Histories
pub mod Approvals
pub mod Dispatches
pub mod Sweeping
pub mod States
pub mod Invocations
pub mod Chunks
pub mod Systems
pub mod Registrations
pub mod Declarations
use cyberwithsteve_acop.Base.{ℕ, String, Bool, true, false, Option, none, some, List, [], ◌∷◌}
use cyberwithsteve_acop.Json.{Fields, end, field, str}
use cyberwithsteve_acop.Vocabulary.States.{
  InvocationState, requested, authorized, awaiting_approval, ready, executing,
}
use cyberwithsteve_acop.Vocabulary.Roles.{
  Principal, PrincipalType, AuthMethod, AuditFields, to_audit_fields,
}
use cyberwithsteve_acop.Vocabulary.Reasons.{
  ToolLifecycle, active, TargetKind, IdempotencyKind, ToolErrorCategory, PermissionClass,
  class_2_low_risk_change, GateDecision, PolicyReason, Reason, policy, ApprovalDecision,
}
use cyberwithsteve_acop.Contract.{
  Model, Validation, valid, invalid, ToolDefinition, ApprovalPolicy, execution_parameters,
}
use cyberwithsteve_acop.Policy.{TargetFacts, PolicyContext}
use cyberwithsteve_acop.Store.{
  ToolRegistration, ToolInvocation, InvocationColumns, ToolInvocationEvent, ToolApproval, Tables,
}

abbrev pub operator : Principal
operator = record {
  subject = "alice";
  principal_type = PrincipalType.human;
  issuer = "local";
  auth_method = AuthMethod.api_key;
  roles = "operator" ∷ [];
}

abbrev pub approver : Principal
approver = record {
  subject = "bob";
  principal_type = PrincipalType.human;
  issuer = "local";
  auth_method = AuthMethod.api_key;
  roles = "approver" ∷ [];
}

abbrev accepting : Fields → Validation
accepting end = invalid
accepting (field k v rest) = valid (field k v rest)

abbrev restart_policy : ApprovalPolicy
restart_policy = record {
  approval_required = true;
  min_approvals = 1;
  approver_roles = "approver" ∷ "admin" ∷ [];
  distinct_approvers_required = true;
  ttl_seconds = 3600;
  allowed_environments = "lab" ∷ [];
  self_approval_permitted = false;
}

abbrev pub restart : ToolDefinition
restart = record {
  tool_name = "service.restart";
  tool_version = "1.0.0";
  permission_class = class_2_low_risk_change;
  input_model = record { model_fields = "service" ∷ []; model_validate = accepting };
  output_model = record { model_fields = "status" ∷ []; model_validate = accepting };
  adapter_id = "simulated";
  required_roles = "operator" ∷ [];
  target_type = TargetKind.none;
  target_asset_types = [];
  capability_tags = "service.restart" ∷ [];
  prohibited = false;
  approval_policy = restart_policy;
  validation_required = false;
  validation_delay_seconds = 0;
  timeout_seconds = 30000000;
  idempotency = IdempotencyKind.keyed;
  adapter_idempotent = true;
  retry_policy = record {
    max_attempts = 3;
    backoff_seconds = 0;
    retry_on = ToolErrorCategory.adapter_unavailable ∷ [];
  };
  output_allow_list = "status" ∷ [];
  lifecycle_default = active;
  allow_registration_for_testing = false;
  contract_hash = "c1";
}

abbrev restart_input : Fields
restart_input = field "service" (str "dns") end

abbrev pub restart_request : PolicyContext
restart_request = record {
  principal = operator;
  definition = some restart;
  lifecycle_state = active;
  raw_input = restart_input;
  target = record {
    kind = TargetKind.none;
    is_there = false;
    asset_id = none;
    asset_type = "";
    lifecycle_state = "";
    external_ref = none;
  };
  environment = "lab";
  request_time = 100;
}

-- A digest that is the same for every text.
abbrev pub flat_digest : List ℕ → String
flat_digest text = "e1"

abbrev new_columns : InvocationColumns
new_columns = record {
  final_gate_decision = none;
  final_gate_reason = none;
  final_gate_at = none;
  final_gate_event_id = none;
  state = requested;
  approvals_received = 0;
  executor_lease_id = none;
  lease_expires_at = none;
  attempt_count = 0;
  deadline_at = none;
  result_summary = none;
  result_digest = none;
  validation_outcome = none;
  validation_detail = none;
  rollback_hint = none;
  error_category = none;
  error_detail_sanitized = none;
  approved_at = none;
  started_at = none;
  finished_at = none;
  validated_at = none;
}

abbrev pub restart_row : InvocationColumns → ToolInvocation
unfolding to_audit_fields execution_parameters
restart_row columns = record {
  row = record {
    id = 1;
    request_id = none;
    idempotency_key = none;
    tool_name = "service.restart";
    tool_version = "1.0.0";
    tool_registration_id = 7;
    permission_class = class_2_low_risk_change;
    approval_required = true;
    min_approvals = 1;
    distinct_approvers_required = true;
    approval_ttl_seconds = 3600;
    validation_required = false;
    effective_approval_policy = restart_policy;
    execution_parameters = some (execution_parameters restart);
    registry_contract_hash = "c1";
    envelope_digest = "e1";
    input_digest = "e1";
    input_canonical = restart_input;
    principal = to_audit_fields operator;
    target_kind = TargetKind.none;
    target_asset_id = none;
    target_ref = none;
    authorization_decision = GateDecision.allow;
    authorization_reason = PolicyReason.allowed;
    authorized_at = 100;
    requested_at = 100;
  };
  columns = columns;
}

abbrev pub in_state : InvocationState → ToolInvocation
in_state s = restart_row (record new_columns { state = s })

abbrev pub leased : ToolInvocation
leased = restart_row (record new_columns {
  state = executing;
  executor_lease_id = some 50;
  lease_expires_at = some 900;
  attempt_count = 1;
})

abbrev moved : ℕ → Option InvocationState → InvocationState → ToolInvocationEvent
moved n from to = record {
  id = n;
  invocation_id = 1;
  sequence = n;
  from_state = from;
  to_state = to;
  actor_subject = none;
  reason = policy PolicyReason.allowed;
  detail = end;
}

abbrev waiting_events : List ToolInvocationEvent
waiting_events =
    moved 1 none requested
    ∷ moved 2 (some requested) authorized
    ∷ moved 3 (some authorized) awaiting_approval
    ∷ []

abbrev pub ready_events : List ToolInvocationEvent
ready_events =
    moved 1 none requested
    ∷ moved 2 (some requested) authorized
    ∷ moved 3 (some authorized) awaiting_approval
    ∷ moved 4 (some awaiting_approval) InvocationState.approved
    ∷ moved 5 (some InvocationState.approved) ready
    ∷ []

abbrev executing_events : List ToolInvocationEvent
executing_events =
    moved 1 none requested
    ∷ moved 2 (some requested) authorized
    ∷ moved 3 (some authorized) awaiting_approval
    ∷ moved 4 (some awaiting_approval) InvocationState.approved
    ∷ moved 5 (some InvocationState.approved) ready
    ∷ moved 6 (some ready) executing
    ∷ []

abbrev pub bobs_approval : ToolApproval
unfolding to_audit_fields
bobs_approval = record {
  invocation_id = 1;
  decision = ApprovalDecision.approved;
  approved_envelope_digest = "e1";
  requester_subject = "alice";
  approver = to_audit_fields approver;
  self_approval = false;
  justification = "planned";
  decided_at = 200;
  expires_at = 5000000000;
}

abbrev pub tables_of : ToolInvocation → List ToolInvocationEvent → List ToolApproval → Tables
tables_of i events approvals = record {
  registrations =
      record {
        id = 7;
        tool_name = "service.restart";
        tool_version = "1.0.0";
        contract_hash = "c1";
        lifecycle_state = active;
        disabled_at = none;
        disabled_by_subject = none;
        disabled_reason = none;
        retired_at = none;
        retired_reason = none;
      }
      ∷ [];
  invocations = i ∷ [];
  events = events;
  approvals = approvals;
  reconciliations = [];
  audit_events = [];
  denials = [];
  adapter_calls = [];
  next_id = 10;
}

abbrev pub waiting_tables : Tables
waiting_tables = tables_of (in_state awaiting_approval) waiting_events []

abbrev pub ready_tables : Tables
ready_tables = tables_of (in_state ready) ready_events (bobs_approval ∷ [])

abbrev pub leased_tables : Tables
leased_tables = tables_of leased executing_events (bobs_approval ∷ [])

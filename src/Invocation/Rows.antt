-- ===== src/Invocation/Rows.antt =====
-- The rows that src/acop/services/tools/invocation.py inserts, and what the table of
-- src/acop/models/tool.py accepts. A row that breaks a constraint raises `IntegrityError`.
use cyberwithsteve_acop.Base.{
  arith, ◌≡◌, ℕ, suc, String, Bool, true, false, not, ◌&&◌, ◌||◌, Option, none, some, List, [], ◌∷◌,
  ◌++◌, ◌==◌, leb, ltb, any, is_some, if◌then◌else◌,
}
use cyberwithsteve_acop.Json.{end}
use cyberwithsteve_acop.Vocabulary.States.{requested}
use cyberwithsteve_acop.Vocabulary.Roles.{Principal, to_audit_fields}
use cyberwithsteve_acop.Vocabulary.Reasons.{TargetKind, GateDecision, in_approval_required_classes}
use cyberwithsteve_acop.Policy.{PolicyDecision, TargetFacts}
use cyberwithsteve_acop.Envelope.{input_digest}
use cyberwithsteve_acop.Store.{
  ToolRegistration, ToolInvocation, InvocationColumns, InvocationRequestRow, unexpected, Exec, pure,
  raise,
}
use cyberwithsteve_acop.Invocation.{
  InvocationRequest, Asset, requested_kind, given_ref, get_asset, holds_key,
}

-- The columns as the INSERT leaves them, server defaults included.
abbrev pub initial_columns : InvocationColumns
initial_columns = record {
  final_gate_decision = none;
  final_gate_reason = none;
  final_gate_at = none;
  final_gate_event_id = none;
  state = requested;
  approvals_received = 0;
  executor_lease_id = none;
  lease_expires_at = none;
  attempt_count = 0;
  deadline_at = none;
  result_summary = none;
  result_digest = none;
  validation_outcome = none;
  validation_detail = none;
  rollback_hint = none;
  error_category = none;
  error_detail_sanitized = none;
  approved_at = none;
  started_at = none;
  finished_at = none;
  validated_at = none;
}

abbrev zero_digest : String
zero_digest = "0000000000000000000000000000000000000000000000000000000000000000"

-- The snapshot that both rows share.
snapshot_row :
    ℕ
    → InvocationRequest
    → Principal
    → ToolRegistration
    → PolicyDecision
    → GateDecision
    → InvocationRequestRow
unfolding to_audit_fields requested_kind
snapshot_row id r p registration decision authorization = record {
  id = id;
  request_id = r.request_id;
  idempotency_key = none;
  tool_name = r.tool_name;
  tool_version = r.tool_version;
  tool_registration_id = registration.id;
  permission_class = decision.permission_class;
  approval_required = decision.approval_policy.approval_required;
  min_approvals = decision.approval_policy.min_approvals;
  distinct_approvers_required = decision.approval_policy.distinct_approvers_required;
  approval_ttl_seconds = decision.approval_policy.ttl_seconds;
  validation_required = decision.validation_required;
  effective_approval_policy = decision.approval_policy;
  execution_parameters = decision.parameters;
  registry_contract_hash = decision.registry_contract_hash;
  envelope_digest = zero_digest;
  input_digest = zero_digest;
  input_canonical = end;
  principal = to_audit_fields p;
  target_kind = requested_kind r;
  target_asset_id = r.target_asset_id;
  target_ref = given_ref r.target_ref;
  authorization_decision = authorization;
  authorization_reason = decision.reason;
  authorized_at = decision.evaluated_at;
  requested_at = decision.evaluated_at;
}

-- The row of a refusal: no key, no input, no envelope.
unfoldable pub rejected_row :
    ℕ → InvocationRequest → Principal → ToolRegistration → PolicyDecision → ToolInvocation
unfolding snapshot_row
rejected_row id r p registration decision = record {
  row = snapshot_row id r p registration decision GateDecision.deny;
  columns = initial_columns;
}

-- The row of an accepted request.
unfoldable pub persisted_row :
    (List ℕ → String)
    → ℕ
    → InvocationRequest
    → Principal
    → ToolRegistration
    → PolicyDecision
    → TargetFacts
    → String
    → ToolInvocation
unfolding snapshot_row input_digest
persisted_row sha256 id r p registration decision target digest = record {
  row = record (snapshot_row id r p registration decision GateDecision.allow) {
    idempotency_key = r.idempotency_key;
    envelope_digest = digest;
    input_digest = input_digest sha256 decision.canonical_input;
    input_canonical = decision.canonical_input;
    target_kind = target.kind;
    target_asset_id = target.asset_id;
  };
  columns = initial_columns;
}

is_allow : GateDecision → Bool
is_allow GateDecision.allow = true
is_allow GateDecision.deny = false

-- CHECK `target_asset` and `target_ref`.
target_fits : TargetKind → Bool → Bool → Bool
target_fits TargetKind.none has_asset has_ref = not has_asset && not has_ref
target_fits TargetKind.asset has_asset has_ref = has_asset && not has_ref
target_fits TargetKind.external_ref has_asset has_ref = not has_asset && has_ref

-- CHECK `min_approvals`, `distinct_approvers` and `approval_ttl`.
unfoldable pub policy_fits : InvocationRequestRow → Bool
policy_fits i =
    leb 1 i.min_approvals
    && (i.min_approvals == 1 || i.distinct_approvers_required)
    && ltb 0 i.approval_ttl_seconds

-- CHECK `change_requires_idempotency_key`, `change_requires_approval`, `change_requires_validation`.
unfoldable pub class_fits : InvocationRequestRow → Bool
unfolding is_allow
class_fits i =
    not (in_approval_required_classes i.permission_class)
    || ((is_some i.idempotency_key || not (is_allow i.authorization_decision))
        && i.approval_required
        && i.validation_required)

-- The foreign key to the assets.
asset_exists : List Asset → Option ℕ → Bool
unfolding get_asset
asset_exists assets none = true
asset_exists assets (some id) = is_some (get_asset id assets)

-- The partial unique index `uq_tool_invocation_idem`.
key_free : Option String → List ToolInvocation → Bool
key_free none l = true
key_free (some key) l = not (any (holds_key key) l)

unfoldable pub accepts_row : List Asset → ToolInvocation → List ToolInvocation → Bool
unfolding target_fits policy_fits class_fits asset_exists key_free
accepts_row assets i l =
    target_fits i.target_kind (is_some i.target_asset_id) (is_some i.target_ref)
    && policy_fits i.row
    && class_fits i.row
    && asset_exists assets i.target_asset_id
    && key_free i.idempotency_key l

-- `session.add` and `flush`. The id is the next one.
unfoldable pub insert_invocation : List Asset → ToolInvocation → Exec (Unit {0})
unfolding accepts_row
insert_invocation assets i t =
    if accepts_row assets i t.invocations
    then pure tt (record t { invocations = t.invocations ++ i ∷ []; next_id = suc t.next_id })
    else raise unexpected t

-- The foreign key refuses a row that names an asset that does not exist.
pub missing-accepts_row :
    (assets : List Asset) (i : ToolInvocation) (l : List ToolInvocation) (id : ℕ)
    → i.target_asset_id ≡ some id
    → get_asset id assets ≡ none
    → accepts_row assets i l ≡ false
unfolding accepts_row asset_exists
missing-accepts_row assets i l id named missing = rw named (rw missing (ground arith))

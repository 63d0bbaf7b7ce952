-- ===== src/Store.antt =====
-- The rows of src/acop/models/tool.py, the tables as one state, and actions on it.
-- Times and ids are natural numbers (microseconds; a UUID as a number). A row is split in what its
-- insertion fixes (`InvocationRequestRow`) and the columns that later statements set.
-- An action returns a result or an error beside the tables that it leaves; what was written before
-- an error stays written until the transaction around it is rolled back.
pub mod Rows
pub mod Actions
use cyberwithsteve_acop.Base.{
  all, not, ℕ, zero, suc, ◌+◌, String, Bool, true, false, ◌&&◌, Option, none, some, List, [], ◌∷◌,
  ◌++◌, map, ◌==◌, any, filter, find, is_some, if◌then◌else◌,
}
use cyberwithsteve_acop.Json.{codes, Fields}
use cyberwithsteve_acop.Vocabulary.States.{InvocationState, same_state}
use cyberwithsteve_acop.Vocabulary.Roles.{AuditFields}
use cyberwithsteve_acop.Vocabulary.Reasons.{
  ToolLifecycle, TargetKind, GateDecision, ApprovalDecision, ReconciliationDisposition,
  ValidationOutcome, ToolErrorCategory, PolicyReason, Reason, PermissionClass,
}
use cyberwithsteve_acop.Contract.{ApprovalPolicy, ExecutionParameters}

pub record ToolRegistration : Type 0 where
  pub id : ℕ
  pub tool_name : String
  pub tool_version : String
  pub contract_hash : String
  pub lifecycle_state : ToolLifecycle
  pub disabled_at : Option ℕ
  pub disabled_by_subject : Option String
  pub disabled_reason : Option String
  pub retired_at : Option ℕ
  pub retired_reason : Option String

-- The columns of `ToolInvocation` that only the INSERT writes.
pub record InvocationRequestRow : Type 0 where
  pub id : ℕ
  pub request_id : Option String
  pub idempotency_key : Option String
  pub tool_name : String
  pub tool_version : String
  pub tool_registration_id : ℕ
  pub permission_class : PermissionClass
  pub approval_required : Bool
  pub min_approvals : ℕ
  pub distinct_approvers_required : Bool
  pub approval_ttl_seconds : ℕ
  pub validation_required : Bool
  pub effective_approval_policy : ApprovalPolicy
  pub execution_parameters : Option ExecutionParameters
  pub registry_contract_hash : String
  pub envelope_digest : String
  pub input_digest : String
  pub input_canonical : Fields
  pub principal : AuditFields
  pub target_kind : TargetKind
  pub target_asset_id : Option ℕ
  pub target_ref : Option Fields
  pub authorization_decision : GateDecision
  pub authorization_reason : PolicyReason
  pub authorized_at : ℕ
  pub requested_at : ℕ

-- The columns that the services' UPDATE statements set.
pub record InvocationColumns : Type 0 where
  pub final_gate_decision : Option GateDecision
  pub final_gate_reason : Option PolicyReason
  pub final_gate_at : Option ℕ
  pub final_gate_event_id : Option ℕ
  pub state : InvocationState
  pub approvals_received : ℕ
  pub executor_lease_id : Option ℕ
  pub lease_expires_at : Option ℕ
  pub attempt_count : ℕ
  pub deadline_at : Option ℕ
  pub result_summary : Option Fields
  pub result_digest : Option String
  pub validation_outcome : Option ValidationOutcome
  pub validation_detail : Option Fields
  pub rollback_hint : Option Fields
  pub error_category : Option ToolErrorCategory
  pub error_detail_sanitized : Option String
  pub approved_at : Option ℕ
  pub started_at : Option ℕ
  pub finished_at : Option ℕ
  pub validated_at : Option ℕ

pub record ToolInvocation : Type 0 where
  pub row : InvocationRequestRow
  pub open row use *
  pub columns : InvocationColumns
  pub open columns use *

pub record ToolInvocationEvent : Type 0 where
  pub id : ℕ
  pub invocation_id : ℕ
  pub sequence : ℕ
  pub from_state : Option InvocationState
  pub to_state : InvocationState
  pub actor_subject : Option String
  pub reason : Reason
  pub detail : Fields

pub record ToolApproval : Type 0 where
  pub invocation_id : ℕ
  pub decision : ApprovalDecision
  pub approved_envelope_digest : String
  pub requester_subject : String
  pub approver : AuditFields
  pub self_approval : Bool
  pub justification : String
  pub decided_at : ℕ
  pub expires_at : ℕ

pub record ToolInvocationReconciliation : Type 0 where
  pub id : ℕ
  pub invocation_id : ℕ
  pub disposition : ReconciliationDisposition
  pub justification : String
  pub evidence_ref : Fields
  pub reconciled_by : AuditFields

-- `AuditOutcome` and `AuditSeverity` of src/acop/models/audit.py, as far as these services use them.
pub data AuditOutcome : Type 0 where
  success failure denied pending_approval : AuditOutcome

pub data AuditSeverity : Type 0 where
  info notice warning critical : AuditSeverity

pub record AuditEvent : Type 0 where
  pub action : String
  pub outcome : AuditOutcome
  pub severity : AuditSeverity
  pub resource_id : ℕ
  pub actor : AuditFields

-- One call of an adapter: what was executed, or observed, for which invocation.
pub data AdapterCall : Type 0 where
  execute_call : ℕ → AdapterCall
  validate_call : ℕ → AdapterCall

-- `denials` holds the audit records that are written on a connection of their own, and
-- `adapter_calls` what the adapters were asked to do: a rollback undoes neither.
pub record Tables : Type 0 where
  pub registrations : List ToolRegistration
  pub invocations : List ToolInvocation
  pub events : List ToolInvocationEvent
  pub approvals : List ToolApproval
  pub reconciliations : List ToolInvocationReconciliation
  pub audit_events : List AuditEvent
  pub denials : List AuditEvent
  pub adapter_calls : List AdapterCall
  pub next_id : ℕ

-- The exceptions of src/acop/tools/errors.py that the modelled services raise, `LookupError`,
-- and `unexpected` for any exception of code that is not modelled.
pub data ToolError : Type 0 where
  tool_not_found tool_disabled prohibited_capability tool_authorization tool_policy_denied
        policy_engine_failure invalid_target tool_input idempotency_conflict duplicate_approval
        approval_envelope_mismatch self_approval_forbidden tool_timeout adapter_unavailable
        target_unavailable tool_execution invalid_state_transition stale_transition lookup_error
        unexpected :
      ToolError

pub data Result {ℓ} (A : Type ℓ) : Type ℓ where
  ok : A → Result A
  err : ToolError → Result A

abbrev pub Exec {ℓ} : Type ℓ → Type ℓ
Exec A = Tables → Result A × Tables

abbrev pub pure {ℓ} : {A : Type ℓ} → A → Exec A
pure a t = (ok a, t)

abbrev pub raise {ℓ} : {A : Type ℓ} → ToolError → Exec A
raise e t = (err e, t)

abbrev pub continue {ℓ κ} :
    {A : Type ℓ} {B : Type κ}
    → Result A
    → (A → Tables → Result B × Tables)
    → Tables
    → Result B × Tables
continue (ok a) f t = f a t
continue (err e) f t = (err e, t)

infixl 10 ◌>>=◌ ◌>>◌
abbrev pub ◌>>=◌ : {A B : Type 0} → Exec A → (A → Exec B) → Exec B
◌>>=◌ m f t = let (r, t') = m t in continue r f t'

abbrev pub ◌>>◌ : {A B : Type 0} → Exec A → Exec B → Exec B
m >> n = m >>= λ _. n

-- `async with database.session()`: the tables as they were, if the block raises, but for the
-- denials and the calls, which no rollback reaches.
abbrev pub settle : {A : Type 0} → Tables → Result A × Tables → Result A × Tables
settle before (ok a, after) = (ok a, after)
settle before (err e, after) =
    (err e, record before { denials = after.denials; adapter_calls = after.adapter_calls })

-- CHECK length(trim(justification)) > 0: `trim` takes blanks off.
unfoldable pub says_something : String → Bool
says_something justification = not (all (λ c. c == 32) (codes justification))

unfoldable pub transaction : {A : Type 0} → Exec A → Exec A
transaction m t = settle t (m t)

-- session.get(ToolInvocation, id), and `refresh`.
unfoldable pub get_invocation : ℕ → List ToolInvocation → Option ToolInvocation
get_invocation id = find (λ i. i.id == id)

-- session.refresh(invocation), which raises where the row is gone.
abbrev pub required : Option ToolInvocation → Exec ToolInvocation
required none = raise lookup_error
required (some i) = pure i

unfoldable pub refresh : ℕ → Exec ToolInvocation
refresh id t = required (get_invocation id t.invocations) t

-- A SET clause.
abbrev pub Assignment : Type 0
Assignment = InvocationColumns → InvocationColumns

abbrev pub assign : Assignment → ToolInvocation → ToolInvocation
assign f i = record i { columns = f i.columns }

-- UPDATE … SET f WHERE id = … AND p. Ids are primary keys: the first row with the id is the row.
unfoldable pub update_where :
    ℕ → (ToolInvocation → Bool) → Assignment → List ToolInvocation → List ToolInvocation
update_where id p f [] = []
update_where id p f (i ∷ l) =
    let rest = update_where id p f l in
    if i.id == id then (if p i then assign f i else i) ∷ l else i ∷ rest

-- … RETURNING id: whether a row was written.
abbrev pub passes : (ToolInvocation → Bool) → Option ToolInvocation → Bool
passes p none = false
passes p (some i) = p i

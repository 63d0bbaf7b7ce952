-- ===== src/Reconciliation.antt =====
-- Human determinations about indeterminate executions: src/acop/services/tools/reconciliation.py. Rows are
-- kept in the order of their insertion, which is that of `reconciled_at`.
pub mod Recorded
pub mod Sound
use cyberwithsteve_acop.Base.{
  ℕ, suc, String, Bool, true, false, not, ◌&&◌, Option, none, some, List, [], ◌∷◌, ◌++◌, filter,
  all, ◌==◌, is_some, if◌then◌else◌,
}
use cyberwithsteve_acop.Json.{Value, Fields, obj, end, field, int, codes}
use cyberwithsteve_acop.Redaction.{redact}
use cyberwithsteve_acop.Vocabulary.States.{InvocationState, execution_indeterminate, same_state}
use cyberwithsteve_acop.Vocabulary.Roles.{Principal, to_audit_fields}
use cyberwithsteve_acop.Vocabulary.Reasons.{
  ReconciliationDisposition, confirmed_succeeded, confirmed_failed, unknown, text,
}
use cyberwithsteve_acop.Store.{
  says_something, ToolInvocation, ToolInvocationReconciliation, AuditOutcome, AuditSeverity,
  tool_not_found, tool_policy_denied, unexpected, Exec, pure, raise, ◌>>=◌, ◌>>◌, transaction,
  get_invocation,
}
use cyberwithsteve_acop.State.{append_event}

-- f"reconciled:{disposition.value.lower()}"
reconciled_reason : ReconciliationDisposition → String
reconciled_reason confirmed_succeeded = "reconciled:confirmed_succeeded"
reconciled_reason confirmed_failed = "reconciled:confirmed_failed"
reconciled_reason unknown = "reconciled:unknown"

object_fields : Value → Fields
object_fields (obj fs) = fs
object_fields _ = end

-- `evidence_ref or {}`
abbrev given_evidence : Option Fields → Fields
given_evidence none = end
given_evidence (some fs) = fs

new_reconciliation :
    ℕ
    → ℕ
    → Principal
    → ReconciliationDisposition
    → String
    → Option Fields
    → ToolInvocationReconciliation
unfolding object_fields to_audit_fields
new_reconciliation id invocation_id p disposition justification evidence_ref = record {
  id = id;
  invocation_id = invocation_id;
  disposition = disposition;
  justification = justification;
  evidence_ref = object_fields (redact (obj (given_evidence evidence_ref)));
  reconciled_by = to_audit_fields p;
}

-- The INSERT under its CHECK and its foreign key.
insert_reconciliation : ToolInvocationReconciliation → Exec (Unit {0})
unfolding says_something
insert_reconciliation row t =
    if says_something row.justification && is_some (get_invocation row.invocation_id t.invocations)
    then pure tt
        (record t { reconciliations = t.reconciliations ++ row ∷ []; next_id = suc t.next_id })
    else raise unexpected t

audited : ℕ → Principal → Exec (Unit {0})
unfolding to_audit_fields
audited id p t = pure tt (record t {
  audit_events =
      t.audit_events
      ++ record {
        action = "tool.reconcile";
        outcome = AuditOutcome.success;
        severity = AuditSeverity.notice;
        resource_id = id;
        actor = to_audit_fields p;
      }
        ∷ [];
})

-- The row, its event, which moves nothing, and its audit record.
appended :
    ToolInvocation → Principal → ToolInvocationReconciliation → Exec ToolInvocationReconciliation
unfolding insert_reconciliation reconciled_reason audited
appended i p row =
    insert_reconciliation row
    >> append_event i.id (some execution_indeterminate) execution_indeterminate
        (text (reconciled_reason row.disposition)) (some p.subject)
        (field "reconciliation_id" (int row.id) end)
    >> audited i.id p
    >> pure row

module _ (p : Principal) (disposition : ReconciliationDisposition) (justification : String)
    (evidence_ref : Option Fields) where
  on_invocation : Option ToolInvocation → Exec ToolInvocationReconciliation
  unfolding appended new_reconciliation
  on_invocation none t = raise tool_not_found t
  on_invocation (some i) t =
      if same_state i.state execution_indeterminate
      then appended i p (new_reconciliation t.next_id i.id p disposition justification evidence_ref)
          t
      else raise tool_policy_denied t

  -- `record`
  pub record_determination : ℕ → Exec ToolInvocationReconciliation
  unfolding on_invocation
  record_determination invocation_id =
      transaction λ t. on_invocation (get_invocation invocation_id t.invocations) t

-- `history`
pub history : ℕ → List ToolInvocationReconciliation → List ToolInvocationReconciliation
history invocation_id l = filter (λ r. r.invocation_id == invocation_id) l

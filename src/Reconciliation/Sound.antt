-- ===== src/Reconciliation/Sound.antt =====
-- A determination of src/acop/services/tools/reconciliation.py leaves rows and histories sound.
use cyberwithsteve_acop.Base.{
  ℕ, suc, ◌≡◌, refl, String, ◌&&◌, Option, none, some, [], ◌∷◌, ◌++◌, is_some, arith,
}
use cyberwithsteve_acop.Json.{Fields, field, end, int}
use cyberwithsteve_acop.Vocabulary.States.{execution_indeterminate, same_state}
use cyberwithsteve_acop.Vocabulary.Roles.{Principal}
use cyberwithsteve_acop.Vocabulary.Reasons.{ReconciliationDisposition, text}
use cyberwithsteve_acop.Store.{
  says_something, ToolInvocation, ToolInvocationReconciliation, Tables, get_invocation, pure, raise,
  unexpected, tool_policy_denied, ◌>>◌,
}
use cyberwithsteve_acop.Store.Actions.{bind-keeps, transaction-keeps, if-keeps}
use cyberwithsteve_acop.Store.Rows.{found_self}
use cyberwithsteve_acop.State.{append_event}
use cyberwithsteve_acop.State.Sound.{IsSound, same-IsSound, grown-IsSound, noop-IsSound}
use cyberwithsteve_acop.Reconciliation.{
  reconciled_reason, new_reconciliation, insert_reconciliation, audited, appended, on_invocation,
  record_determination,
}

-- Sound, and the invocation is there.
abbrev Holds : ToolInvocation → Tables → Type 0
Holds i t = IsSound t × (get_invocation i.id t.invocations ≡ some i)

insert-Holds :
    (i : ToolInvocation) (row : ToolInvocationReconciliation) (t : Tables)
    → Holds i t
    → Holds i (insert_reconciliation row t).1
unfolding insert_reconciliation
insert-Holds i row t (h, found) =
    if-keeps (Holds i)
      (says_something row.justification && is_some (get_invocation row.invocation_id t.invocations))
      (pure tt
        (record t { reconciliations = t.reconciliations ++ row ∷ []; next_id = suc t.next_id }))
      (raise {A = Unit {0}} unexpected t) (grown-IsSound t _ refl refl (omega arith) h, found)
      (h, found)

event-Holds :
    (i : ToolInvocation) (row : ToolInvocationReconciliation) (p : Principal) (t : Tables)
    → Holds i t
    → Holds i
        (append_event i.id
          (some execution_indeterminate)
          execution_indeterminate
          (text (reconciled_reason row.disposition))
          (some p.subject)
          (field "reconciliation_id" (int row.id) end)
          t).1
event-Holds i row p t (h, found) = (
  noop-IsSound t h i.id i found execution_indeterminate (text (reconciled_reason row.disposition))
      (some p.subject) (field "reconciliation_id" (int row.id) end),
  unfold append_event in found,
)

appended-IsSound :
    (i : ToolInvocation) (p : Principal) (row : ToolInvocationReconciliation) (t : Tables)
    → Holds i t
    → IsSound (appended i p row t).1
unfolding appended audited
appended-IsSound i p row t h =
    let event =
      append_event i.id (some execution_indeterminate) execution_indeterminate
        (text (reconciled_reason row.disposition)) (some p.subject)
        (field "reconciliation_id" (int row.id) end) in
    (bind-keeps (Holds i) (insert_reconciliation row >> event >> audited i.id p) (λ done. pure row)
      t
      (bind-keeps (Holds i) (insert_reconciliation row >> event) (λ done. audited i.id p) t
        (bind-keeps (Holds i) (insert_reconciliation row) (λ done. event) t (insert-Holds i row t h)
          (λ done u k. event-Holds i row p u k))
        (λ done u k. (same-IsSound u _ refl refl refl k.0, k.1)))
      (λ done u k. k)).0

module _ (p : Principal) (disposition : ReconciliationDisposition) (justification : String)
    (evidence_ref : Option Fields) where
  on-IsSound :
      (id : ℕ) (o : Option ToolInvocation) (t : Tables)
      → get_invocation id t.invocations ≡ o
      → IsSound t
      → IsSound (on_invocation p disposition justification evidence_ref o t).1
  unfolding on_invocation
  on-IsSound id none t found h = h
  on-IsSound id (some i) t found h =
      let row = new_reconciliation t.next_id i.id p disposition justification evidence_ref in
      if-keeps IsSound (same_state i.state execution_indeterminate) (appended i p row t)
        (raise {A = ToolInvocationReconciliation} tool_policy_denied t)
        (appended-IsSound i p row t (h, found_self id t.invocations i found)) h

  pub record_determination-IsSound :
      (id : ℕ) (t : Tables)
      → IsSound t
      → IsSound (record_determination p disposition justification evidence_ref id t).1
  unfolding record_determination
  record_determination-IsSound id t h =
      transaction-keeps IsSound
        (λ u.
          on_invocation p disposition justification evidence_ref (get_invocation id u.invocations)
            u)
        t (on-IsSound id (get_invocation id t.invocations) t refl h)
        (same-IsSound t _ refl refl refl h)

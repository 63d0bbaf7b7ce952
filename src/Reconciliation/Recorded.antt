-- ===== src/Reconciliation/Recorded.antt =====
-- What a determination of src/acop/services/tools/reconciliation.py writes, on every path.
use cyberwithsteve_acop.Base.{
  ℕ, ◌≡◌, refl, subst, ◌∙◌, String, Bool, true, false, Option, none, some, [], ◌∷◌, ◌++◌,
  filter-append, ◌==◌, ==_iff, if◌then◌else◌, Bool-cases, inl, inr,
}
use mathlib.Core.List.{append-nil}
use cyberwithsteve_acop.Json.{Fields}
use cyberwithsteve_acop.Vocabulary.States.{execution_indeterminate, same_state}
use cyberwithsteve_acop.Vocabulary.Roles.{Principal}
use cyberwithsteve_acop.Vocabulary.Reasons.{ReconciliationDisposition}
use cyberwithsteve_acop.Store.{
  says_something, ToolInvocation, ToolInvocationReconciliation, Tables, Result, ok, err, ToolError,
  tool_not_found, tool_policy_denied, unexpected, get_invocation, transaction, settle,
}
use cyberwithsteve_acop.Store.Rows.{get-id, found_self}
use cyberwithsteve_acop.State.{append_event}
use cyberwithsteve_acop.Reconciliation.{
  new_reconciliation, insert_reconciliation, audited, appended, on_invocation, record_determination,
  history,
}

-- The error that a determination meets, where it meets one.
abbrev pub refusal : Option ToolInvocation → String → Option ToolError
refusal none justification = some tool_not_found
refusal (some i) justification =
    if same_state i.state execution_indeterminate
    then (if says_something justification then none else some unexpected)
    else some tool_policy_denied

-- Refused, nothing is written; accepted, the row comes last in the history of its invocation, no
-- other history changes, and no invocation is written.
abbrev pub Recorded :
    Option ToolError → ℕ → Tables → Result ToolInvocationReconciliation × Tables → Type 0
Recorded (some e) id t x = x ≡ (err e, t)
Recorded none id t x =
    (row : ToolInvocationReconciliation) × (x.0 ≡ ok row)
    × (history id x.1.reconciliations ≡ history id t.reconciliations ++ row ∷ [])
    × ((j : ℕ) → (id == j) ≡ false → history j x.1.reconciliations ≡ history j t.reconciliations)
    × (x.1.invocations ≡ t.invocations)

module _ (p : Principal) (disposition : ReconciliationDisposition) (justification : String)
    (evidence_ref : Option Fields) (t : Tables) where
  abbrev new_row : ToolInvocation → ToolInvocationReconciliation
  new_row i = new_reconciliation t.next_id i.id p disposition justification evidence_ref

  own_history :
      (i : ToolInvocation)
      → history i.id (t.reconciliations ++ new_row i ∷ [])
        ≡ history i.id t.reconciliations ++ new_row i ∷ []
  unfolding history new_reconciliation
  own_history i =
      filter-append (λ (r : ToolInvocationReconciliation). r.invocation_id == i.id)
        t.reconciliations (new_row i ∷ [])
      ∙ rw ((==_iff i.id i.id).1 refl) refl

  other_history :
      (i : ToolInvocation) (j : ℕ)
      → (i.id == j) ≡ false
      → history j (t.reconciliations ++ new_row i ∷ []) ≡ history j t.reconciliations
  unfolding history new_reconciliation
  other_history i j other =
      filter-append (λ (r : ToolInvocationReconciliation). r.invocation_id == j) t.reconciliations
        (new_row i ∷ [])
      ∙ rw other (append-nil (history j t.reconciliations))

  says-Recorded :
      (i : ToolInvocation)
      → get_invocation i.id t.invocations ≡ some i
      → says_something justification ≡ true
      → Recorded none i.id t (appended i p (new_row i) t)
  unfolding appended insert_reconciliation audited append_event new_reconciliation
  says-Recorded i found says =
      rw says (rw found (new_row i, refl, own_history i, other_history i, refl))

  lacks-Recorded :
      (i : ToolInvocation)
      → says_something justification ≡ false
      → Recorded (some unexpected) i.id t (appended i p (new_row i) t)
  unfolding appended insert_reconciliation new_reconciliation
  lacks-Recorded i says = rw says refl

  by_check :
      (i : ToolInvocation) (b : Bool)
      → get_invocation i.id t.invocations ≡ some i
      → says_something justification ≡ b
      → Recorded (if b then none else some unexpected) i.id t (appended i p (new_row i) t)
  by_check i true found says = says-Recorded i found says
  by_check i false found lacks = lacks-Recorded i lacks

  on_row-Recorded :
      (i : ToolInvocation)
      → get_invocation i.id t.invocations ≡ some i
      → Recorded
          (refusal (some i) justification)
          i.id
          t
          (on_invocation p disposition justification evidence_ref (some i) t)
  unfolding on_invocation
  on_row-Recorded i found = elim (Bool-cases (same_state i.state execution_indeterminate)) [
    | inr certain ↦ rw certain refl
    | inl asked ↦ rw asked (by_check i (says_something justification) found refl)
  ]

  on-Recorded :
      (id : ℕ) (o : Option ToolInvocation)
      → get_invocation id t.invocations ≡ o
      → Recorded
          (refusal o justification)
          id
          t
          (on_invocation p disposition justification evidence_ref o t)
  unfolding on_invocation
  on-Recorded id none gone = refl
  on-Recorded id (some i) found =
      let same = get-id id t.invocations i found in
      subst
        (λ n.
          Recorded (refusal (some i) justification) n t
            (on_invocation p disposition justification evidence_ref (some i) t))
        same (on_row-Recorded i (found_self id t.invocations i found))

-- A transaction that restores what an error leaves keeps what is recorded.
settled-Recorded :
    (o : Option ToolError) (id : ℕ) (t : Tables) (x : Result ToolInvocationReconciliation × Tables)
    → Recorded o id t x
    → Recorded o id t (settle t x)
settled-Recorded (some e) id t x h = rw h refl
settled-Recorded none id t (ok row, u) h = h
settled-Recorded none id t (err e, u) (row, failed, own, others, rows) = cc (failed)

-- A determination is refused, with nothing written, where there is no such invocation, where it is not
-- in EXECUTION_INDETERMINATE, and where the justification is blank. Otherwise its row comes last in
-- the history of the invocation, no other history changes, and no invocation is written.
pub record_determination-Recorded :
    (p : Principal) (disposition : ReconciliationDisposition) (justification : String)
    (evidence_ref : Option Fields) (id : ℕ) (t : Tables)
    → Recorded
        (refusal (get_invocation id t.invocations) justification)
        id
        t
        (record_determination p disposition justification evidence_ref id t)
unfolding record_determination transaction
record_determination-Recorded p disposition justification evidence_ref id t =
    settled-Recorded (refusal (get_invocation id t.invocations) justification) id t _ (
      on-Recorded p disposition justification evidence_ref t id (get_invocation id t.invocations)
        refl)

-- ===== src/Reaper.antt =====
-- The reaper and the approval sweeper: src/acop/services/tools/reaper.py. The candidates are read
-- once and may be older than the rows that are then written.
pub mod Outcome
pub mod Sweeps
pub mod Candidates
use cyberwithsteve_acop.Base.{
  ℕ, zero, suc, ◌+◌, ◌*◌, String, Bool, true, false, ◌&&◌, Option, none, some, List, [], ◌∷◌, ◌++◌,
  ◌==◌, leb, ltb, filter, if◌then◌else◌,
}
use cyberwithsteve_acop.Json.{Fields, field, end, null, int}
use cyberwithsteve_acop.Vocabulary.States.{
  InvocationState, executing, validating, awaiting_approval, ready, validation_failed, expired,
  same_state, is_in_flight,
}
use cyberwithsteve_acop.Vocabulary.Roles.{system_principal, to_audit_fields}
use cyberwithsteve_acop.Vocabulary.Reasons.{
  ToolErrorCategory, ValidationOutcome, PolicyReason, policy, category,
}
use cyberwithsteve_acop.Store.{
  ToolInvocation, InvocationColumns, AuditOutcome, AuditSeverity, Tables, ToolError,
  stale_transition, Result, ok, err, Exec, pure, raise, ◌>>=◌, ◌>>◌, transaction, Assignment,
}
use cyberwithsteve_acop.State.{transition, release_lease, anything}
use cyberwithsteve_acop.Approval.{second}

-- A column compared to a Python value: `None` becomes IS NULL.
abbrev is_same : Option ℕ → Option ℕ → Bool
is_same none none = true
is_same (some a) (some b) = a == b
is_same _ _ = false

-- The lease that the candidate query judged expired.
pub held_lease : ToolInvocation → ToolInvocation → Bool
held_lease held i =
    is_same i.executor_lease_id held.executor_lease_id
    && is_same i.lease_expires_at held.lease_expires_at

pub interrupted_set : ℕ → Assignment
interrupted_set now c = record c {
  finished_at = some now;
  error_category = some ToolErrorCategory.execution_indeterminate;
  error_detail_sanitized =
      some
        "Execution was interrupted and the outcome is unknown. A human must determine what happened.";
}

pub unconfirmed_set : ℕ → Assignment
unconfirmed_set now c = record c {
  validation_outcome = some ValidationOutcome.indeterminate;
  validated_at = some now;
  finished_at = some now;
  error_category = some ToolErrorCategory.validation_failed;
  error_detail_sanitized = some "The tool executed but the intended change could not be confirmed.";
}

expiry_detail : ToolInvocation → Fields
expiry_detail held =
    field "lease_expired_at" (elim held.lease_expires_at [ none ↦ null | some e ↦ int e ]) end

-- The write: an execution that was interrupted, or a validation that was.
pub close : ToolInvocation → ℕ → Exec (Unit {0})
unfolding interrupted_set unconfirmed_set expiry_detail
close held now =
    if same_state held.state executing
    then release_lease held InvocationState.execution_indeterminate
        (category ToolErrorCategory.execution_indeterminate) (expiry_detail held) (held_lease held)
        (interrupted_set now)
    else release_lease held validation_failed (category ToolErrorCategory.validation_failed) end
        (held_lease held) (unconfirmed_set now)

audited : String → AuditOutcome → AuditSeverity → ℕ → Tables → Tables
unfolding to_audit_fields
audited action outcome severity id t = record t {
  audit_events =
      t.audit_events
      ++ record {
        action = action;
        outcome = outcome;
        severity = severity;
        resource_id = id;
        actor = to_audit_fields system_principal;
      }
        ∷ [];
}

closing_severity : InvocationState → AuditSeverity
closing_severity s =
    if same_state s executing then AuditSeverity.critical else AuditSeverity.warning

-- except StaleTransitionError: stand down; any other error goes on.
pub after_close : ToolInvocation → Result (Unit {0}) × Tables → Result Bool × Tables
unfolding audited closing_severity
after_close held (ok _, t) =
    (ok true, audited "tool.reap" AuditOutcome.failure (closing_severity held.state) held.id t)
after_close held (err stale_transition, t) =
    (ok false, audited "tool.reap" AuditOutcome.success AuditSeverity.notice held.id t)
after_close held (err e, t) = (err e, t)

-- `_reap_one`
pub reap_one : ToolInvocation → ℕ → Exec Bool
unfolding close after_close
reap_one held now t = after_close held (close held now t)

abbrev expired_before : ℕ → Option ℕ → Bool
expired_before now none = false
expired_before now (some e) = ltb e now

-- ORDER BY lease_expires_at; every candidate has one.
abbrev expiry_or_zero : ToolInvocation → ℕ
expiry_or_zero i = elim i.lease_expires_at [ none ↦ 0 | some e ↦ e ]

abbrev insert_by : (ToolInvocation → ℕ) → ToolInvocation → List ToolInvocation → List ToolInvocation
insert_by key i [] = i ∷ []
insert_by key i (j ∷ l) =
    let rest = insert_by key i l in if leb (key i) (key j) then i ∷ j ∷ l else j ∷ rest

abbrev order_by : (ToolInvocation → ℕ) → List ToolInvocation → List ToolInvocation
order_by key [] = []
order_by key (i ∷ l) = insert_by key i (order_by key l)

abbrev limited {ℓ} : {A : Type ℓ} → ℕ → List A → List A
limited zero l = []
limited (suc n) [] = []
limited (suc n) (x ∷ l) = x ∷ limited n l

pub lease_candidates : ℕ → ℕ → List ToolInvocation → List ToolInvocation
lease_candidates now limit l = limited limit (
    order_by expiry_or_zero
      (filter (λ i. is_in_flight i.state && expired_before now i.lease_expires_at) l))

reap_all : List ToolInvocation → ℕ → ℕ → Exec ℕ
unfolding reap_one
reap_all [] now closed = pure closed
reap_all (held ∷ l) now closed =
    reap_one held now >>= λ done. reap_all l now (if done then closed + 1 else closed)

-- `reap_expired_leases`
pub reap_expired_leases : ℕ → ℕ → Exec ℕ
unfolding reap_all lease_candidates transaction
reap_expired_leases now limit =
    transaction λ t. reap_all (lease_candidates now limit t.invocations) now 0 t

-- `invocation.approved_at or invocation.requested_at`
expiry_anchor : ToolInvocation → ℕ
expiry_anchor i = elim i.approved_at [ none ↦ i.requested_at | some a ↦ a ]

pub within_window : ToolInvocation → ℕ → Bool
unfolding expiry_anchor
within_window i now = ltb now (expiry_anchor i + i.approval_ttl_seconds * second)

lapsed_set : ℕ → Assignment
lapsed_set now c = record c {
  finished_at = some now;
  error_category = some ToolErrorCategory.approval_expired;
  error_detail_sanitized = some "The approval for this invocation expired.";
}

after_expiry : ToolInvocation → Result (Unit {0}) × Tables → Result Bool × Tables
unfolding audited
after_expiry held (ok _, t) =
    (ok true, audited "tool.expire" AuditOutcome.failure AuditSeverity.notice held.id t)
after_expiry held (err stale_transition, t) = (ok false, t)
after_expiry held (err e, t) = (err e, t)

-- One turn of the sweep.
pub expire_one : ToolInvocation → ℕ → Exec Bool
unfolding within_window after_expiry lapsed_set
expire_one held now t =
    if within_window held now
    then pure false t
    else after_expiry held (
        transition held expired (policy PolicyReason.approval_expired) none end anything
          (lapsed_set now) t)

pub approval_candidates : ℕ → List ToolInvocation → List ToolInvocation
approval_candidates limit l = limited limit (
    order_by (λ i. i.requested_at)
      (filter
        (λ i.
          (if same_state i.state awaiting_approval then true else same_state i.state ready)
          && i.approval_required)
        l))

expire_all : List ToolInvocation → ℕ → ℕ → Exec ℕ
unfolding expire_one
expire_all [] now n = pure n
expire_all (held ∷ l) now n =
    expire_one held now >>= λ done. expire_all l now (if done then n + 1 else n)

-- `expire_stale`
pub expire_stale : ℕ → ℕ → Exec ℕ
unfolding expire_all approval_candidates transaction
expire_stale now limit =
    transaction λ t. expire_all (approval_candidates limit t.invocations) now 0 t

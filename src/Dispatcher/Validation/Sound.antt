-- ===== src/Dispatcher/Validation/Sound.antt =====
-- A validation of src/acop/services/tools/dispatcher.py leaves rows and histories sound.
use cyberwithsteve_acop.Base.{ℕ, ◌+◌, ◌*◌, ◌≡◌, refl, false, Option, none, some}
use cyberwithsteve_acop.Json.{Fields, end}
use cyberwithsteve_acop.Vocabulary.States.{InvocationState, is_in_flight}
use cyberwithsteve_acop.Vocabulary.Reasons.{
  ToolErrorCategory, ValidationOutcome, confirmed, not_confirmed, indeterminate, PolicyReason,
  policy, category,
}
use cyberwithsteve_acop.Contract.{ToolDefinition}
use cyberwithsteve_acop.Store.{
  ToolInvocation, InvocationColumns, Tables, pure, ◌>>=◌, ◌>>◌, refresh,
}
use cyberwithsteve_acop.Store.Actions.{bind-keeps, branch-keeps, refresh-tables}
use cyberwithsteve_acop.State.{transition, release_lease, anything, cas_set}
use cyberwithsteve_acop.State.Leases.{IsChecked, LeavesLease}
use cyberwithsteve_acop.State.Sound.{
  IsSound, same-IsSound, fitting-IsSound, idle-IsSound, release-IsSound,
}
use cyberwithsteve_acop.Approval.{second}
use cyberwithsteve_acop.Dispatcher.Execution.{Adapter}
use cyberwithsteve_acop.Dispatcher.Validation.{
  succeeded_set, lease_set, confirmed_set, unconfirmed_set, outcome_of, detail_of, observe,
  conclude, validate_with, after_execution,
}

succeeded_leaves : (now : ℕ) → LeavesLease (succeeded_set now)
unfolding succeeded_set
succeeded_leaves now = record {
  same_lease = λ x. refl;
  same_expiry = λ x. refl;
  same_decision = λ x. refl;
  same_time = λ x. refl;
  same_event = λ x. refl;
}

confirmed_leaves :
    (o : ValidationOutcome) (detail : Fields) (now : ℕ) → LeavesLease (confirmed_set o detail now)
unfolding confirmed_set
confirmed_leaves o detail now = record {
  same_lease = λ x. refl;
  same_expiry = λ x. refl;
  same_decision = λ x. refl;
  same_time = λ x. refl;
  same_event = λ x. refl;
}

unconfirmed_leaves :
    (o : ValidationOutcome) (detail : Fields) (now : ℕ) → LeavesLease (unconfirmed_set o detail now)
unfolding unconfirmed_set
unconfirmed_leaves o detail now = record {
  same_lease = λ x. refl;
  same_expiry = λ x. refl;
  same_decision = λ x. refl;
  same_time = λ x. refl;
  same_event = λ x. refl;
}

-- The lease of the validation comes with its state.
validating_row :
    (lease_id expires : ℕ) (c : InvocationColumns)
    → IsChecked c
    → IsChecked (cas_set InvocationState.validating (lease_set lease_id expires) c)
unfolding cas_set lease_set
validating_row lease_id expires c h = record {
  lease_state = refl;
  lease_expiry = refl;
  final_gate_timing = h.final_gate_timing;
  final_gate_provenance = h.final_gate_provenance;
}

conclude-IsSound :
    (i : ToolInvocation) (o : ValidationOutcome) (detail : Fields) (now : ℕ) (t : Tables)
    → IsSound t
    → IsSound (conclude i o detail now t).1
unfolding conclude
conclude-IsSound i confirmed detail now t h =
    bind-keeps IsSound
      (release_lease i InvocationState.succeeded (policy PolicyReason.allowed) end anything
        (confirmed_set confirmed detail now))
      (λ done. pure InvocationState.succeeded) t
      (release-IsSound i InvocationState.succeeded _ end anything _ t refl
        (confirmed_leaves confirmed detail now) h)
      (λ done u k. k)
conclude-IsSound i not_confirmed detail now t h =
    bind-keeps IsSound
      (release_lease i InvocationState.validation_failed
        (category ToolErrorCategory.validation_failed) end anything
        (unconfirmed_set not_confirmed detail now))
      (λ done. pure InvocationState.validation_failed) t
      (release-IsSound i InvocationState.validation_failed _ end anything _ t refl
        (unconfirmed_leaves not_confirmed detail now) h)
      (λ done u k. k)
conclude-IsSound i indeterminate detail now t h =
    bind-keeps IsSound
      (release_lease i InvocationState.validation_failed
        (category ToolErrorCategory.validation_failed) end anything
        (unconfirmed_set indeterminate detail now))
      (λ done. pure InvocationState.validation_failed) t
      (release-IsSound i InvocationState.validation_failed _ end anything _ t refl
        (unconfirmed_leaves indeterminate detail now) h)
      (λ done u k. k)

observe-IsSound :
    (o : Option Adapter) (i : ToolInvocation) (d : ToolDefinition) (t : Tables)
    → IsSound t
    → IsSound (observe o i d t).1
unfolding observe
observe-IsSound none i d t h = h
observe-IsSound (some adapter) i d t h = same-IsSound t _ refl refl refl h

validate-IsSound :
    (o : Option Adapter) (i : ToolInvocation) (d : ToolDefinition) (lease_id lease_seconds now : ℕ)
    (t : Tables)
    → IsSound t
    → IsSound (validate_with o i d lease_id lease_seconds now t).1
unfolding validate_with
validate-IsSound o i d lease_id lease_seconds now t h =
    let set = lease_set lease_id (now + lease_seconds * second) in
    let move =
      transition i InvocationState.validating (policy PolicyReason.allowed) none end anything set in
    let after = λ (held : ToolInvocation).
      observe o held d >>= λ reply. conclude held (outcome_of reply) (detail_of reply) now in
    bind-keeps IsSound (move >> refresh i.id) after t
      (bind-keeps IsSound move (λ done. refresh i.id) t
        (fitting-IsSound i InvocationState.validating _ none end anything set t h
          (λ c legal same k. validating_row lease_id (now + lease_seconds * second) c k))
        (λ done u k. rw (refresh-tables i.id u) k))
      (λ held u k.
        bind-keeps IsSound (observe o held d)
          (λ reply. conclude held (outcome_of reply) (detail_of reply) now) u
          (observe-IsSound o held d u k)
          (λ reply v l. conclude-IsSound held (outcome_of reply) (detail_of reply) now v l))

-- What follows the execution of a row that is not in flight.
pub after_execution-IsSound :
    (o : Option Adapter) (i : ToolInvocation) (d : ToolDefinition) (lease_id lease_seconds now : ℕ)
    (t : Tables)
    → is_in_flight i.state ≡ false
    → IsSound t
    → IsSound (after_execution o i d lease_id lease_seconds now t).1
unfolding after_execution
after_execution-IsSound o i d lease_id lease_seconds now t idle h =
    let move =
      transition i InvocationState.succeeded (policy PolicyReason.allowed) none end anything
        (succeeded_set now) in
    branch-keeps IsSound i.validation_required (validate_with o i d lease_id lease_seconds now)
      (move >> pure InvocationState.succeeded) t
      (validate-IsSound o i d lease_id lease_seconds now t h)
      (bind-keeps IsSound move (λ done. pure InvocationState.succeeded) t
        (idle-IsSound i InvocationState.succeeded _ none end anything (succeeded_set now) t h idle
          refl (succeeded_leaves now))
        (λ done u k. k))

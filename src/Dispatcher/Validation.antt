-- ===== src/Dispatcher/Validation.antt =====
-- What follows an execution: `_after_execution` of src/acop/services/tools/dispatcher.py. The wait
-- before the observation has no effect on the tables.
pub mod Sound
use cyberwithsteve_acop.Base.{ℕ, ◌+◌, ◌*◌, Option, none, some, [], ◌∷◌, ◌++◌, length, if◌then◌else◌}
use cyberwithsteve_acop.Json.{Fields, end}
use cyberwithsteve_acop.Vocabulary.States.{InvocationState}
use cyberwithsteve_acop.Vocabulary.Reasons.{
  success, ToolErrorCategory, ValidationOutcome, confirmed, not_confirmed, indeterminate,
  PolicyReason, policy, category,
}
use cyberwithsteve_acop.Contract.{ToolDefinition}
use cyberwithsteve_acop.Store.{
  ToolInvocation, validate_call, Exec, pure, ◌>>=◌, ◌>>◌, Assignment, refresh,
}
use cyberwithsteve_acop.State.{transition, release_lease, anything}
use cyberwithsteve_acop.Phrases.{error_phrase}
use cyberwithsteve_acop.Approval.{second}
use cyberwithsteve_acop.Dispatcher.Execution.{
  Adapter, ValidateReply, observed, not_checked, request_of,
}

succeeded_set : ℕ → Assignment
succeeded_set now c = record c { finished_at = some now }

lease_set : ℕ → ℕ → Assignment
lease_set lease_id expires c = record c {
  executor_lease_id = some lease_id;
  lease_expires_at = some expires;
}

confirmed_set : ValidationOutcome → Fields → ℕ → Assignment
confirmed_set outcome detail now c = record c {
  validation_outcome = some outcome;
  validation_detail = some detail;
  validated_at = some now;
  finished_at = some now;
}

unconfirmed_set : ValidationOutcome → Fields → ℕ → Assignment
unfolding confirmed_set
unconfirmed_set outcome detail now c = record (confirmed_set outcome detail now c) {
  error_category = some ToolErrorCategory.validation_failed;
  error_detail_sanitized = some (error_phrase ToolErrorCategory.validation_failed);
}

-- The observation, on its own: the adapter's report of the execution has no part in it.
outcome_of : ValidateReply → ValidationOutcome
outcome_of (observed success payload) = confirmed
outcome_of (observed _ payload) = not_confirmed
outcome_of not_checked = indeterminate

detail_of : ValidateReply → Fields
detail_of (observed outcome payload) = payload
detail_of not_checked = end

observe : Option Adapter → ToolInvocation → ToolDefinition → Exec ValidateReply
observe none i d t = pure not_checked t
observe (some adapter) i d t =
    pure (adapter.validate (length t.adapter_calls) (request_of i d))
      (record t { adapter_calls = t.adapter_calls ++ validate_call i.id ∷ [] })

conclude : ToolInvocation → ValidationOutcome → Fields → ℕ → Exec InvocationState
unfolding confirmed_set unconfirmed_set
conclude i confirmed detail now =
    release_lease i InvocationState.succeeded (policy PolicyReason.allowed) end anything
      (confirmed_set confirmed detail now)
    >> pure InvocationState.succeeded
conclude i outcome detail now =
    release_lease i InvocationState.validation_failed (category ToolErrorCategory.validation_failed)
      end anything (unconfirmed_set outcome detail now)
    >> pure InvocationState.validation_failed

validate_with : Option Adapter → ToolInvocation → ToolDefinition → ℕ → ℕ → ℕ → Exec InvocationState
unfolding lease_set refresh observe conclude outcome_of detail_of
validate_with adapter i d lease_id lease_seconds now =
    transition i InvocationState.validating (policy PolicyReason.allowed) none end anything
      (lease_set lease_id (now + lease_seconds * second))
    >> refresh i.id
    >>= λ held.
        observe adapter held d >>= λ reply. conclude held (outcome_of reply) (detail_of reply) now

-- `_after_execution`
pub after_execution :
    Option Adapter → ToolInvocation → ToolDefinition → ℕ → ℕ → ℕ → Exec InvocationState
unfolding validate_with succeeded_set
after_execution adapter i d lease_id lease_seconds now =
    if i.validation_required
    then validate_with adapter i d lease_id lease_seconds now
    else transition i InvocationState.succeeded (policy PolicyReason.allowed) none end anything
        (succeeded_set now)
      >> pure InvocationState.succeeded

-- ===== src/Dispatcher/Execution.antt =====
-- The calls of an adapter and what becomes of its report: `_execute`, `_record_adapter_result` and
-- `_declared_output` of src/acop/services/tools/dispatcher.py. An adapter is a parameter: a
-- function of how many calls were made before and of the request. The resolved target is not part
-- of the request here.
pub mod Attempts
pub mod Sound
pub mod Declared
use cyberwithsteve_acop.Base.{
  ℕ, zero, suc, ◌+◌, String, Bool, true, false, ◌&&◌, Option, none, some, List, [], ◌∷◌, ◌++◌,
  length, ltb, if◌then◌else◌,
}
use cyberwithsteve_acop.Json.{Fields, end, field}
use cyberwithsteve_acop.Vocabulary.States.{InvocationState}
use cyberwithsteve_acop.Vocabulary.Reasons.{
  AdapterOutcome, success, failure, timeout, unavailable, ToolErrorCategory, member_category,
  PolicyReason, policy, category,
}
use cyberwithsteve_acop.Contract.{ToolDefinition, Validation, valid, invalid, crashed}
use cyberwithsteve_acop.Sanitize.{sanitize_output}
use cyberwithsteve_acop.Store.{
  ToolInvocation, InvocationColumns, Tables, execute_call, unexpected, Exec, pure, raise, ◌>>=◌,
  ◌>>◌, Assignment,
}
use cyberwithsteve_acop.State.{release_lease, anything}
use cyberwithsteve_acop.Phrases.{error_phrase}

pub record AdapterRequest : Type 0 where
  pub invocation_id : ℕ
  pub tool_name : String
  pub tool_version : String
  pub payload : Fields
  pub timeout_seconds : ℕ
  pub attempt : ℕ

-- What `asyncio.wait_for(adapter.execute(request), …)` does.
pub data ExecuteReply : Type 0 where
  returned : AdapterOutcome → Fields → Fields → ExecuteReply
  timed_out : ExecuteReply
  tool_error : ToolErrorCategory → ExecuteReply
  unhandled : ExecuteReply

-- What `asyncio.wait_for(adapter.validate(request), …)` does.
pub data ValidateReply : Type 0 where
  observed : AdapterOutcome → Fields → ValidateReply
  not_checked : ValidateReply

pub record Adapter : Type 0 where
  pub execute : ℕ → AdapterRequest → ExecuteReply
  pub validate : ℕ → AdapterRequest → ValidateReply

pub request_of : ToolInvocation → ToolDefinition → AdapterRequest
request_of i d = record {
  invocation_id = i.id;
  tool_name = i.tool_name;
  tool_version = i.tool_version;
  payload = i.input_canonical;
  timeout_seconds = d.timeout_seconds;
  attempt = i.attempt_count;
}

unfoldable pub failed_set : ToolErrorCategory → ℕ → Assignment
failed_set c now x = record x {
  finished_at = some now;
  error_category = some c;
  error_detail_sanitized = some (error_phrase c);
}

-- Leave the in-flight state with a category, for `to_state`.
pub close_with : ToolInvocation → InvocationState → ToolErrorCategory → ℕ → Exec InvocationState
unfolding failed_set
close_with i to_state c now =
    release_lease i to_state (category c) end anything (failed_set c now) >> pure to_state

nonempty_fields : Fields → Option Fields
nonempty_fields end = none
nonempty_fields (field k v rest) = some (field k v rest)

pub executed_set : Fields → String → Fields → Assignment
unfolding nonempty_fields
executed_set summary digest hint x = record x {
  result_summary = some summary;
  result_digest = some digest;
  rollback_hint = nonempty_fields hint;
}

failure_category : AdapterOutcome → ToolErrorCategory
failure_category timeout = ToolErrorCategory.timeout
failure_category unavailable = ToolErrorCategory.adapter_unavailable
failure_category _ = ToolErrorCategory.execution_failed

-- `attempt < max_attempts and adapter_idempotent and last in retry_on`
pub may_retry : ℕ → ToolDefinition → ToolErrorCategory → Bool
may_retry left d c = ltb 0 left && d.adapter_idempotent && member_category c d.retry_policy.retry_on

abbrev pub called : ToolInvocation → Tables → Tables
called i t = record t { adapter_calls = t.adapter_calls ++ execute_call i.id ∷ [] }

module _ (sha256 : List ℕ → String) where
  publish : ToolInvocation → ToolDefinition → Fields → Fields → Exec InvocationState
  unfolding executed_set
  publish i d declared hint =
      let (summary, digest) = sanitize_output sha256 d declared in
      release_lease i InvocationState.executed (policy PolicyReason.allowed) end anything
        (executed_set summary digest hint)
      >> pure InvocationState.executed

  -- `_declared_output`: an exception other than the validation's own goes out.
  after_output : ToolInvocation → ToolDefinition → Fields → ℕ → Validation → Exec InvocationState
  unfolding close_with publish
  after_output i d hint now (valid declared) = publish i d declared hint
  after_output i d hint now invalid =
      close_with i InvocationState.failed ToolErrorCategory.output_contract_violation now
  after_output i d hint now crashed = raise unexpected

  -- `_record_adapter_result`
  pub record_adapter_result :
      ToolInvocation → ToolDefinition → ℕ → AdapterOutcome → Fields → Fields → Exec InvocationState
  unfolding after_output close_with
  record_adapter_result i d now success payload hint =
      after_output i d hint now (d.output_model.model_validate payload)
  record_adapter_result i d now outcome payload hint =
      close_with i InvocationState.failed (failure_category outcome) now

  -- What one call's end leads to: `again` is the rest of the loop, after the category it gave.
  after_reply :
      ToolInvocation
      → ToolDefinition
      → ℕ
      → ℕ
      → (ToolErrorCategory → Exec InvocationState)
      → ExecuteReply
      → Exec InvocationState
  unfolding close_with record_adapter_result may_retry
  after_reply i d now left again (returned outcome payload hint) =
      record_adapter_result i d now outcome payload hint
  after_reply i d now left again timed_out =
      close_with i InvocationState.timed_out ToolErrorCategory.timeout now
  after_reply i d now left again (tool_error c) =
      if may_retry left d c then again c else close_with i InvocationState.failed c now
  after_reply i d now left again unhandled =
      close_with i InvocationState.failed ToolErrorCategory.internal_error now

  -- The loop over the attempts that are left; when there are none, the last category decides.
  pub attempts :
      ℕ → ToolErrorCategory → Adapter → ToolInvocation → ToolDefinition → ℕ → Exec InvocationState
  unfolding close_with after_reply
  attempts zero last adapter i d now = close_with i InvocationState.failed last now
  attempts (suc left) last adapter i d now =
      let again = λ (c : ToolErrorCategory). attempts left c adapter i d now in
      λ t.
        after_reply i d now left again (adapter.execute (length t.adapter_calls) (request_of i d))
          (called i t)

  execute_with : Option Adapter → ToolInvocation → ToolDefinition → ℕ → Exec InvocationState
  unfolding attempts close_with
  execute_with none i d now =
      close_with i InvocationState.failed ToolErrorCategory.capability_not_bound now
  execute_with (some adapter) i d now =
      attempts d.retry_policy.max_attempts ToolErrorCategory.internal_error adapter i d now

  -- `_execute`
  pub execute :
      (String → Option Adapter) → ToolInvocation → ToolDefinition → ℕ → Exec InvocationState
  unfolding execute_with
  execute resolve_adapter i d now = execute_with (resolve_adapter d.adapter_id) i d now

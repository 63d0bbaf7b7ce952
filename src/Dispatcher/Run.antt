-- ===== src/Dispatcher/Run.antt =====
-- One invocation from `ready` to its end: `execute_once`, `_run_claimed`, `_abandon_lost_lease` and
-- `_audit_outcome` of src/acop/services/tools/dispatcher.py. What other sessions commit in between is
-- a function on the tables: `before_gate` after the claim, and `during_gate` while the gate is
-- evaluated and before its decision is written.
pub mod Ownership
pub mod Sound
use cyberwithsteve_acop.Base.{
  ℕ, ◌+◌, ◌*◌, String, Bool, true, false, Option, none, some, List, [], ◌∷◌, ◌++◌, if◌then◌else◌,
}
use cyberwithsteve_acop.Json.{Fields, end, field, str, int}
use cyberwithsteve_acop.Vocabulary.States.{
  InvocationState, ready, executed, succeeded, expired, same_state,
}
use cyberwithsteve_acop.Vocabulary.Roles.{system_principal, to_audit_fields}
use cyberwithsteve_acop.Vocabulary.Reasons.{
  GateDecision, PolicyReason, policy, policy_value, ToolErrorCategory,
}
use cyberwithsteve_acop.Contract.{ToolDefinition, ExecutionParameters}
use cyberwithsteve_acop.Store.{
  ToolInvocation, AuditOutcome, AuditSeverity, Tables, Result, Exec, pure, ◌>>=◌, ◌>>◌, settle,
  transaction, refresh,
}
use cyberwithsteve_acop.State.{
  append_event, record_final_gate_if_owned, claim_for_execution, release_lease, anything,
}
use cyberwithsteve_acop.Approval.{second}
use cyberwithsteve_acop.Dispatcher.Gate.{
  GateResult, admitted, refused, gate_decision, gate_reason, final_gate,
}
use cyberwithsteve_acop.Dispatcher.Execution.{Adapter, execute, failed_set}
use cyberwithsteve_acop.Dispatcher.Validation.{after_execution}

pub recorded : AuditOutcome → AuditSeverity → ℕ → Exec (Unit {0})
unfolding to_audit_fields
recorded outcome severity id t = pure tt (record t {
  audit_events =
      t.audit_events
      ++ record {
        action = "tool.execute";
        outcome = outcome;
        severity = severity;
        resource_id = id;
        actor = to_audit_fields system_principal;
      }
        ∷ [];
})

severity_of : AuditOutcome → AuditSeverity
severity_of AuditOutcome.success = AuditSeverity.info
severity_of _ = AuditSeverity.warning

-- `_audit_outcome`
pub audit_outcome : AuditOutcome → ℕ → Exec (Unit {0})
unfolding recorded severity_of
audit_outcome outcome = recorded outcome (severity_of outcome)

-- `_abandon_lost_lease`
pub abandon_lost_lease : ℕ → Exec InvocationState
unfolding recorded refresh
abandon_lost_lease id =
    refresh id >>= λ i. recorded AuditOutcome.failure AuditSeverity.warning id >> pure i.state

outcome_of : InvocationState → AuditOutcome
outcome_of s = if same_state s succeeded then AuditOutcome.success else AuditOutcome.failure

-- What a worker is given: the digest, the registry in code, the adapters and the lease's length.
pub record Worker : Type 0 where
  pub sha256 : List ℕ → String
  pub registry : List ToolDefinition
  pub resolve_adapter : String → Option Adapter
  pub lease_seconds : ℕ

abbrev decision_value : GateDecision → String
decision_value GateDecision.allow = "ALLOW"
decision_value GateDecision.deny = "DENY"

module _ (w : Worker) where
  validated : ℕ → ToolDefinition → ℕ → ℕ → Exec InvocationState
  unfolding refresh
  validated id d validation_lease now = refresh id >>= λ held.
      after_execution (w.resolve_adapter d.adapter_id) held d validation_lease w.lease_seconds now

  -- `_execute`, and `_after_execution` of what it executed.
  dispatch : ToolInvocation → ToolDefinition → ℕ → ℕ → Exec InvocationState
  unfolding outcome_of validated audit_outcome
  dispatch i d validation_lease now = execute w.sha256 w.resolve_adapter i d now >>= λ state.
      (if same_state state executed then validated i.id d validation_lease now else pure state)
      >>= λ final. audit_outcome (outcome_of final) i.id >> pure final

  after_gate : GateResult → ToolInvocation → ℕ → ℕ → Exec InvocationState
  unfolding dispatch failed_set audit_outcome
  after_gate (refused reason) i validation_lease now =
      release_lease i expired (policy reason) (field "gate" (str "final") end) anything
        (failed_set ToolErrorCategory.policy_denied now)
      >> audit_outcome AuditOutcome.denied i.id
      >> pure expired
  after_gate (admitted d) i validation_lease now = dispatch i d validation_lease now

  if_owned : Bool → GateResult → ℕ → ℕ → ℕ → Exec InvocationState
  unfolding abandon_lost_lease refresh after_gate
  if_owned false gate id validation_lease now = abandon_lost_lease id
  if_owned true gate id validation_lease now =
      refresh id >>= λ i. after_gate gate i validation_lease now

  -- The write of the decision, and what follows it.
  decided : GateResult → ℕ → ℕ → ℕ → ℕ → ℕ → Exec InvocationState
  unfolding if_owned
  decided gate event id lease_id validation_lease now =
      record_final_gate_if_owned id lease_id (gate_decision gate) (gate_reason gate) event now
      >>= λ owned. if_owned owned gate id validation_lease now

  gate_detail : GateResult → ℕ → Fields
  gate_detail gate lease_id = field "gate" (str "final") (
      field "decision" (str (decision_value (gate_decision gate))) (
        field "reason" (str (policy_value (gate_reason gate)))
          (field "lease_id" (int lease_id) end)))

  -- The evaluation is appended before anything is written to the row.
  pub evaluated : GateResult → ToolInvocation → ℕ → Exec ℕ
  unfolding gate_detail
  evaluated gate i lease_id =
      append_event i.id (some i.state) i.state (policy (gate_reason gate)) none
        (gate_detail gate lease_id)

  -- The evaluation, then the write of its decision. Other sessions may commit in between.
  gated : GateResult → (Tables → Tables) → ToolInvocation → ℕ → ℕ → ℕ → Exec InvocationState
  unfolding evaluated decided
  gated gate during_gate i lease_id validation_lease now = evaluated gate i lease_id >>= λ event t.
      decided gate event i.id lease_id validation_lease now (during_gate t)

  claimed_run : (Tables → Tables) → ℕ → ℕ → ℕ → ℕ → Exec InvocationState
  unfolding gated refresh
  claimed_run during_gate id lease_id validation_lease now = refresh id >>= λ i t.
      gated (final_gate w.sha256 w.registry i t now) during_gate i lease_id validation_lease now t

  -- `_run_claimed`: a rollback keeps what the other sessions committed.
  pub run_claimed : (Tables → Tables) → ℕ → ℕ → ℕ → ℕ → Exec InvocationState
  unfolding claimed_run
  run_claimed during_gate id lease_id validation_lease now t =
      settle (during_gate t) (claimed_run during_gate id lease_id validation_lease now t)

  timeout_of : Option ExecutionParameters → ℕ
  timeout_of none = 30 * second
  timeout_of (some p) = p.timeout_seconds

  claim_result : ℕ → Bool → Exec (Option InvocationState)
  unfolding refresh
  claim_result id true = pure none
  claim_result id false = refresh id >>= λ held. pure (some held.state)

  -- The first transaction of `execute_once`: none when the claim is won, and otherwise the state.
  try_claim : ToolInvocation → ℕ → ℕ → Exec (Option InvocationState)
  unfolding claim_result timeout_of
  try_claim i lease_id now =
      if same_state i.state ready
      then claim_for_execution i.id lease_id (now + w.lease_seconds * second)
          (now + timeout_of i.execution_parameters) now
        >>= claim_result i.id
      else pure (some i.state)

  claim_once_ready : ℕ → ℕ → ℕ → Exec (Option InvocationState)
  unfolding try_claim refresh transaction
  claim_once_ready id lease_id now = transaction (refresh id >>= λ i. try_claim i lease_id now)

  go_on :
      (Tables → Tables)
      → (Tables → Tables)
      → ℕ
      → ℕ
      → ℕ
      → ℕ
      → Option InvocationState
      → Exec InvocationState
  unfolding run_claimed
  go_on before_gate during_gate id lease_id validation_lease now (some s) t = pure s t
  go_on before_gate during_gate id lease_id validation_lease now none t =
      run_claimed during_gate id lease_id validation_lease now (before_gate t)

  -- `execute_once`: the claim at `now`, and the rest at `later`.
  pub execute_once :
      (Tables → Tables) → (Tables → Tables) → ℕ → ℕ → ℕ → ℕ → ℕ → Exec InvocationState
  unfolding claim_once_ready go_on
  execute_once before_gate during_gate id lease_id validation_lease now later =
      claim_once_ready id lease_id now
      >>= go_on before_gate during_gate id lease_id validation_lease later

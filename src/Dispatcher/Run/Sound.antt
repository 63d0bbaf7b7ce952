-- ===== src/Dispatcher/Run/Sound.antt =====
-- A worker of src/acop/services/tools/dispatcher.py, from the claim to the end, leaves rows and histories
-- sound, where what other sessions commit meanwhile does.
use cyberwithsteve_acop.Base.{
  ℕ, ◌+◌, ◌*◌, refl, Bool, true, false, Option, none, some, if◌then◌else◌,
}
use cyberwithsteve_acop.Json.{field, end, str}
use cyberwithsteve_acop.Vocabulary.States.{InvocationState, expired, executed, ready, same_state}
use cyberwithsteve_acop.Vocabulary.Reasons.{policy, ToolErrorCategory}
use cyberwithsteve_acop.Contract.{ToolDefinition}
use cyberwithsteve_acop.Store.{
  ToolInvocation, AuditOutcome, AuditSeverity, Tables, pure, ◌>>=◌, ◌>>◌, refresh,
}
use cyberwithsteve_acop.Store.Actions.{
  settle-keeps, bind-keeps, bind-after, branch-keeps, refresh-after, refresh-tables,
  transaction-keeps,
}
use cyberwithsteve_acop.Store.Rows.{found_self}
use cyberwithsteve_acop.State.{
  release_lease, anything, record_final_gate_if_owned, claim_for_execution,
}
use cyberwithsteve_acop.State.Sound.{
  IsSound, same-IsSound, release-IsSound, noop-IsSound, gate-IsSound, claim-IsSound,
}
use cyberwithsteve_acop.Approval.{second}
use cyberwithsteve_acop.Dispatcher.Gate.{
  GateResult, admitted, refused, gate_decision, gate_reason, final_gate,
}
use cyberwithsteve_acop.Dispatcher.Execution.{execute, failed_set}
use cyberwithsteve_acop.Dispatcher.Execution.Sound.{failed_leaves, Out, execute-Left}
use cyberwithsteve_acop.Dispatcher.Validation.{after_execution}
use cyberwithsteve_acop.Dispatcher.Validation.Sound.{after_execution-IsSound}
use cyberwithsteve_acop.Dispatcher.Run.{
  Worker, recorded, audit_outcome, abandon_lost_lease, outcome_of, validated, dispatch, after_gate,
  if_owned, decided, evaluated, gate_detail, gated, claimed_run, run_claimed, timeout_of,
  claim_result, try_claim, claim_once_ready, go_on, execute_once,
}

recorded-IsSound :
    (outcome : AuditOutcome) (severity : AuditSeverity) (id : ℕ) (t : Tables)
    → IsSound t
    → IsSound (recorded outcome severity id t).1
unfolding recorded
recorded-IsSound outcome severity id t h = same-IsSound t _ refl refl refl h

audit-IsSound :
    (outcome : AuditOutcome) (id : ℕ) (t : Tables)
    → IsSound t
    → IsSound (audit_outcome outcome id t).1
unfolding audit_outcome
audit-IsSound outcome id t h = recorded-IsSound outcome _ id t h

abandon-IsSound : (id : ℕ) (t : Tables) → IsSound t → IsSound (abandon_lost_lease id t).1
unfolding abandon_lost_lease
abandon-IsSound id t h =
    bind-keeps IsSound (refresh id)
      (λ i. recorded AuditOutcome.failure AuditSeverity.warning id >> pure i.state) t
      (rw (refresh-tables id t) h)
      (λ i u k.
        bind-keeps IsSound (recorded AuditOutcome.failure AuditSeverity.warning id)
          (λ done. pure i.state) u
          (recorded-IsSound AuditOutcome.failure AuditSeverity.warning id u k) (λ done v l. l))

module _ (w : Worker) where
  validated-IsSound :
      (id : ℕ) (d : ToolDefinition) (vl now : ℕ) (t : Tables)
      → Out id t
      → IsSound t
      → IsSound (validated w id d vl now t).1
  unfolding validated
  validated-IsSound id d vl now t out h =
      refresh-after IsSound id
        (λ held. after_execution (w.resolve_adapter d.adapter_id) held d vl w.lease_seconds now) t h
        (λ i found.
          after_execution-IsSound (w.resolve_adapter d.adapter_id) i d vl w.lease_seconds now t
            (out i found) h)

  dispatch-IsSound :
      (i : ToolInvocation) (d : ToolDefinition) (vl now : ℕ) (t : Tables)
      → IsSound t
      → IsSound (dispatch w i d vl now t).1
  unfolding dispatch
  dispatch-IsSound i d vl now t h =
      let run = execute w.sha256 w.resolve_adapter i d now in
      let left = execute-Left i w.sha256 d now w.resolve_adapter t h in
      let more = λ (s : InvocationState).
        if same_state s executed then validated w i.id d vl now else pure s in
      let audit =
        λ (final : InvocationState). audit_outcome (outcome_of final) i.id >> pure final in
      bind-after IsSound run (λ s. more s >>= audit) t left.0
        (λ s e.
          bind-keeps IsSound (more s) audit (run t).1
            (branch-keeps IsSound (same_state s executed) (validated w i.id d vl now) (pure s)
              (run t).1 (validated-IsSound i.id d vl now (run t).1 (left.1 s e) left.0) left.0)
            (λ final u k.
              bind-keeps IsSound (audit_outcome (outcome_of final) i.id) (λ done. pure final) u
                (audit-IsSound (outcome_of final) i.id u k) (λ done v l. l)))

  gate_result-IsSound :
      (gate : GateResult) (i : ToolInvocation) (vl now : ℕ) (t : Tables)
      → IsSound t
      → IsSound (after_gate w gate i vl now t).1
  unfolding after_gate
  gate_result-IsSound (admitted d) i vl now t h = dispatch-IsSound i d vl now t h
  gate_result-IsSound (refused reason) i vl now t h =
      let set = failed_set ToolErrorCategory.policy_denied now in
      let leave =
        release_lease i expired (policy reason) (field "gate" (str "final") end) anything set in
      bind-keeps IsSound (leave >> audit_outcome AuditOutcome.denied i.id) (λ done. pure expired) t
        (bind-keeps IsSound leave (λ done. audit_outcome AuditOutcome.denied i.id) t
          (release-IsSound i expired (policy reason) _ anything set t refl
            (failed_leaves ToolErrorCategory.policy_denied now) h)
          (λ done u k. audit-IsSound AuditOutcome.denied i.id u k))
        (λ done u k. k)

  owned-IsSound :
      (owned : Bool) (gate : GateResult) (id vl now : ℕ) (t : Tables)
      → IsSound t
      → IsSound (if_owned w owned gate id vl now t).1
  unfolding if_owned
  owned-IsSound false gate id vl now t h = abandon-IsSound id t h
  owned-IsSound true gate id vl now t h =
      refresh-after IsSound id (λ i. after_gate w gate i vl now) t h
        (λ i found. gate_result-IsSound gate i vl now t h)

  decided-IsSound :
      (gate : GateResult) (event id lease_id vl now : ℕ) (t : Tables)
      → IsSound t
      → IsSound (decided w gate event id lease_id vl now t).1
  unfolding decided
  decided-IsSound gate event id lease_id vl now t h =
      bind-keeps IsSound
        (record_final_gate_if_owned id lease_id (gate_decision gate) (gate_reason gate) event now)
        (λ owned. if_owned w owned gate id vl now) t
        (gate-IsSound id lease_id (gate_decision gate) (gate_reason gate) event now t h)
        (λ owned u k. owned-IsSound owned gate id vl now u k)

  module _ (during : Tables → Tables) (others : (t : Tables) → IsSound t → IsSound (during t)) where
    claimed_run-IsSound :
        (id lease_id vl now : ℕ) (t : Tables)
        → IsSound t
        → IsSound (claimed_run w during id lease_id vl now t).1
    unfolding claimed_run gated evaluated
    claimed_run-IsSound id lease_id vl now t h =
        refresh-after IsSound id
          (λ i u. gated w (final_gate w.sha256 w.registry i u now) during i lease_id vl now u) t h
          (λ i found.
            let gate = final_gate w.sha256 w.registry i t now in
            bind-keeps IsSound (evaluated w gate i lease_id)
              (λ event u. decided w gate event i.id lease_id vl now (during u)) t
              (noop-IsSound t h i.id i (found_self id t.invocations i found) i.state
                (policy (gate_reason gate)) none (gate_detail w gate lease_id))
              (λ event u k.
                decided-IsSound gate event i.id lease_id vl now (during u) (others u k)))

    run_claimed-IsSound :
        (id lease_id vl now : ℕ) (t : Tables)
        → IsSound t
        → IsSound (run_claimed w during id lease_id vl now t).1
    unfolding run_claimed
    run_claimed-IsSound id lease_id vl now t h =
        settle-keeps IsSound (during t) (claimed_run w during id lease_id vl now t)
          (claimed_run-IsSound id lease_id vl now t h)
          (same-IsSound (during t) _ refl refl refl (others t h))

  result-IsSound :
      (id : ℕ) (won : Bool) (t : Tables) → IsSound t → IsSound (claim_result w id won t).1
  unfolding claim_result
  result-IsSound id true t h = h
  result-IsSound id false t h =
      refresh-after IsSound id (λ held. pure (some held.state)) t h (λ held found. h)

  try-IsSound :
      (i : ToolInvocation) (lease_id now : ℕ) (t : Tables)
      → IsSound t
      → IsSound (try_claim w i lease_id now t).1
  unfolding try_claim
  try-IsSound i lease_id now t h =
      let expires = now + w.lease_seconds * second in
      let deadline = now + timeout_of w i.execution_parameters in
      let claim = claim_for_execution i.id lease_id expires deadline now in
      branch-keeps IsSound (same_state i.state ready) (claim >>= claim_result w i.id)
        (pure (some i.state)) t
        (bind-keeps IsSound claim (claim_result w i.id) t
          (claim-IsSound i.id lease_id expires deadline now t h)
          (λ won u k. result-IsSound i.id won u k))
        h

  claim_once_ready-IsSound :
      (id lease_id now : ℕ) (t : Tables)
      → IsSound t
      → IsSound (claim_once_ready w id lease_id now t).1
  unfolding claim_once_ready
  claim_once_ready-IsSound id lease_id now t h =
      transaction-keeps IsSound (refresh id >>= λ i. try_claim w i lease_id now) t
        (refresh-after IsSound id (λ i. try_claim w i lease_id now) t h
          (λ i found. try-IsSound i lease_id now t h))
        (same-IsSound t _ refl refl refl h)

  -- A worker that takes up an invocation, whatever becomes of it, leaves every history in agreement with
  -- its row and every lease and gate constraint satisfied, if other sessions do so meanwhile.
  pub execute_once-IsSound :
      (before during : Tables → Tables) (id lease_id vl now later : ℕ) (t : Tables)
      → ((u : Tables) → IsSound u → IsSound (before u))
      → ((u : Tables) → IsSound u → IsSound (during u))
      → IsSound t
      → IsSound (execute_once w before during id lease_id vl now later t).1
  unfolding execute_once
  execute_once-IsSound before during id lease_id vl now later t keeps others h =
      bind-keeps IsSound (claim_once_ready w id lease_id now)
        (go_on w before during id lease_id vl later) t
        (claim_once_ready-IsSound id lease_id now t h) (λ o u k. on_claim o u k)
    where
      on_claim :
          (o : Option InvocationState) (u : Tables)
          → IsSound u
          → IsSound (go_on w before during id lease_id vl later o u).1
      on_claim none u k =
          unfold go_on in
          run_claimed-IsSound during others id lease_id vl later (before u) (keeps u k)
      on_claim (some s) u k = unfold go_on in k

-- ===== src/Dispatcher/Run/Ownership.antt =====
-- Who may call an adapter: the ownership check of `_run_claimed` in
-- src/acop/services/tools/dispatcher.py, under whatever other sessions commit meanwhile.
use cyberwithsteve_acop.Base.{ℕ, ◌≡◌, refl, ◌∙◌, ◌⊎◌, inl, inr, Bool, true, false, some}
use cyberwithsteve_acop.Json.{end, field, str}
use cyberwithsteve_acop.Vocabulary.States.{expired}
use cyberwithsteve_acop.Vocabulary.Reasons.{policy, PolicyReason, ToolErrorCategory}
use cyberwithsteve_acop.Contract.{ToolDefinition}
use cyberwithsteve_acop.Store.{
  ToolInvocation, AuditOutcome, AuditSeverity, Tables, Result, ok, err, pure, ◌>>◌, settle,
  continue, get_invocation, refresh, passes,
}
use cyberwithsteve_acop.Store.Actions.{bind-keeps, refresh-tables}
use cyberwithsteve_acop.State.{
  append_event, owns_lease, release_lease, anything, record_final_gate_if_owned,
}
use cyberwithsteve_acop.State.Steps.{gate_cases, gate_written}
use cyberwithsteve_acop.Dispatcher.Gate.{
  GateResult, admitted, refused, gate_decision, gate_reason, final_gate,
}
use cyberwithsteve_acop.Dispatcher.Gate.Checks.{IsCleared, final_gate_admits_iff}
use cyberwithsteve_acop.Dispatcher.Execution.{failed_set}
use cyberwithsteve_acop.Dispatcher.Execution.Attempts.{release-calls}
use cyberwithsteve_acop.Dispatcher.Run.{
  Worker, recorded, audit_outcome, abandon_lost_lease, after_gate, if_owned, decided, evaluated,
  gated, claimed_run, run_claimed,
}

-- The same adapter calls as before.
abbrev Calls : Tables → Tables → Type 0
Calls t after = after.adapter_calls ≡ t.adapter_calls

refresh-Calls : (id : ℕ) (t : Tables) → Calls t (refresh id t).1
refresh-Calls id t = rw (refresh-tables id t) refl

abandon-Calls : (id : ℕ) (t : Tables) → Calls t (abandon_lost_lease id t).1
unfolding abandon_lost_lease recorded
abandon-Calls id t =
    bind-keeps (Calls t) (refresh id)
      (λ i. recorded AuditOutcome.failure AuditSeverity.warning id >> pure i.state) t
      (refresh-Calls id t) (λ i u h. h)

module _ (w : Worker) where
  refused-Calls :
      (reason : PolicyReason) (i : ToolInvocation) (vl now : ℕ) (t : Tables)
      → Calls t (after_gate w (refused reason) i vl now t).1
  unfolding after_gate audit_outcome recorded
  refused-Calls reason i vl now t =
      bind-keeps (Calls t)
        (release_lease i expired (policy reason) (field "gate" (str "final") end) anything
            (failed_set ToolErrorCategory.policy_denied now)
          >> audit_outcome AuditOutcome.denied i.id)
        (λ done. pure expired) t
        (bind-keeps (Calls t)
          (release_lease i expired (policy reason) (field "gate" (str "final") end) anything
            (failed_set ToolErrorCategory.policy_denied now))
          (λ done. audit_outcome AuditOutcome.denied i.id) t
          (release-calls i expired (policy reason) _ anything _ t) (λ done u h. h))
        (λ done u h. h)

  -- No adapter call, or an admitted gate whose decision was written under the lease.
  abbrev CallsNeedGate : GateResult → ℕ → ℕ → ℕ → Tables → Tables → Type 0
  CallsNeedGate gate id lease now t after =
      Calls t after
      ⊎ ((d : ToolDefinition) × (gate ≡ admitted d)
          × (passes (owns_lease lease now) (get_invocation id t.invocations) ≡ true))

  owned-calls :
      (gate : GateResult) (id lease vl now event : ℕ) (t : Tables)
      → passes (owns_lease lease now) (get_invocation id t.invocations) ≡ true
      → CallsNeedGate gate id lease now t
          (if_owned w true gate id vl now
            (gate_written id lease (gate_decision gate) (gate_reason gate) event now t)).1
  unfolding if_owned
  owned-calls (admitted d) id lease vl now event t owned = inr (d, refl, owned)
  owned-calls (refused reason) id lease vl now event t owned = inl (
      bind-keeps (Calls t) (refresh id) (λ i. after_gate w (refused reason) i vl now) _
        (refresh-Calls id _) (λ i u h. cc (refused-Calls reason i vl now u)))

  decided-calls :
      (gate : GateResult) (event id lease vl now : ℕ) (t : Tables)
      → CallsNeedGate gate id lease now t (decided w gate event id lease vl now t).1
  unfolding decided
  decided-calls gate event id lease vl now t =
      gate_cases id lease (gate_decision gate) (gate_reason gate) event now t
        (λ (x : Result Bool × Tables).
          CallsNeedGate gate id lease now t
            (continue x.0 (λ owned. if_owned w owned gate id vl now) x.1).1)
        (λ lost. inl (unfold if_owned in abandon-Calls id t))
        (λ i found owned. owned-calls gate id lease vl now event t (rw found owned))

  settle-Calls :
      {A : Type 0} (before : Tables) (r : Result A) (after : Tables)
      → Calls after (settle before (r, after)).1
  settle-Calls before (ok a) after = refl
  settle-Calls before (err e) after = refl

  gated-calls :
      (during_gate : Tables → Tables) (gate : GateResult) (i : ToolInvocation) (lease vl now : ℕ)
      (t : Tables)
      → CallsNeedGate gate i.id lease now
          (during_gate (evaluated w gate i lease t).1)
          (gated w gate during_gate i lease vl now t).1
  unfolding gated evaluated append_event
  gated-calls during_gate gate i lease vl now t =
      decided-calls gate t.next_id i.id lease vl now (during_gate (evaluated w gate i lease t).1)

  run-Calls :
      (during_gate : Tables → Tables) (id lease vl now : ℕ) (t : Tables) (i : ToolInvocation)
      → get_invocation id t.invocations ≡ some i
      → let gate = final_gate w.sha256 w.registry i t now in
        Calls
          (gated w gate during_gate i lease vl now t).1
          (run_claimed w during_gate id lease vl now t).1
  unfolding run_claimed claimed_run refresh
  run-Calls during_gate id lease vl now t i found = rw found (
      settle-Calls (during_gate t)
        (gated w (final_gate w.sha256 w.registry i t now) during_gate i lease vl now t).0
        (gated w (final_gate w.sha256 w.registry i t now) during_gate i lease vl now t).1)

  -- A worker that claimed a row and then runs its gate calls an adapter only if, when the decision is
  -- written, the gate had admitted the invocation and the row is still `executing` under this
  -- worker's unexpired lease, whatever other sessions committed while the gate was evaluated.
  pub run_calls_need_lease :
      (during_gate : Tables → Tables) (id lease vl now : ℕ) (t : Tables) (i : ToolInvocation)
      → get_invocation id t.invocations ≡ some i
      → let gate = final_gate w.sha256 w.registry i t now in
        let t' = during_gate (evaluated w gate i lease t).1 in
        ((run_claimed w during_gate id lease vl now t).1.adapter_calls ≡ t'.adapter_calls)
        ⊎ ((d : ToolDefinition) × IsCleared w.sha256 w.registry i t now d
            × (passes (owns_lease lease now) (get_invocation i.id t'.invocations) ≡ true))
  run_calls_need_lease during_gate id lease vl now t i found =
      let gate = final_gate w.sha256 w.registry i t now in
      let same = run-Calls during_gate id lease vl now t i found in
      elim (gated-calls during_gate gate i lease vl now t) [
        | inl none_made ↦ inl (same ∙ none_made)
        | inr (d, cleared, owned) ↦
            inr (d, (final_gate_admits_iff w.sha256 w.registry i t now d).0 cleared, owned)
      ]

  abandoned :
      (gate : GateResult) (event id lease vl now : ℕ) (t : Tables) (j : ToolInvocation)
      → get_invocation id t.invocations ≡ some j
      → owns_lease lease now j ≡ false
      → decided w gate event id lease vl now t
        ≡ (ok j.state, (recorded AuditOutcome.failure AuditSeverity.warning id t).1)
  unfolding decided record_final_gate_if_owned if_owned abandon_lost_lease refresh recorded
  abandoned gate event id lease vl now t j found lapsed = rw found (rw lapsed (rw found refl))

  -- A worker whose lease is gone when its gate's decision is to be written stands down: it returns
  -- the state that the row has by then, and adds one audit record to what the evaluation and the
  -- other sessions left. It writes no row and calls no adapter.
  pub lost_lease_stands_down :
      (during_gate : Tables → Tables) (id lease vl now : ℕ) (t : Tables) (i j : ToolInvocation)
      → get_invocation id t.invocations ≡ some i
      → let gate = final_gate w.sha256 w.registry i t now in
        let t' = during_gate (evaluated w gate i lease t).1 in
        get_invocation i.id t'.invocations ≡ some j
        → owns_lease lease now j ≡ false
        → run_claimed w during_gate id lease vl now t
          ≡ (ok j.state, (recorded AuditOutcome.failure AuditSeverity.warning i.id t').1)
  unfolding run_claimed claimed_run refresh gated append_event
  lost_lease_stands_down during_gate id lease vl now t i j found taken lapsed =
      let gate = final_gate w.sha256 w.registry i t now in
      let t' = during_gate (evaluated w gate i lease t).1 in
      rw found (rw (abandoned gate t.next_id i.id lease vl now t' j taken lapsed) refl)

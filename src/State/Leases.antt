-- ===== src/State/Leases.antt =====
-- The CHECK constraints `lease_state`, `lease_expiry` and the final-gate ones of
-- src/acop/models/tool.py: every operation of src/acop/services/tools/state.py keeps them.
use cyberwithsteve_acop.Base.{
  ℕ, ◌≡◌, refl, sym, ap, ◌∙◌, String, Bool, false, Option, none, is_some,
}
use cyberwithsteve_acop.Json.{Fields}
use cyberwithsteve_acop.Vocabulary.States.{InvocationState, is_in_flight}
use cyberwithsteve_acop.Vocabulary.Reasons.{Reason, GateDecision, PolicyReason}
use cyberwithsteve_acop.Store.{ToolInvocation, InvocationColumns, Tables, Assignment}
use cyberwithsteve_acop.Store.Rows.{EachRow, update-EachRow}
use cyberwithsteve_acop.State.History.Operations.{cas_test-state}
use cyberwithsteve_acop.State.{
  transition, cas_set, claim_for_execution, claim_set, record_final_gate_if_owned, gate_set,
  append_event, release_lease, release_set,
}
use cyberwithsteve_acop.State.Steps.{transition_cases, claim_cases, gate_cases}

-- A lease and its expiry stand on a row exactly while it is in flight, and a gate decision has its
-- time and its event.
pub record IsChecked (c : InvocationColumns) : Type 0 where
  pub lease_state : is_in_flight c.state ≡ is_some c.executor_lease_id
  pub lease_expiry : is_in_flight c.state ≡ is_some c.lease_expires_at
  pub final_gate_timing : is_some c.final_gate_decision ≡ is_some c.final_gate_at
  pub final_gate_provenance : is_some c.final_gate_decision ≡ is_some c.final_gate_event_id

abbrev pub AllChecked : Tables → Type 0
AllChecked t = EachRow (λ i. IsChecked i.columns) t.invocations

-- Columns that leave the lease and the gate alone.
pub record LeavesLease (f : Assignment) : Type 0 where
  pub same_lease : (c : InvocationColumns) → (f c).executor_lease_id ≡ c.executor_lease_id
  pub same_expiry : (c : InvocationColumns) → (f c).lease_expires_at ≡ c.lease_expires_at
  pub same_decision : (c : InvocationColumns) → (f c).final_gate_decision ≡ c.final_gate_decision
  pub same_time : (c : InvocationColumns) → (f c).final_gate_at ≡ c.final_gate_at
  pub same_event : (c : InvocationColumns) → (f c).final_gate_event_id ≡ c.final_gate_event_id

released :
    (to_state : InvocationState) (columns : Assignment) (c : InvocationColumns)
    → is_in_flight to_state ≡ false
    → LeavesLease columns
    → IsChecked c
    → IsChecked (cas_set to_state (release_set columns) c)
unfolding cas_set release_set
released to_state columns c out k h =
    let d = record c { executor_lease_id = none; lease_expires_at = none } in
    record {
      lease_state = rw (out, k.same_lease d);
      lease_expiry = rw (out, k.same_expiry d);
      final_gate_timing = rw (k.same_decision d, k.same_time d) h.final_gate_timing;
      final_gate_provenance = rw (k.same_decision d, k.same_event d) h.final_gate_provenance;
    }

-- Leaving for a state that is not in flight by `release_lease` keeps every row's constraints.
pub release-AllChecked :
    (held : ToolInvocation) (to_state : InvocationState) (reason : Reason) (detail : Fields)
    (expected : ToolInvocation → Bool) (columns : Assignment) (t : Tables)
    → AllChecked t
    → is_in_flight to_state ≡ false
    → LeavesLease columns
    → AllChecked (release_lease held to_state reason detail expected columns t).1
unfolding release_lease append_event
release-AllChecked held to_state reason detail expected columns t h out k =
    transition_cases held to_state reason none detail expected (release_set columns) t
      (λ x. AllChecked x.1) (λ no_way. h) (λ gone. h) (λ i found failed. h)
      (λ i legal found passed.
        update-EachRow (λ y. IsChecked y.columns) held.id _ _ t.invocations i found h
          (λ won. released to_state columns i.columns out k (h held.id i found)))

pub moved :
    (from to_state : InvocationState) (columns : Assignment) (c : InvocationColumns)
    → c.state ≡ from
    → is_in_flight from ≡ false
    → is_in_flight to_state ≡ false
    → LeavesLease columns
    → IsChecked c
    → IsChecked (cas_set to_state columns c)
unfolding cas_set
moved from to_state columns c e idle out k h = record {
  lease_state = rw (out, k.same_lease c) (sym idle ∙ ap is_in_flight (sym e) ∙ h.lease_state);
  lease_expiry = rw (out, k.same_expiry c) (sym idle ∙ ap is_in_flight (sym e) ∙ h.lease_expiry);
  final_gate_timing = rw (k.same_decision c, k.same_time c) h.final_gate_timing;
  final_gate_provenance = rw (k.same_decision c, k.same_event c) h.final_gate_provenance;
}

-- A plain transition between states that are not in flight keeps them too.
pub transition-AllChecked :
    (held : ToolInvocation) (to_state : InvocationState) (reason : Reason) (actor : Option String)
    (detail : Fields) (expected : ToolInvocation → Bool) (columns : Assignment) (t : Tables)
    → AllChecked t
    → is_in_flight held.state ≡ false
    → is_in_flight to_state ≡ false
    → LeavesLease columns
    → AllChecked (transition held to_state reason actor detail expected columns t).1
unfolding append_event
transition-AllChecked held to_state reason actor detail expected columns t h idle out k =
    transition_cases held to_state reason actor detail expected columns t (λ x. AllChecked x.1)
      (λ no_way. h) (λ gone. h) (λ i found failed. h)
      (λ i legal found passed.
        update-EachRow (λ y. IsChecked y.columns) held.id _ _ t.invocations i found h
          (λ won.
            moved held.state to_state columns i.columns
              (cas_test-state held.state expected i passed).0 idle out k (h held.id i found)))

claimed_row :
    (lease expires deadline now : ℕ) (c : InvocationColumns)
    → IsChecked c
    → IsChecked (claim_set lease expires deadline now c)
unfolding claim_set
claimed_row lease expires deadline now c h = record {
  lease_state = refl;
  lease_expiry = refl;
  final_gate_timing = h.final_gate_timing;
  final_gate_provenance = h.final_gate_provenance;
}

-- A claim keeps them: the lease is written with the state that needs it.
pub claim-AllChecked :
    (id lease expires deadline now : ℕ) (t : Tables)
    → AllChecked t
    → AllChecked (claim_for_execution id lease expires deadline now t).1
unfolding append_event
claim-AllChecked id lease expires deadline now t h =
    claim_cases id lease expires deadline now t (λ x. AllChecked x.1) (λ lost. h)
      (λ i found is_it.
        update-EachRow (λ y. IsChecked y.columns) id _ _ t.invocations i found h
          (λ won. claimed_row lease expires deadline now i.columns (h id i found)))

gated_row :
    (d : GateDecision) (r : PolicyReason) (event now : ℕ) (c : InvocationColumns)
    → IsChecked c
    → IsChecked (gate_set d r event now c)
unfolding gate_set
gated_row d r event now c h = record {
  lease_state = h.lease_state;
  lease_expiry = h.lease_expiry;
  final_gate_timing = refl;
  final_gate_provenance = refl;
}

-- And so does the final gate's write: decision, time and event come together.
pub gate-AllChecked :
    (id lease : ℕ) (d : GateDecision) (r : PolicyReason) (event now : ℕ) (t : Tables)
    → AllChecked t
    → AllChecked (record_final_gate_if_owned id lease d r event now t).1
gate-AllChecked id lease d r event now t h =
    gate_cases id lease d r event now t (λ x. AllChecked x.1) (λ lost. h)
      (λ i found owned.
        update-EachRow (λ y. IsChecked y.columns) id _ _ t.invocations i found h
          (λ won. gated_row d r event now i.columns (h id i found)))

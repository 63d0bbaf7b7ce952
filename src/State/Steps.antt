-- ===== src/State/Steps.antt =====
-- The operations of src/acop/services/tools/state.py by cases: what each branch gives, as a rule
-- for whatever is to be shown of the result.
use cyberwithsteve_acop.Base.{
  ℕ, ◌≡◌, refl, String, Bool, true, false, Option, none, some, Bool-cases, inl, inr,
}
use cyberwithsteve_acop.Json.{Fields, field, end, int}
use cyberwithsteve_acop.Vocabulary.States.{InvocationState, ready, executing, is_legal_transition}
use cyberwithsteve_acop.Vocabulary.Reasons.{Reason, GateDecision, PolicyReason, policy}
use cyberwithsteve_acop.Store.{
  ToolInvocation, Tables, Result, ok, err, invalid_state_transition, stale_transition, lookup_error,
  Assignment, get_invocation, update_where, passes,
}
use cyberwithsteve_acop.State.{
  transition, cas_test, cas_set, stale_detail, claim_for_execution, is_ready, claim_set,
  record_final_gate_if_owned, owns_lease, gate_set, append_event,
}

module _ (held : ToolInvocation) (to_state : InvocationState) (reason : Reason)
    (actor : Option String) (detail : Fields) (expected : ToolInvocation → Bool)
    (columns : Assignment) (t : Tables) where
  abbrev transition_result : Result (Unit {0}) × Tables
  transition_result = transition held to_state reason actor detail expected columns t

  abbrev pub transition_written : Tables
  transition_written = record t {
    invocations =
        update_where held.id (cas_test held.state expected) (cas_set to_state columns)
          t.invocations;
  }

  transition_illegal :
      is_legal_transition held.state to_state ≡ false
      → transition_result ≡ (err invalid_state_transition, t)
  unfolding transition
  transition_illegal no_way = rw no_way

  transition_missing :
      is_legal_transition held.state to_state ≡ true
      → get_invocation held.id t.invocations ≡ none
      → transition_result ≡ (err lookup_error, t)
  unfolding transition
  transition_missing legal gone = rw legal (rw gone)

  transition_lost :
      (i : ToolInvocation)
      → is_legal_transition held.state to_state ≡ true
      → get_invocation held.id t.invocations ≡ some i
      → cas_test held.state expected i ≡ false
      → transition_result ≡ (
        err stale_transition,
        (append_event held.id
            (some i.state)
            i.state
            reason
            actor
            (stale_detail held.state to_state)
            t).1,
      )
  unfolding transition
  transition_lost i legal found failed = rw legal (rw found (rw failed))

  pub transition_won :
      (i : ToolInvocation)
      → is_legal_transition held.state to_state ≡ true
      → get_invocation held.id t.invocations ≡ some i
      → cas_test held.state expected i ≡ true
      → transition_result ≡ (
        ok tt,
        (append_event held.id (some held.state) to_state reason actor detail transition_written).1,
      )
  unfolding transition
  transition_won i legal found passed = rw legal (rw found (rw passed))

  module _ {ℓ} (P : Result (Unit {0}) × Tables → Type ℓ)
      (illegal : is_legal_transition held.state to_state ≡ false
        → P (err invalid_state_transition, t))
      (missing : get_invocation held.id t.invocations ≡ none → P (err lookup_error, t))
      (lost : (i : ToolInvocation)
        → get_invocation held.id t.invocations ≡ some i
        → cas_test held.state expected i ≡ false
        → P (
          err stale_transition,
          (append_event held.id
              (some i.state)
              i.state
              reason
              actor
              (stale_detail held.state to_state)
              t).1,
        ))
      (won : (i : ToolInvocation)
        → is_legal_transition held.state to_state ≡ true
        → get_invocation held.id t.invocations ≡ some i
        → cas_test held.state expected i ≡ true
        → P (
          ok tt,
          (append_event held.id
              (some held.state)
              to_state
              reason
              actor
              detail
              transition_written).1,
        )) where
    on_row :
        (o : Option ToolInvocation)
        → is_legal_transition held.state to_state ≡ true
        → get_invocation held.id t.invocations ≡ o
        → P transition_result
    on_row none legal gone = rw (transition_missing legal gone) (missing gone)
    on_row (some i) legal found = elim (Bool-cases (cas_test held.state expected i)) [
      | inl passed ↦ rw (transition_won i legal found passed) (won i legal found passed)
      | inr failed ↦ rw (transition_lost i legal found failed) (lost i found failed)
    ]

    pub transition_cases : P transition_result
    transition_cases = elim (Bool-cases (is_legal_transition held.state to_state)) [
      | inl legal ↦ on_row (get_invocation held.id t.invocations) legal refl
      | inr no_way ↦ rw (transition_illegal no_way) (illegal no_way)
    ]

module _ (id lease expires deadline now : ℕ) (t : Tables) where
  abbrev claim_result : Result Bool × Tables
  claim_result = claim_for_execution id lease expires deadline now t

  abbrev pub claim_written : Tables
  claim_written = record t {
    invocations = update_where id is_ready (claim_set lease expires deadline now) t.invocations;
  }

  module _ {ℓ} (P : Result Bool × Tables → Type ℓ)
      (lost : passes is_ready (get_invocation id t.invocations) ≡ false → P (ok false, t))
      (won : (i : ToolInvocation)
        → get_invocation id t.invocations ≡ some i
        → is_ready i ≡ true
        → P (
          ok true,
          (append_event id
              (some ready)
              executing
              (policy PolicyReason.allowed)
              none
              (field "lease_id" (int lease) end)
              claim_written).1,
        )) where
    claimed_or_not :
        (o : Option ToolInvocation) → get_invocation id t.invocations ≡ o → P claim_result
    unfolding claim_for_execution
    claimed_or_not none gone = rw gone (lost (rw gone))
    claimed_or_not (some i) found = elim (Bool-cases (is_ready i)) [
      | inl is_it ↦ rw found (rw is_it (won i found is_it))
      | inr not_it ↦ rw found (rw not_it (lost (rw found not_it)))
    ]

    pub claim_cases : P claim_result
    claim_cases = claimed_or_not (get_invocation id t.invocations) refl

module _ (id lease : ℕ) (d : GateDecision) (r : PolicyReason) (event now : ℕ) (t : Tables) where
  abbrev pub gate_written : Tables
  gate_written = record t {
    invocations = update_where id (owns_lease lease now) (gate_set d r event now) t.invocations;
  }

  module _ {ℓ} (P : Result Bool × Tables → Type ℓ)
      (lost : passes (owns_lease lease now) (get_invocation id t.invocations) ≡ false
        → P (ok false, t))
      (won : (i : ToolInvocation)
        → get_invocation id t.invocations ≡ some i
        → owns_lease lease now i ≡ true
        → P (ok true, gate_written)) where
    owned_or_not :
        (o : Option ToolInvocation)
        → get_invocation id t.invocations ≡ o
        → P (record_final_gate_if_owned id lease d r event now t)
    unfolding record_final_gate_if_owned
    owned_or_not none gone = rw gone (lost (rw gone))
    owned_or_not (some i) found = elim (Bool-cases (owns_lease lease now i)) [
      | inl owned ↦ rw found (rw owned (won i found owned))
      | inr lapsed ↦ rw found (rw lapsed (lost (rw found lapsed)))
    ]

    pub gate_cases : P (record_final_gate_if_owned id lease d r event now t)
    gate_cases = owned_or_not (get_invocation id t.invocations) refl

-- ===== src/State/History/Operations.antt =====
-- Every operation of src/acop/services/tools/state.py keeps each invocation's history in agreement
-- with its row.
use cyberwithsteve_acop.Base.{
  ℕ, ◌≡◌, refl, sym, subst, String, Bool, true, false, ◌&&◌, Option, none, some,
}
use cyberwithsteve_acop.Json.{Fields, field, end, int}
use cyberwithsteve_acop.Vocabulary.States.{InvocationState, ready, executing, is_legal_transition}
use cyberwithsteve_acop.Vocabulary.States.Machine.{same_state_iff}
use cyberwithsteve_acop.Vocabulary.Reasons.{Reason, GateDecision, PolicyReason, policy}
use cyberwithsteve_acop.Store.{ToolInvocation, Tables, Assignment}
use cyberwithsteve_acop.State.{
  transition, cas_test, cas_set, claim_for_execution, is_ready, claim_set,
  record_final_gate_if_owned, owns_lease, gate_set, append_event,
}
use cyberwithsteve_acop.State.Steps.{
  transition_cases, claim_cases, gate_cases, transition_written, claim_written,
}
use cyberwithsteve_acop.State.History.Replay.{
  HasHistory, noop-HasHistory, columns-HasHistory, move-HasHistory,
}

and_true : (a b : Bool) → (a && b) ≡ true → (a ≡ true) × (b ≡ true)
and_true true true h = (refl, refl)
and_true true false h = cc
and_true false b h = cc

ready_executes : is_legal_transition ready executing ≡ true
unfolding is_legal_transition
ready_executes = refl

-- What a passed compare-and-set says of the row.
pub cas_test-state :
    (s : InvocationState) (expected : ToolInvocation → Bool) (i : ToolInvocation)
    → cas_test s expected i ≡ true
    → (i.state ≡ s) × (expected i ≡ true)
unfolding cas_test
cas_test-state s expected i h =
    ((same_state_iff i.state s).0 (and_true _ _ h).0, (and_true _ _ h).1)

module _ (held : ToolInvocation) (to_state : InvocationState) (reason : Reason)
    (actor : Option String) (detail : Fields) (expected : ToolInvocation → Bool)
    (columns : Assignment) (t : Tables) (h : HasHistory t) where
  -- Whatever a transition is asked and whatever becomes of it, the history of every invocation
  -- goes on agreeing with its row.
  pub transition-HasHistory :
      HasHistory (transition held to_state reason actor detail expected columns t).1
  unfolding cas_test cas_set
  transition-HasHistory =
      transition_cases held to_state reason actor detail expected columns t (λ x. HasHistory x.1)
        (λ no_way. h) (λ gone. h)
        (λ i found failed. noop-HasHistory t h held.id i found i.state reason actor _)
        (λ i legal found passed.
          let from_row = (cas_test-state held.state expected i passed).0 in
          subst
            (λ s.
              HasHistory
                (append_event held.id (some s) to_state reason actor detail
                  (transition_written held to_state reason actor detail expected columns t)).1)
            from_row
            (move-HasHistory t h held.id i found _ _ to_state reason actor detail passed
              (subst (λ s. is_legal_transition s to_state ≡ true) (sym from_row) legal) refl))

-- So does a claim, won or lost.
pub claim-HasHistory :
    (id lease expires deadline now : ℕ) (t : Tables)
    → HasHistory t
    → HasHistory (claim_for_execution id lease expires deadline now t).1
unfolding is_ready claim_set
claim-HasHistory id lease expires deadline now t h =
    claim_cases id lease expires deadline now t (λ x. HasHistory x.1) (λ lost. h)
      (λ i found is_it.
        let from_row = (same_state_iff i.state ready).0 is_it in
        subst
          (λ s.
            HasHistory
              (append_event id (some s) executing (policy PolicyReason.allowed) none
                (field "lease_id" (int lease) end)
                (claim_written id lease expires deadline now t)).1)
          from_row
          (move-HasHistory t h id i found _ _ executing _ none _ is_it
            (subst (λ s. is_legal_transition s executing ≡ true) (sym from_row) ready_executes)
            refl))

-- The final gate's write moves nothing.
pub gate-HasHistory :
    (id lease : ℕ) (d : GateDecision) (r : PolicyReason) (event now : ℕ) (t : Tables)
    → HasHistory t
    → HasHistory (record_final_gate_if_owned id lease d r event now t).1
unfolding gate_set
gate-HasHistory id lease d r event now t h =
    gate_cases id lease d r event now t (λ x. HasHistory x.1) (λ lost. h)
      (λ i found owned.
        columns-HasHistory t h id i found (owns_lease lease now) (gate_set d r event now)
          (λ c. refl))

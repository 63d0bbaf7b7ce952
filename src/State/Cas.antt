-- ===== src/State/Cas.antt =====
-- The compare-and-set of src/acop/services/tools/state.py: what winning and losing write.
use cyberwithsteve_acop.Base.{
  ◌&&◌, ◌++◌, [], ◌∷◌, ==_iff, ◌<◌, same_number, ◌↔◌, ℕ, ◌≡◌, refl, ap, ◌⊎◌, inl, inr, String, Bool,
  true, false, Option, none, some, arith, ◌==◌,
}
use cyberwithsteve_acop.Json.{Fields}
use cyberwithsteve_acop.Vocabulary.States.{InvocationState, executing, is_legal_transition}
use cyberwithsteve_acop.Vocabulary.Reasons.{GateDecision, PolicyReason, Reason}
use cyberwithsteve_acop.Store.{
  ToolInvocation, Tables, invalid_state_transition, stale_transition, lookup_error, Result, ok, err,
  Assignment, get_invocation, passes,
}
use cyberwithsteve_acop.Vocabulary.States.Machine.{same_state_iff}
use cyberwithsteve_acop.Store.Rows.{get-update, get-update_self}
use cyberwithsteve_acop.State.Steps.{transition_cases, transition_written, gate_cases}
use cyberwithsteve_acop.State.{
  ToolInvocationEvent, expires_after, append_event, stale_detail, transition, cas_test, cas_set,
  record_final_gate_if_owned, owns_lease, gate_set,
}

and_iff : {a b : Bool} → ((a && b) ≡ true) ↔ ((a ≡ true) × (b ≡ true))
and_iff {a = true} = (λ h. (refl, h), λ h. h.1)
and_iff {a = false} = (λ h. cc, λ h. h.0)

same_number-some : (o : Option ℕ) (n : ℕ) → same_number o (some n) ≡ true → o ≡ some n
same_number-some none n h = cc
same_number-some (some m) n h = ap some ((==_iff m n).0 h)

lasts :
    (now : ℕ) (o : Option ℕ)
    → expires_after now o ≡ true
    → (expires : ℕ) × (o ≡ some expires) × (now < expires)
lasts now none h = cc
lasts now (some expires) h = (expires, refl, ground arith)

-- Passing the test of a compare-and-set, in so many words.
cas_test_iff :
    (source : InvocationState) (expected : ToolInvocation → Bool) (i : ToolInvocation)
    → (cas_test source expected i ≡ true) ↔ ((i.state ≡ source) × (expected i ≡ true))
unfolding cas_test
cas_test_iff source expected i = (
  λ h. ((same_state_iff i.state source).0 (and_iff.0 h).0, (and_iff.0 h).1),
  λ h. and_iff.1 ((same_state_iff i.state source).1 h.0, h.1),
)

module _ (held : ToolInvocation) (to_state : InvocationState) (reason : Reason)
    (actor : Option String) (detail : Fields) (expected : ToolInvocation → Bool)
    (columns : Assignment) (t : Tables) where
  -- One event more, on the invocation, from one state to the other.
  abbrev OneEvent : InvocationState → InvocationState → Tables → Type 0
  OneEvent from to after =
      (e : ToolInvocationEvent) × (after.events ≡ t.events ++ e ∷ [])
      × (e.invocation_id ≡ held.id)
      × (e.from_state ≡ some from)
      × (e.to_state ≡ to)

  -- The row is as the caller held it and as `expected`.
  abbrev Fits : ToolInvocation → Type 0
  Fits i = (i.state ≡ held.state) × (expected i ≡ true)

  -- What a transition leaves, by its result.
  abbrev pub Outcome : Result (Unit {0}) → Tables → Type 0
  Outcome (ok _) after =
      (is_legal_transition held.state to_state ≡ true)
      × (i : ToolInvocation) × (get_invocation held.id t.invocations ≡ some i)
      × Fits i
      × (get_invocation held.id after.invocations
          ≡ some (record i { columns = record (columns i.columns) { state = to_state } }))
      × OneEvent held.state to_state after
  Outcome (err e) after =
      (after.invocations ≡ t.invocations)
      × (((e ≡ invalid_state_transition)
            × (is_legal_transition held.state to_state ≡ false)
            × (after ≡ t))
          ⊎ ((e ≡ stale_transition)
              × (i : ToolInvocation) × (get_invocation held.id t.invocations ≡ some i)
              × (¬ Fits i)
              × OneEvent i.state i.state after)
          ⊎ ((e ≡ lookup_error) × (get_invocation held.id t.invocations ≡ none) × (after ≡ t)))

  won-Outcome :
      (i : ToolInvocation)
      → is_legal_transition held.state to_state ≡ true
      → get_invocation held.id t.invocations ≡ some i
      → cas_test held.state expected i ≡ true
      → Outcome
          (ok tt)
          (append_event held.id
            (some held.state)
            to_state
            reason
            actor
            detail
            (transition_written held to_state reason actor detail expected columns t)).1
  unfolding append_event cas_set
  won-Outcome i legal found passed = (
    legal,
    i,
    found,
    (cas_test_iff held.state expected i).0 passed,
    get-update_self held.id _ _ t.invocations i found passed,
    (_, refl, refl, refl, refl),
  )

  lost-Outcome :
      (i : ToolInvocation)
      → get_invocation held.id t.invocations ≡ some i
      → cas_test held.state expected i ≡ false
      → Outcome
          (err stale_transition)
          (append_event held.id
            (some i.state)
            i.state
            reason
            actor
            (stale_detail held.state to_state)
            t).1
  unfolding append_event
  lost-Outcome i found failed = (
    refl,
    inr (
        inl (
          refl,
          i,
          found,
          (λ h. cc (failed, (cas_test_iff held.state expected i).1 h)),
          (_, refl, refl, refl, refl),
        )),
  )

  -- Whatever its result, a transition leaves every other row alone.
  transition_other_rows :
      (j : ℕ)
      → (held.id == j) ≡ false
      → get_invocation j
          (transition held to_state reason actor detail expected columns t).1.invocations
        ≡ get_invocation j t.invocations
  unfolding transition
  transition_other_rows j h = ground (
    arith,
    get-update held.id j (cas_test held.state expected) (cas_set to_state columns) t.invocations,
  )

  -- A transition that returns is legal, found the row in the state that the caller held and as
  -- `expected`, wrote the new state and columns to it, and appended one event, of that move. One
  -- that raises wrote no row: either the move is not in the table and nothing at all was written,
  -- or the row is in another state or not as `expected`, and one event was appended that moves
  -- nothing, or the row is gone and nothing was written. No other row is touched.
  pub transition-Outcome :
      Outcome
        (transition held to_state reason actor detail expected columns t).0
        (transition held to_state reason actor detail expected columns t).1
      × ((j : ℕ)
          → (held.id == j) ≡ false
          → get_invocation j
              (transition held to_state reason actor detail expected columns t).1.invocations
            ≡ get_invocation j t.invocations)
  transition-Outcome = (
    transition_cases held to_state reason actor detail expected columns t (λ x. Outcome x.0 x.1)
        (λ no_way. (refl, inl (refl, no_way, refl))) (λ gone. (refl, inr (inr (refl, gone, refl))))
        lost-Outcome won-Outcome,
    transition_other_rows,
  )

-- The row is executing under this lease, which has not run out.
abbrev pub Owned : ℕ → ℕ → ToolInvocation → Type 0
Owned lease now i =
    (i.state ≡ executing)
    × (i.executor_lease_id ≡ some lease)
    × (expires : ℕ) × (i.lease_expires_at ≡ some expires)
    × (now < expires)

owns_lease_iff :
    (lease now : ℕ) (i : ToolInvocation) → (owns_lease lease now i ≡ true) ↔ Owned lease now i
unfolding owns_lease
owns_lease_iff lease now i = (
  λ h.
      let (both, live) = and_iff.0 h in
      let (state, own) = and_iff.0 both in
      let (expires, when, sooner) = lasts now i.lease_expires_at live in
      (
        (same_state_iff i.state executing).0 state,
        same_number-some i.executor_lease_id lease own,
        expires,
        when,
        sooner,
      ),
  λ h.
      let (state, own, expires, when, sooner) = h in
      let held : same_number i.executor_lease_id (some lease) ≡ true =
        rw own ((==_iff lease lease).1 refl) in
      let live : expires_after now i.lease_expires_at ≡ true = rw when (ground arith) in
      rw ((same_state_iff i.state executing).1 state) (rw held live),
)

-- What recording the gate's decision leaves, by its result.
abbrev pub Gated :
    ℕ → ℕ → GateDecision → PolicyReason → ℕ → ℕ → Tables → Result Bool → Tables → Type 0
Gated id lease d r event now t (ok true) after =
    (i : ToolInvocation) × (get_invocation id t.invocations ≡ some i)
    × Owned lease now i
    × (get_invocation id after.invocations
        ≡ some (record i {
          columns = record i.columns {
            final_gate_decision = some d;
            final_gate_reason = some r;
            final_gate_at = some now;
            final_gate_event_id = some event;
          };
        }))
    × (after.events ≡ t.events)
Gated id lease d r event now t (ok false) after =
    (after ≡ t)
    × ((i : ToolInvocation) → get_invocation id t.invocations ≡ some i → ¬ Owned lease now i)
Gated id lease d r event now t (err e) after = ⊥

gate_other_rows :
    (id lease : ℕ) (d : GateDecision) (r : PolicyReason) (event now : ℕ) (t : Tables) (j : ℕ)
    → (id == j) ≡ false
    → get_invocation j (record_final_gate_if_owned id lease d r event now t).1.invocations
      ≡ get_invocation j t.invocations
unfolding record_final_gate_if_owned
gate_other_rows id lease d r event now t j ne =
    ground (arith, get-update id j (owns_lease lease now) (gate_set d r event now) t.invocations)

-- The final gate's decision is written exactly when the row is `executing` under this very lease
-- and the lease has not run out; otherwise nothing is written. No other row is touched, of this
-- one only the four columns of the gate, and no event.
pub final_gate_outcome :
    (id lease : ℕ) (d : GateDecision) (r : PolicyReason) (event now : ℕ) (t : Tables)
    → let after = record_final_gate_if_owned id lease d r event now t in
      Gated id lease d r event now t after.0 after.1
      × ((j : ℕ)
          → (id == j) ≡ false
          → get_invocation j after.1.invocations ≡ get_invocation j t.invocations)
unfolding gate_set
final_gate_outcome id lease d r event now t = (
  gate_cases id lease d r event now t (λ x. Gated id lease d r event now t x.0 x.1)
      (λ lost. (
        refl,
        λ i found own.
            cc (ap (passes (owns_lease lease now)) found, lost, (owns_lease_iff lease now i).1 own),
      ))
      (λ i found owned. (
        i,
        found,
        (owns_lease_iff lease now i).0 owned,
        get-update_self id _ _ t.invocations i found owned,
        refl,
      )),
  gate_other_rows id lease d r event now t,
)

-- ===== src/State/History/Single.antt =====
-- `claim_for_execution` of src/acop/services/tools/state.py, on the record: where the histories agree with the
-- rows, a claim wins only if none is on record, and puts one there.
use cyberwithsteve_acop.Base.{suc, ℕ, ◌≤◌, ◌≡◌, refl, ap, Bool, true, false, some, arith, ==_iff}
use cyberwithsteve_acop.Vocabulary.States.{ready, executing}
use cyberwithsteve_acop.Vocabulary.States.Machine.{same_state_iff}
use cyberwithsteve_acop.Store.{err, ToolInvocation, Tables, Result, ok, get_invocation}
use cyberwithsteve_acop.State.{claim_for_execution, is_ready, append_event}
use cyberwithsteve_acop.State.Steps.{claim_cases}
use cyberwithsteve_acop.State.History.Replay.{HasHistory}
use cyberwithsteve_acop.State.History.Claims.{entries, entries-append, replay-claims}

module _ (t : Tables) (h : HasHistory t) (id : ℕ) (i : ToolInvocation)
    (found : get_invocation id t.invocations ≡ some i) where
  ready_unclaimed : is_ready i ≡ true → entries id executing t.events ≡ 0
  unfolding is_ready
  ready_unclaimed is_it =
      (replay-claims id t.events i.state (h.agrees id i found)).0
        (rw ((same_state_iff i.state ready).0 is_it) refl)

  -- What a claim leaves, by its result.
  abbrev pub Single : Result Bool → Tables → Type 0
  Single (ok true) after =
      (entries id executing t.events ≡ 0) × (entries id executing after.events ≡ 1)
  Single r after = (r ≡ ok false) × (after ≡ t)

  pub claim-Single :
      (lease expires deadline now : ℕ)
      → Single
          (claim_for_execution id lease expires deadline now t).0
          (claim_for_execution id lease expires deadline now t).1
  unfolding append_event
  claim-Single lease expires deadline now =
      claim_cases id lease expires deadline now t (λ x. Single x.0 x.1) (λ lost. (refl, refl))
        (λ j there is_it.
          let same : j ≡ i = cc (there, found) in
          let none_yet = ready_unclaimed (rw same at is_it) in
          (none_yet, rw entries-append (rw ((==_iff id id).1 refl) (ap suc none_yet))))

  claim_recorded :
      (x : Result Bool × Tables)
      → Single x.0 x.1
      → x.0 ≡ ok true
      → (entries id executing t.events ≡ 0) × (entries id executing x.1.events ≡ 1)
  claim_recorded (ok true, u) s won = s
  claim_recorded (ok false, u) s won = cc
  claim_recorded (err e, u) s won = cc

  -- A claim that wins is the first on record.
  pub won_claim :
      (lease expires deadline now : ℕ)
      → (claim_for_execution id lease expires deadline now t).0 ≡ ok true
      → (entries id executing t.events ≡ 0)
        × (entries id executing (claim_for_execution id lease expires deadline now t).1.events ≡ 1)
  won_claim lease expires deadline now =
      claim_recorded (claim_for_execution id lease expires deadline now t)
        (claim-Single lease expires deadline now)

  refused_again :
      (x : Result Bool × Tables)
      → Single x.0 x.1
      → 1 ≤ entries id executing t.events
      → x ≡ (ok false, t)
  refused_again (ok true, u) s one = absurd (omega (arith, s.0))
  refused_again (ok false, u) s one = ap (λ v. (ok false, v)) s.1
  refused_again (err e, u) s one = cc (s.0)

  -- Where a claim is on record, no claim wins.
  pub claimed_before :
      (lease expires deadline now : ℕ)
      → 1 ≤ entries id executing t.events
      → claim_for_execution id lease expires deadline now t ≡ (ok false, t)
  claimed_before lease expires deadline now =
      refused_again (claim_for_execution id lease expires deadline now t)
        (claim-Single lease expires deadline now)

  pub at_most_once : entries id executing t.events ≤ 1
  at_most_once = (replay-claims id t.events i.state (h.agrees id i found)).2

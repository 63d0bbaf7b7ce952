-- ===== src/System.antt =====
-- The services of src/acop/services/tools on one database: every sequence of requests, decisions, workers,
-- sweeps and determinations. A worker's run is a step in which other sessions may commit twice, before its gate is
-- evaluated and before the gate's decision is written; what they do there is again such a sequence.
use cyberwithsteve_acop.Base.{
  false, ◌≤◌, true, ℕ, ◌≡◌, refl, sym, subst, String, Bool, Option, none, some, [],
}
use cyberwithsteve_acop.Json.{Fields}
use cyberwithsteve_acop.Vocabulary.States.{authorized, ready, executing}
use cyberwithsteve_acop.Vocabulary.States.Machine.{past_ready}
use cyberwithsteve_acop.Vocabulary.Roles.{Principal}
use cyberwithsteve_acop.Vocabulary.Reasons.{ApprovalDecision, ReconciliationDisposition}
use cyberwithsteve_acop.Store.{ok, ToolInvocation, Tables, get_invocation}
use cyberwithsteve_acop.State.History.Replay.{replay_from}
use cyberwithsteve_acop.State.History.Claims.{entries, replay-gates}
use cyberwithsteve_acop.State.History.Single.{at_most_once, won_claim, claimed_before}
use cyberwithsteve_acop.State.{claim_for_execution}
use cyberwithsteve_acop.State.Sound.{IsSound}
use cyberwithsteve_acop.Invocation.{InvocationRequest, Service}
use cyberwithsteve_acop.Invocation.Create.{create}
use cyberwithsteve_acop.Invocation.Create.Sound.{create-IsSound}
use cyberwithsteve_acop.Approval.{decide}
use cyberwithsteve_acop.Approval.History.{decide-IsSound}
use cyberwithsteve_acop.Dispatcher.Run.{Worker, execute_once}
use cyberwithsteve_acop.Dispatcher.Run.Sound.{execute_once-IsSound}
use cyberwithsteve_acop.Reaper.{reap_expired_leases, expire_stale}
use cyberwithsteve_acop.Reaper.Sweeps.{reap_expired_leases-IsSound, expire_stale-IsSound}
use cyberwithsteve_acop.Reconciliation.{record_determination}
use cyberwithsteve_acop.Reconciliation.Sound.{record_determination-IsSound}

-- The tables that the services lead to.
pub data Reaches : Tables → Tables → Type 0 where
  start : {t u : Tables} → u ≡ t → Reaches t u
  then_create :
      {t u v : Tables} (s : Service) (r : InvocationRequest) (p : Principal) (now : ℕ)
      → Reaches t u
      → v ≡ (create s r p now u).1
      → Reaches t v
  then_decide :
      {t u v : Tables} (allow_self : Bool) (id : ℕ) (p : Principal) (d : ApprovalDecision)
      (justification stated : String) (now : ℕ)
      → Reaches t u
      → v ≡ (decide allow_self id p d justification stated now u).1
      → Reaches t v
  then_execute :
      {t u v : Tables} (w : Worker) (before during : Tables → Tables)
      (id lease_id validation_lease now later : ℕ)
      → Reaches t u
      → ((x : Tables) → Reaches x (before x))
      → ((x : Tables) → Reaches x (during x))
      → v ≡ (execute_once w before during id lease_id validation_lease now later u).1
      → Reaches t v
  then_reap :
      {t u v : Tables} (now limit : ℕ)
      → Reaches t u
      → v ≡ (reap_expired_leases now limit u).1
      → Reaches t v
  then_expire :
      {t u v : Tables} (now limit : ℕ)
      → Reaches t u
      → v ≡ (expire_stale now limit u).1
      → Reaches t v
  then_reconcile :
      {t u v : Tables} (p : Principal) (disposition : ReconciliationDisposition)
      (justification : String) (evidence_ref : Option Fields) (id : ℕ)
      → Reaches t u
      → v ≡ (record_determination p disposition justification evidence_ref id u).1
      → Reaches t v

Reaches-IsSound : (t v : Tables) → Reaches t v → IsSound t → IsSound v
Reaches-IsSound t v (start e) h = subst IsSound (sym e) h
Reaches-IsSound t v (then_create {u = u} s r p now before e) h =
    subst IsSound (sym e) (create-IsSound s r p now u (Reaches-IsSound t u before h))
Reaches-IsSound t v (then_decide {u = u} allow_self id p d justification stated now before e) h =
    subst IsSound (sym e)
      (decide-IsSound allow_self id p d justification stated now u (Reaches-IsSound t u before h))
Reaches-IsSound t v (then_execute {u = u} w first second id lease_id vl now later before b d e) h =
    subst IsSound (sym e) (
      execute_once-IsSound w first second id lease_id vl now later u
        (λ x k. Reaches-IsSound x (first x) (b x) k) (λ x k. Reaches-IsSound x (second x) (d x) k)
        (Reaches-IsSound t u before h))
Reaches-IsSound t v (then_reap {u = u} now limit before e) h =
    subst IsSound (sym e) (reap_expired_leases-IsSound now limit u (Reaches-IsSound t u before h))
Reaches-IsSound t v (then_expire {u = u} now limit before e) h =
    subst IsSound (sym e) (expire_stale-IsSound now limit u (Reaches-IsSound t u before h))
Reaches-IsSound t v (then_reconcile {u = u} p disposition justification evidence_ref id before e)
      h =
    subst IsSound (sym e) (
      record_determination-IsSound p disposition justification evidence_ref id u
        (Reaches-IsSound t u before h))

-- No invocation and no event yet.
pub record IsEmpty (t : Tables) : Type 0 where
  pub no_invocations : t.invocations ≡ []
  pub no_events : t.events ≡ []

found_or_gone : {A : Type 0} (o : Option A) (a : A) → o ≡ some a → o ≡ none → ⊥
found_or_gone o a found gone = cc

empty-IsSound : (t : Tables) → IsEmpty t → IsSound t
unfolding replay_from get_invocation
empty-IsSound t e = record {
  has_history = record {
    agrees = λ id i found.
        let gone : get_invocation id t.invocations ≡ none = rw e.no_invocations refl in cc;
    fresh = λ id big. (rw e.no_invocations refl, rw e.no_events refl);
  };
  all_checked = λ id i found.
      let gone : get_invocation id t.invocations ≡ none = rw e.no_invocations refl in
      absurd (found_or_gone _ i found gone);
}

-- From empty tables, whatever requests, decisions, workers, sweeps and determinations follow each
-- other, and whatever other sessions do while a worker runs, every history replays to the state of
-- its row, and every row satisfies the constraints on leases and gates.
pub reachable-IsSound : (t v : Tables) → IsEmpty t → Reaches t v → IsSound v
reachable-IsSound t v e r = Reaches-IsSound t v r (empty-IsSound t e)

-- An invocation is claimed at most once: in whatever tables the services reach from empty ones, its
-- history records at most one move into `executing`; a claim that wins found none there and puts
-- the one there; and where it is there, every further claim, under whatever lease and at whatever
-- time, returns false and writes nothing.
pub claim_once :
    (t v : Tables)
    → IsEmpty t
    → Reaches t v
    → (id : ℕ) (i : ToolInvocation) → get_invocation id v.invocations ≡ some i
    → (lease expires deadline now : ℕ)
    → let claimed = claim_for_execution id lease expires deadline now v in
      (entries id executing v.events ≤ 1)
      × (claimed.0 ≡ ok true
          → (entries id executing v.events ≡ 0) × (entries id executing claimed.1.events ≡ 1))
      × (1 ≤ entries id executing v.events → claimed ≡ (ok false, v))
claim_once t v e r id i found lease expires deadline now =
    let h = (reachable-IsSound t v e r).has_history in
    (
      at_most_once v h id i found,
      won_claim v h id i found lease expires deadline now,
      claimed_before v h id i found lease expires deadline now,
    )

-- Nothing is executed that was not authorised: in whatever tables the services reach from empty
-- ones, an invocation that is ready, executing, or in an outcome of an execution has on record a
-- move into `authorized` and a move into `ready`.
pub execution_on_record :
    (t v : Tables)
    → IsEmpty t
    → Reaches t v
    → (id : ℕ) (i : ToolInvocation) → get_invocation id v.invocations ≡ some i
    → past_ready i.state ≡ true
    → (1 ≤ entries id authorized v.events) × (1 ≤ entries id ready v.events)
execution_on_record t v e r id i found =
    replay-gates id v.events i.state ((reachable-IsSound t v e r).has_history.agrees id i found)

-- ===== src/Reaper/Sweeps.antt =====
-- Whole sweeps of src/acop/services/tools/reaper.py: what every row and history keeps.
use cyberwithsteve_acop.Base.{
  all, true, arith, ◌≡◌, ℕ, ◌+◌, refl, false, none, List, [], ◌∷◌, if◌then◌else◌, Bool-cases, inl,
  inr,
}
use cyberwithsteve_acop.Json.{end}
use cyberwithsteve_acop.Vocabulary.States.{
  executing, execution_indeterminate, validation_failed, expired, same_state,
}
use cyberwithsteve_acop.Vocabulary.Reasons.{category, policy, PolicyReason, ToolErrorCategory}
use cyberwithsteve_acop.Store.{ToolInvocation, Tables, stale_transition, Result, ok, err, pure}
use cyberwithsteve_acop.Store.Actions.{bind-keeps, transaction-keeps, if-keeps}
use cyberwithsteve_acop.State.{transition, anything}
use cyberwithsteve_acop.State.History.Replay.{HasHistory, same-HasHistory}
use cyberwithsteve_acop.State.History.Operations.{transition-HasHistory}
use cyberwithsteve_acop.State.Leases.{LeavesLease}
use cyberwithsteve_acop.State.Sound.{idle-IsSound, IsSound, same-IsSound, release-IsSound}
use cyberwithsteve_acop.Reaper.Candidates.{is_idle, candidates_idle}
use cyberwithsteve_acop.Reaper.{
  held_lease, interrupted_set, unconfirmed_set, expiry_detail, close, after_close, reap_one,
  reap_all, lease_candidates, reap_expired_leases, within_window, lapsed_set, after_expiry,
  expire_one, expire_all, approval_candidates, expire_stale,
}

-- A predicate that reads only the rows and the events.
module _ {ℓ} (P : Tables → Type ℓ)
    (audits : (t : Tables) (l : _) → P t → P (record t { audit_events = l }))
    (denials : (t : Tables) (l : _) (k : _)
      → P t
      → P (record t { denials = l; adapter_calls = k })) where
  after_close-keeps :
      (held : ToolInvocation) (r : Result (Unit {0})) (t : Tables)
      → P t
      → P (after_close held (r, t)).1
  unfolding after_close
  after_close-keeps held (ok x) t h = audits t _ h
  after_close-keeps held (err stale_transition) t h = audits t _ h
  after_close-keeps held (err e) t h = h

  module _
      (closes : (held : ToolInvocation) (now : ℕ) (t : Tables) → P t → P (close held now t).1) where
    reap_one-keeps :
        (held : ToolInvocation) (now : ℕ) (t : Tables) → P t → P (reap_one held now t).1
    unfolding reap_one
    reap_one-keeps held now t h =
        after_close-keeps held (close held now t).0 (close held now t).1 (closes held now t h)

    reap_all-keeps :
        (l : List ToolInvocation) (now closed : ℕ) (t : Tables)
        → P t
        → P (reap_all l now closed t).1
    unfolding reap_all
    reap_all-keeps [] now closed t h = h
    reap_all-keeps (held ∷ l) now closed t h =
        bind-keeps P (reap_one held now)
          (λ done. reap_all l now (if done then closed + 1 else closed)) t
          (reap_one-keeps held now t h)
          (λ done u k. reap_all-keeps l now (if done then closed + 1 else closed) u k)

    reap-keeps : (now limit : ℕ) (t : Tables) → P t → P (reap_expired_leases now limit t).1
    unfolding reap_expired_leases
    reap-keeps now limit t h =
        transaction-keeps P (λ u. reap_all (lease_candidates now limit u.invocations) now 0 u) t
          (reap_all-keeps (lease_candidates now limit t.invocations) now 0 t h) (denials t _ _ h)

  after_expiry-keeps :
      (held : ToolInvocation) (r : Result (Unit {0})) (t : Tables)
      → P t
      → P (after_expiry held (r, t)).1
  unfolding after_expiry
  after_expiry-keeps held (ok x) t h = audits t _ h
  after_expiry-keeps held (err stale_transition) t h = h
  after_expiry-keeps held (err e) t h = h

  module _
      (lapses : (held : ToolInvocation) (now : ℕ) (t : Tables)
        → is_idle held ≡ true
        → P t
        → P
            (transition held expired
              (policy PolicyReason.approval_expired)
              none
              end
              anything
              (lapsed_set now)
              t).1) where
    expire_one-keeps :
        (held : ToolInvocation) (now : ℕ) (t : Tables)
        → is_idle held ≡ true
        → P t
        → P (expire_one held now t).1
    unfolding expire_one
    expire_one-keeps held now t idle h =
        let x =
          transition held expired (policy PolicyReason.approval_expired) none end anything
            (lapsed_set now) t in
        if-keeps P (within_window held now) (pure false t) (after_expiry held x) h
          (after_expiry-keeps held x.0 x.1 (lapses held now t idle h))

    expire_all-keeps :
        (l : List ToolInvocation) (now n : ℕ) (t : Tables)
        → all is_idle l ≡ true
        → P t
        → P (expire_all l now n t).1
    unfolding expire_all
    expire_all-keeps [] now n t idle h = h
    expire_all-keeps (held ∷ l) now n t idle h =
        bind-keeps P (expire_one held now) (λ done. expire_all l now (if done then n + 1 else n)) t
          (expire_one-keeps held now t (ground arith) h)
          (λ done u k. expire_all-keeps l now (if done then n + 1 else n) u (ground arith) k)

    expire-keeps : (now limit : ℕ) (t : Tables) → P t → P (expire_stale now limit t).1
    unfolding expire_stale
    expire-keeps now limit t h =
        transaction-keeps P (λ u. expire_all (approval_candidates limit u.invocations) now 0 u) t
          (expire_all-keeps (approval_candidates limit t.invocations) now 0 t
            (candidates_idle limit t.invocations) h)
          (denials t _ _ h)

interrupted_leaves : (now : ℕ) → LeavesLease (interrupted_set now)
unfolding interrupted_set
interrupted_leaves now = record {
  same_lease = λ c. refl;
  same_expiry = λ c. refl;
  same_decision = λ c. refl;
  same_time = λ c. refl;
  same_event = λ c. refl;
}

unconfirmed_leaves : (now : ℕ) → LeavesLease (unconfirmed_set now)
unfolding unconfirmed_set
unconfirmed_leaves now = record {
  same_lease = λ c. refl;
  same_expiry = λ c. refl;
  same_decision = λ c. refl;
  same_time = λ c. refl;
  same_event = λ c. refl;
}

close-IsSound :
    (held : ToolInvocation) (now : ℕ) (t : Tables) → IsSound t → IsSound (close held now t).1
unfolding close
close-IsSound held now t h = elim (Bool-cases (same_state held.state executing)) [
  | inl interrupted ↦ rw interrupted (
      release-IsSound held execution_indeterminate
        (category ToolErrorCategory.execution_indeterminate) (expiry_detail held) (held_lease held)
        (interrupted_set now) t refl (interrupted_leaves now) h)
  | inr unconfirmed ↦ rw unconfirmed (
      release-IsSound held validation_failed (category ToolErrorCategory.validation_failed) end
        (held_lease held) (unconfirmed_set now) t refl (unconfirmed_leaves now) h)
]

-- A sweep over expired leases, however it ends, keeps the tables sound: every row's history replays
-- to its state along the listed transitions, and leases stand exactly on the rows in flight.
pub reap_expired_leases-IsSound :
    (now limit : ℕ) (t : Tables) → IsSound t → IsSound (reap_expired_leases now limit t).1
reap_expired_leases-IsSound =
    reap-keeps IsSound (λ t l h. same-IsSound t _ refl refl refl h)
      (λ t l k h. same-IsSound t _ refl refl refl h) close-IsSound

-- The sweep over approvals keeps every history.
expire_stale-HasHistory :
    (now limit : ℕ) (t : Tables) → HasHistory t → HasHistory (expire_stale now limit t).1
expire_stale-HasHistory =
    expire-keeps HasHistory (λ t l h. same-HasHistory t _ refl refl refl h)
      (λ t l k h. same-HasHistory t _ refl refl refl h)
      (λ held now t idle h.
        transition-HasHistory held expired _ none end anything (lapsed_set now) t h)

lapsed_leaves : (now : ℕ) → LeavesLease (lapsed_set now)
unfolding lapsed_set
lapsed_leaves now = record {
  same_lease = λ c. refl;
  same_expiry = λ c. refl;
  same_decision = λ c. refl;
  same_time = λ c. refl;
  same_event = λ c. refl;
}

-- It keeps the constraints on leases and gates too: no row that it reads is in flight.
pub expire_stale-IsSound :
    (now limit : ℕ) (t : Tables) → IsSound t → IsSound (expire_stale now limit t).1
expire_stale-IsSound =
    expire-keeps IsSound (λ t l h. same-IsSound t _ refl refl refl h)
      (λ t l k h. same-IsSound t _ refl refl refl h)
      (λ held now t idle h.
        idle-IsSound held expired _ none end anything (lapsed_set now) t h (ground arith) refl
          (lapsed_leaves now))

-- ===== src/Reaper/Outcome.antt =====
-- What the reaper and the sweeper of src/acop/services/tools/reaper.py may write.
use cyberwithsteve_acop.Base.{
  ℕ, ◌≡◌, refl, inl, inr, Bool, true, none, some, if◌then◌else◌, Bool-cases,
}
use cyberwithsteve_acop.Json.{Fields, end}
use cyberwithsteve_acop.Vocabulary.States.{
  InvocationState, executing, execution_indeterminate, validation_failed, same_state,
}
use cyberwithsteve_acop.Vocabulary.Reasons.{Reason, category, ToolErrorCategory}
use cyberwithsteve_acop.Store.{
  ToolInvocation, Tables, Result, ok, Assignment, assign, get_invocation,
}
use cyberwithsteve_acop.Store.Rows.{get-update_self}
use cyberwithsteve_acop.State.{release_lease, release_set, cas_set, append_event}
use cyberwithsteve_acop.State.Steps.{transition_cases}
use cyberwithsteve_acop.State.History.Operations.{cas_test-state}
use cyberwithsteve_acop.Reaper.{
  held_lease, interrupted_set, unconfirmed_set, expiry_detail, close, after_close, reap_one,
}

-- The state that the reaper leaves a candidate in, and the columns it sets.
abbrev pub closed_state : ToolInvocation → InvocationState
closed_state held =
    if same_state held.state executing then execution_indeterminate else validation_failed

abbrev pub closing_set : ToolInvocation → ℕ → Assignment
closing_set held now =
    if same_state held.state executing then interrupted_set now else unconfirmed_set now

-- What a reap may leave, by its result.
abbrev pub Reaped :
    ToolInvocation → InvocationState → Assignment → Tables → Result Bool × Tables → Type 0
Reaped held to_state set t (ok true, after) =
    (i : ToolInvocation) × (get_invocation held.id t.invocations ≡ some i)
    × (i.state ≡ held.state)
    × (held_lease held i ≡ true)
    × (get_invocation held.id after.invocations
        ≡ some (assign (cas_set to_state (release_set set)) i))
Reaped held to_state set t (_, after) = after.invocations ≡ t.invocations

close-Reaped :
    (held : ToolInvocation) (to_state : InvocationState) (r : Reason) (detail : Fields)
    (set : Assignment) (t : Tables)
    → Reaped held to_state set t
        (after_close held (release_lease held to_state r detail (held_lease held) set t))
unfolding release_lease after_close append_event
close-Reaped held to_state r detail set t =
    transition_cases held to_state r none detail (held_lease held) (release_set set) t
      (λ (x : Result (Unit {0}) × Tables). Reaped held to_state set t (after_close held x))
      (λ no_way. refl) (λ gone. refl) (λ row found failed. refl)
      (λ i legal found passed.
        let (from_row, same_lease) = cas_test-state held.state (held_lease held) i passed in
        (i, found, from_row, same_lease, get-update_self held.id _ _ t.invocations i found passed))

-- A candidate is closed only while its row is still in the state and under the very lease that the
-- sweep judged expired. An interrupted execution becomes `execution_indeterminate`, and an
-- interrupted validation `validation_failed`; the lease goes. In every other case, errors included,
-- no row is written.
pub reap_one_outcome :
    (held : ToolInvocation) (now : ℕ) (t : Tables)
    → Reaped held (closed_state held) (closing_set held now) t (reap_one held now t)
unfolding reap_one close
reap_one_outcome held now t = elim (Bool-cases (same_state held.state executing)) [
  | inl interrupted ↦ rw interrupted (
      close-Reaped held execution_indeterminate (category ToolErrorCategory.execution_indeterminate)
        (expiry_detail held) (interrupted_set now) t)
  | inr unconfirmed ↦ rw unconfirmed (
      close-Reaped held validation_failed (category ToolErrorCategory.validation_failed) end
        (unconfirmed_set now) t)
]

-- ===== src/State/Sound.antt =====
-- What every committed set of tables satisfies, and how the operations of
-- src/acop/services/tools/state.py keep it.
use cyberwithsteve_acop.Base.{
  ◌≤◌, some, arith, ℕ, ◌≡◌, refl, String, Bool, true, false, Option, none,
}
use cyberwithsteve_acop.Json.{Fields}
use cyberwithsteve_acop.Vocabulary.States.{
  InvocationState, is_in_flight, is_legal_transition, requested, rejected, authorized,
  awaiting_approval, approved, denied, ready,
}
use cyberwithsteve_acop.Vocabulary.Reasons.{Reason, GateDecision, PolicyReason}
use cyberwithsteve_acop.Store.{ToolInvocation, InvocationColumns, Tables, Assignment}
use cyberwithsteve_acop.Store.Rows.{update_gone, EachRow, update-EachRow}
use cyberwithsteve_acop.State.{
  get_invocation, update_where, no_columns, transition, cas_set, claim_for_execution,
  record_final_gate_if_owned, append_event, release_lease, release_set,
}
use cyberwithsteve_acop.State.Steps.{transition_cases}
use cyberwithsteve_acop.State.History.Operations.{
  cas_test-state, transition-HasHistory, claim-HasHistory, gate-HasHistory,
}
use cyberwithsteve_acop.State.History.Replay.{
  noop-HasHistory, each-HasHistory, HasHistory, same-HasHistory,
}
use cyberwithsteve_acop.State.Leases.{
  moved, IsChecked, AllChecked, LeavesLease, release-AllChecked, transition-AllChecked,
  claim-AllChecked, gate-AllChecked,
}

-- Every history replays to the state of its row, and every row satisfies the constraints on leases
-- and gates.
pub record IsSound (t : Tables) : Type 0 where
  pub has_history : HasHistory t
  pub all_checked : AllChecked t

pub same-IsSound :
    (t u : Tables)
    → u.invocations ≡ t.invocations
    → u.events ≡ t.events
    → u.next_id ≡ t.next_id
    → IsSound t
    → IsSound u
same-IsSound t u rows events ids h = record {
  has_history = same-HasHistory t u rows events ids h.has_history;
  all_checked = rw rows h.all_checked;
}

-- Ids that are given out for other rows.
pub grown-IsSound :
    (t u : Tables)
    → u.invocations ≡ t.invocations
    → u.events ≡ t.events
    → t.next_id ≤ u.next_id
    → IsSound t
    → IsSound u
grown-IsSound t u rows events more h = record {
  has_history = record {
    agrees = λ id i found. rw events (h.has_history.agrees id i (rw rows at found));
    fresh = λ id big. rw (rows, events) (h.has_history.fresh id (omega arith));
  };
  all_checked = rw rows h.all_checked;
}

-- An event that moves nothing.
pub noop-IsSound :
    (t : Tables)
    → IsSound t
    → (id : ℕ) (i : ToolInvocation) → get_invocation id t.invocations ≡ some i
    → (s : InvocationState) (reason : Reason) (actor : Option String) (detail : Fields)
    → IsSound (append_event id (some s) s reason actor detail t).1
noop-IsSound t h id i found s reason actor detail = record {
  has_history = noop-HasHistory t h.has_history id i found s reason actor detail;
  all_checked = unfold append_event in h.all_checked;
}

-- The states before an execution, expiry aside.
abbrev pub is_early : InvocationState → Bool
is_early rejected = true
is_early authorized = true
is_early awaiting_approval = true
is_early approved = true
is_early denied = true
is_early ready = true
is_early _ = false

early_idle : (s : InvocationState) → is_early s ≡ true → is_in_flight s ≡ false
early_idle requested h = cc
early_idle _ h = ground arith

early_from :
    (s to : InvocationState)
    → is_early to ≡ true
    → is_legal_transition s to ≡ true
    → is_in_flight s ≡ false
unfolding is_legal_transition
early_from requested requested h k = refl
early_from _ _ h k = ground arith

module _ (held : ToolInvocation) (to_state : InvocationState) (reason : Reason)
    (actor : Option String) (detail : Fields) (expected : ToolInvocation → Bool)
    (columns : Assignment) (t : Tables) (h : IsSound t) where
  -- A transition whose columns fit the new state.
  pub fitting-IsSound :
      ((c : InvocationColumns)
        → is_legal_transition held.state to_state ≡ true
        → c.state ≡ held.state
        → IsChecked c
        → IsChecked (cas_set to_state columns c))
      → IsSound (transition held to_state reason actor detail expected columns t).1
  unfolding append_event
  fitting-IsSound fits = record {
    has_history =
        transition-HasHistory held to_state reason actor detail expected columns t h.has_history;
    all_checked =
        transition_cases held to_state reason actor detail expected columns t (λ x. AllChecked x.1)
          (λ no_way. h.all_checked) (λ gone. h.all_checked) (λ i found failed. h.all_checked)
          (λ i legal found passed.
            update-EachRow (λ y. IsChecked y.columns) held.id _ _ t.invocations i found
              h.all_checked
              (λ won.
                fits i.columns legal (cas_test-state held.state expected i passed).0
                  (h.all_checked held.id i found)));
  }

  -- A transition into a state that nothing in flight moves to.
  pub early-IsSound :
      is_early to_state ≡ true
      → LeavesLease columns
      → IsSound (transition held to_state reason actor detail expected columns t).1
  early-IsSound early leaves = fitting-IsSound (λ c legal same k.
      moved held.state to_state columns c same (early_from held.state to_state early legal)
        (early_idle to_state early) leaves k)

  -- A transition between states that are not in flight.
  pub idle-IsSound :
      is_in_flight held.state ≡ false
      → is_in_flight to_state ≡ false
      → LeavesLease columns
      → IsSound (transition held to_state reason actor detail expected columns t).1
  idle-IsSound from_idle to_idle leaves = record {
    has_history =
        transition-HasHistory held to_state reason actor detail expected columns t h.has_history;
    all_checked =
        transition-AllChecked held to_state reason actor detail expected columns t h.all_checked
          from_idle to_idle leaves;
  }

same_columns :
    (f : Assignment)
    → ((c : InvocationColumns) → (f c).state ≡ c.state)
    → LeavesLease f
    → (c : InvocationColumns) → IsChecked c
    → IsChecked (f c)
same_columns f keeps k c h = record {
  lease_state = rw (keeps c, k.same_lease c) h.lease_state;
  lease_expiry = rw (keeps c, k.same_expiry c) h.lease_expiry;
  final_gate_timing = rw (k.same_decision c, k.same_time c) h.final_gate_timing;
  final_gate_provenance = rw (k.same_decision c, k.same_event c) h.final_gate_provenance;
}

pub no_columns-LeavesLease : LeavesLease no_columns
no_columns-LeavesLease = record {
  same_lease = λ c. refl;
  same_expiry = λ c. refl;
  same_decision = λ c. refl;
  same_time = λ c. refl;
  same_event = λ c. refl;
}

-- Columns of one row other than its state, its lease and its gate.
pub each-IsSound :
    (t : Tables)
    → IsSound t
    → (id : ℕ) (p : ToolInvocation → Bool) (f : Assignment)
    → ((c : InvocationColumns) → (f c).state ≡ c.state)
    → LeavesLease f
    → IsSound (record t { invocations = update_where id p f t.invocations })
each-IsSound t h id p f keeps leaves = record {
  has_history = each-HasHistory t h.has_history id p f keeps;
  all_checked = on_row (get_invocation id t.invocations) refl;
}
  where
    on_row :
        (o : Option ToolInvocation)
        → get_invocation id t.invocations ≡ o
        → EachRow (λ x. IsChecked x.columns) (update_where id p f t.invocations)
    on_row none gone = rw (update_gone id p f t.invocations gone) h.all_checked
    on_row (some i) found =
        update-EachRow (λ x. IsChecked x.columns) id p f t.invocations i found h.all_checked
          (λ won. same_columns f keeps leaves i.columns (h.all_checked id i found))

pub release-IsSound :
    (held : ToolInvocation) (to_state : InvocationState) (r : Reason) (detail : Fields)
    (expected : ToolInvocation → Bool) (set : Assignment) (t : Tables)
    → is_in_flight to_state ≡ false
    → LeavesLease set
    → IsSound t
    → IsSound (release_lease held to_state r detail expected set t).1
unfolding release_lease
release-IsSound held to_state r detail expected set t out k h = record {
  has_history =
      transition-HasHistory held to_state r none detail expected (release_set set) t h.has_history;
  all_checked =
      unfold release_lease in
      release-AllChecked held to_state r detail expected set t h.all_checked out k;
}

pub claim-IsSound :
    (id lease expires deadline now : ℕ) (t : Tables)
    → IsSound t
    → IsSound (claim_for_execution id lease expires deadline now t).1
claim-IsSound id lease expires deadline now t h = record {
  has_history = claim-HasHistory id lease expires deadline now t h.has_history;
  all_checked = claim-AllChecked id lease expires deadline now t h.all_checked;
}

pub gate-IsSound :
    (id lease : ℕ) (d : GateDecision) (r : PolicyReason) (event now : ℕ) (t : Tables)
    → IsSound t
    → IsSound (record_final_gate_if_owned id lease d r event now t).1
gate-IsSound id lease d r event now t h = record {
  has_history = gate-HasHistory id lease d r event now t h.has_history;
  all_checked = gate-AllChecked id lease d r event now t h.all_checked;
}

-- ===== src/Examples/Histories.antt =====
-- The invariants on tables that hold one row, and operations that keep them.
use cyberwithsteve_acop.Base.{
  ℕ, ◌≤◌, ◌≡◌, refl, subst, true, false, none, some, [], ◌∷◌, ◌==◌, ==_iff, arith,
}
use cyberwithsteve_acop.Json.{end}
use cyberwithsteve_acop.Vocabulary.States.{
  awaiting_approval, ready, expired, executing, is_legal_transition, is_in_flight,
}
use cyberwithsteve_acop.Vocabulary.Reasons.{policy, PolicyReason}
use cyberwithsteve_acop.Store.{ToolInvocation, get_invocation}
use cyberwithsteve_acop.Store.Rows.{EachRow}
use cyberwithsteve_acop.State.{transition, anything, no_columns, append_event}
use cyberwithsteve_acop.State.Leases.{IsChecked, AllChecked, LeavesLease}
use cyberwithsteve_acop.State.History.Numbering.{numbered_from, append_event_numbered}
use cyberwithsteve_acop.State.History.Replay.{HasHistory, replay_from}
use cyberwithsteve_acop.State.History.Operations.{transition-HasHistory}
use cyberwithsteve_acop.Examples.{
  in_state, leased, restart_row, ready_tables, leased_tables, waiting_tables,
}

lone_row :
    (r i : ToolInvocation) (id : ℕ)
    → get_invocation id (r ∷ []) ≡ some i
    → ((r.id == id) ≡ true) × (r ≡ i)
unfolding get_invocation
lone_row r i id h = ground arith

no_row : (r : ToolInvocation) (id : ℕ) → (r.id == id) ≡ false → get_invocation id (r ∷ []) ≡ none
unfolding get_invocation
no_row r id h = rw h refl

beyond : (id : ℕ) → 10 ≤ id → (1 == id) ≡ false
beyond id h = ground (arith, ==_iff 1 id)

waiting-HasHistory : HasHistory waiting_tables
unfolding replay_from is_legal_transition restart_row
waiting-HasHistory = record {
  agrees = λ id i found.
      let (same, e) = lone_row (in_state awaiting_approval) i id found in rw⁻¹ e (rw same refl);
  fresh =
      λ id far. (no_row (in_state awaiting_approval) id (beyond id far), rw (beyond id far) refl);
}

pub ready-HasHistory : HasHistory ready_tables
unfolding replay_from is_legal_transition restart_row
ready-HasHistory = record {
  agrees =
      λ id i found. let (same, e) = lone_row (in_state ready) i id found in rw⁻¹ e (rw same refl);
  fresh = λ id far. (no_row (in_state ready) id (beyond id far), rw (beyond id far) refl);
}

pub leased-HasHistory : HasHistory leased_tables
unfolding replay_from is_legal_transition restart_row
leased-HasHistory = record {
  agrees = λ id i found. let (same, e) = lone_row leased i id found in rw⁻¹ e (rw same refl);
  fresh = λ id far. (no_row leased id (beyond id far), rw (beyond id far) refl);
}

lone-EachRow : (P : ToolInvocation → Type 0) (r : ToolInvocation) → P r → EachRow P (r ∷ [])
lone-EachRow P r h id i found = subst P (lone_row r i id found).1 h

pub leased-AllChecked : AllChecked leased_tables
unfolding restart_row
leased-AllChecked =
    lone-EachRow (λ i. IsChecked i.columns) leased
      (record {
        lease_state = refl;
        lease_expiry = refl;
        final_gate_timing = refl;
        final_gate_provenance = refl;
      })

pub ready-AllChecked : AllChecked ready_tables
unfolding restart_row
ready-AllChecked =
    lone-EachRow (λ i. IsChecked i.columns) (in_state ready)
      (record {
        lease_state = refl;
        lease_expiry = refl;
        final_gate_timing = refl;
        final_gate_provenance = refl;
      })

no_columns-LeavesLease : LeavesLease no_columns
no_columns-LeavesLease = record {
  same_lease = λ c. refl;
  same_expiry = λ c. refl;
  same_decision = λ c. refl;
  same_time = λ c. refl;
  same_event = λ c. refl;
}

idle : is_in_flight (in_state ready).state ≡ false
unfolding restart_row
idle = refl

ready_numbered : (id : ℕ) → numbered_from id 1 ready_tables.events ≡ true
ready_numbered id = ground arith

append_event_numbered_example :
    numbered_from 1 1
      (append_event 1
        (some ready)
        executing
        (policy PolicyReason.allowed)
        none
        end
        ready_tables).1.events
    ≡ true
append_event_numbered_example =
    append_event_numbered ready_tables ready_numbered 1 (some ready) executing
      (policy PolicyReason.allowed) none end 1

found_ready : get_invocation 1 ready_tables.invocations ≡ some (in_state ready)
unfolding get_invocation restart_row
found_ready = refl

transition-HasHistory_example :
    HasHistory
      (transition
        (in_state ready)
        expired
        (policy PolicyReason.approval_expired)
        none
        end
        anything
        no_columns
        ready_tables).1
transition-HasHistory_example =
    transition-HasHistory (in_state ready) expired (policy PolicyReason.approval_expired) none end
      anything no_columns ready_tables ready-HasHistory

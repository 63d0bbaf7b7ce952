-- ===== src/Examples/Transitions.antt =====
-- Compare-and-set writes on one row.
use cyberwithsteve_acop.Base.{ℕ, ◌≡◌, false, none, ◌==◌}
use cyberwithsteve_acop.Json.{end}
use cyberwithsteve_acop.Vocabulary.States.{ready, expired}
use cyberwithsteve_acop.Vocabulary.Reasons.{policy, PolicyReason, GateDecision}
use cyberwithsteve_acop.Store.{Tables, get_invocation}
use cyberwithsteve_acop.State.{transition, anything, no_columns, record_final_gate_if_owned}
use cyberwithsteve_acop.State.Cas.{Outcome, transition-Outcome, Gated, final_gate_outcome}
use cyberwithsteve_acop.Examples.{in_state, ready_tables, leased_tables}

abbrev expiry : Tables
expiry =
    (transition (in_state ready) expired (policy PolicyReason.approval_expired) none end anything
      no_columns ready_tables).1

transition-Outcome_example :
    Outcome
      (in_state ready)
      expired
      (policy PolicyReason.approval_expired)
      none
      end
      anything
      no_columns
      ready_tables
      (transition
        (in_state ready)
        expired
        (policy PolicyReason.approval_expired)
        none
        end
        anything
        no_columns
        ready_tables).0
      expiry
    × ((j : ℕ)
        → ((in_state ready).id == j) ≡ false
        → get_invocation j expiry.invocations ≡ get_invocation j ready_tables.invocations)
transition-Outcome_example =
    transition-Outcome (in_state ready) expired (policy PolicyReason.approval_expired) none end
      anything no_columns ready_tables

final_gate_outcome_example :
    let after =
      record_final_gate_if_owned 1 50 GateDecision.allow PolicyReason.allowed 12 150
        leased_tables in
    Gated 1 50 GateDecision.allow PolicyReason.allowed 12 150 leased_tables after.0 after.1
    × ((j : ℕ)
        → (1 == j) ≡ false
        → get_invocation j after.1.invocations ≡ get_invocation j leased_tables.invocations)
final_gate_outcome_example =
    final_gate_outcome 1 50 GateDecision.allow PolicyReason.allowed 12 150 leased_tables

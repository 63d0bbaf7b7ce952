-- ===== src/Examples/Dispatches.antt =====
-- A worker and its adapter on the leased row.
use cyberwithsteve_acop.Base.{
  ℕ, zero, suc, ◌+◌, ◌≤◌, ◌≡◌, refl, ◌↔◌, ◌⊎◌, String, true, false, Option, some, [], ◌∷◌, length,
}
use cyberwithsteve_acop.Json.{end, field, str}
use cyberwithsteve_acop.Vocabulary.States.{InvocationState}
use cyberwithsteve_acop.Vocabulary.Reasons.{success, ToolErrorCategory}
use cyberwithsteve_acop.Store.{
  AuditOutcome, AuditSeverity, Tables, ok, get_invocation, passes, ToolInvocation,
}
use cyberwithsteve_acop.State.{owns_lease}
use cyberwithsteve_acop.Dispatcher.Gate.{admitted, final_gate}
use cyberwithsteve_acop.Dispatcher.Gate.Checks.{IsCleared, final_gate_admits_iff}
use cyberwithsteve_acop.Dispatcher.Execution.{
  Adapter, AdapterRequest, ExecuteReply, returned, tool_error, observed, execute, attempts,
}
use cyberwithsteve_acop.Dispatcher.Execution.Attempts.{Tried, attempts-Made, execute_bounded}
use cyberwithsteve_acop.Dispatcher.Run.{Worker, run_claimed, evaluated, recorded}
use cyberwithsteve_acop.Dispatcher.Run.Ownership.{run_calls_need_lease, lost_lease_stands_down}
use cyberwithsteve_acop.Contract.{ToolDefinition}
use cyberwithsteve_acop.Examples.{
  restart, flat_digest, restart_row, leased, leased_tables, in_state,
}

-- Unavailable at the first call, and done at the second.
abbrev flaky_reply : ℕ → AdapterRequest → ExecuteReply
flaky_reply zero request = tool_error ToolErrorCategory.adapter_unavailable
flaky_reply (suc n) request = returned success (field "status" (str "done") end) end

abbrev flaky : Adapter
flaky = record { execute = flaky_reply; validate = λ n request. observed success end }

abbrev only_flaky : String → Option Adapter
only_flaky adapter_id = some flaky

abbrev worker : Worker
worker = record {
  sha256 = flat_digest;
  registry = restart ∷ [];
  resolve_adapter = only_flaky;
  lease_seconds = 120;
}

final_gate_admits_iff_example :
    (final_gate flat_digest (restart ∷ []) leased leased_tables 150 ≡ admitted restart)
    ↔ IsCleared flat_digest (restart ∷ []) leased leased_tables 150 restart
final_gate_admits_iff_example =
    final_gate_admits_iff flat_digest (restart ∷ []) leased leased_tables 150 restart

attempts-Made_example :
    (made : ℕ) × Tried flaky leased restart 3 (length leased_tables.adapter_calls) made
    × (length
          (attempts flat_digest 3 ToolErrorCategory.internal_error flaky leased restart 160
            leased_tables).1.adapter_calls
        ≡ length leased_tables.adapter_calls + made)
attempts-Made_example =
    attempts-Made flat_digest flaky leased restart 160 3 ToolErrorCategory.internal_error
      leased_tables

execute_bounded_example :
    let after = (execute flat_digest only_flaky leased restart 160 leased_tables).1 in
    (length after.adapter_calls
      ≤ length leased_tables.adapter_calls + restart.retry_policy.max_attempts)
    × (restart.adapter_idempotent ≡ false
        → length after.adapter_calls ≤ length leased_tables.adapter_calls + 1)
execute_bounded_example =
    execute_bounded flat_digest flaky leased restart 160 only_flaky leased_tables refl

found_leased : get_invocation 1 leased_tables.invocations ≡ some leased
unfolding get_invocation restart_row
found_leased = refl

-- Another session that commits nothing, and one that closes the row as the reaper does.
abbrev nothing : Tables → Tables
nothing t = t

abbrev taken : ToolInvocation
taken = in_state InvocationState.execution_indeterminate

abbrev reaped : Tables → Tables
reaped t = record t { invocations = taken ∷ [] }

run_calls_need_lease_example :
    let gate = final_gate flat_digest (restart ∷ []) leased leased_tables 150 in
    let t' = nothing (evaluated worker gate leased 50 leased_tables).1 in
    ((run_claimed worker nothing 1 50 60 150 leased_tables).1.adapter_calls ≡ t'.adapter_calls)
    ⊎ ((d : ToolDefinition) × IsCleared flat_digest (restart ∷ []) leased leased_tables 150 d
        × (passes (owns_lease 50 150) (get_invocation leased.id t'.invocations) ≡ true))
run_calls_need_lease_example =
    run_calls_need_lease worker nothing 1 50 60 150 leased_tables leased found_leased

found_taken :
    get_invocation leased.id
      (reaped
        (evaluated worker
          (final_gate flat_digest (restart ∷ []) leased leased_tables 150)
          leased
          50
          leased_tables).1).invocations
    ≡ some taken
unfolding get_invocation restart_row
found_taken = refl

taken_lapsed : owns_lease 50 150 taken ≡ false
unfolding owns_lease restart_row
taken_lapsed = refl

lost_lease_stands_down_example :
    let gate = final_gate flat_digest (restart ∷ []) leased leased_tables 150 in
    let t' = reaped (evaluated worker gate leased 50 leased_tables).1 in
    run_claimed worker reaped 1 50 60 150 leased_tables
    ≡ (ok taken.state, (recorded AuditOutcome.failure AuditSeverity.warning leased.id t').1)
lost_lease_stands_down_example =
    lost_lease_stands_down worker reaped 1 50 60 150 leased_tables leased taken found_leased
      found_taken taken_lapsed

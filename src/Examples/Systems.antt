-- ===== src/Examples/Systems.antt =====
-- A history of the whole system: a request, a worker's try, the sweeps, and a determination.
use cyberwithsteve_acop.Base.{◌≤◌, ◌≡◌, refl, true, false, none, [], ◌∷◌}
use cyberwithsteve_acop.Vocabulary.States.{ready, authorized, executing, execution_indeterminate}
use cyberwithsteve_acop.Vocabulary.Reasons.{approved, confirmed_failed}
use cyberwithsteve_acop.Store.{says_something, ok, Tables, get_invocation}
use cyberwithsteve_acop.State.Sound.{IsSound}
use cyberwithsteve_acop.Invocation.Create.{create}
use cyberwithsteve_acop.Approval.{decide}
use cyberwithsteve_acop.Dispatcher.Run.{Worker, execute_once}
use cyberwithsteve_acop.Reconciliation.{record_determination}
use cyberwithsteve_acop.Reconciliation.Recorded.{refusal, Recorded, record_determination-Recorded}
use cyberwithsteve_acop.Invocation.Create.Ready.{
  bare_tables, open_lab, ready_at_once, ready_row, ready_row_found, ready_row_state,
}
use cyberwithsteve_acop.State.{claim_for_execution}
use cyberwithsteve_acop.State.History.Claims.{entries}
use cyberwithsteve_acop.System.{
  execution_on_record, claim_once, Reaches, start, then_create, then_decide, then_execute, IsEmpty,
  reachable-IsSound,
}
use cyberwithsteve_acop.Examples.{
  operator, approver, restart, flat_digest, in_state, restart_row, tables_of, ready_events,
}
use cyberwithsteve_acop.Examples.Invocations.{lab, restart_dns}

bare-IsEmpty : IsEmpty bare_tables
bare-IsEmpty = record { no_invocations = refl; no_events = refl }

abbrev idle_worker : Worker
idle_worker = record {
  sha256 = flat_digest;
  registry = restart ∷ [];
  resolve_adapter = λ id. none;
  lease_seconds = 60;
}

abbrev requested_tables : Tables
requested_tables = (create lab restart_dns operator 100 bare_tables).1

abbrev decided_tables : Tables
decided_tables = (decide false 10 approver approved "planned" "e1" 200 requested_tables).1

abbrev worked_tables : Tables
worked_tables = (execute_once idle_worker (λ t. t) (λ t. t) 10 50 51 300 400 decided_tables).1

worked : Reaches bare_tables worked_tables
worked =
    then_execute idle_worker (λ t. t) (λ t. t) 10 50 51 300 400
      (then_decide false 10 approver approved "planned" "e1" 200
        (then_create lab restart_dns operator 100 (start refl) refl) refl)
      (λ x. start refl) (λ x. start refl) refl

reachable-IsSound_example : IsSound worked_tables
reachable-IsSound_example = reachable-IsSound bare_tables worked_tables bare-IsEmpty worked

-- A request for a tool that needs no approval.
requested_once : Reaches bare_tables ready_at_once
requested_once = then_create open_lab restart_dns operator 100 (start refl) refl

claim_once_example :
    let claimed = claim_for_execution 10 50 900 800 200 ready_at_once in
    (entries 10 executing ready_at_once.events ≤ 1)
    × (claimed.0 ≡ ok true
        → (entries 10 executing ready_at_once.events ≡ 0)
          × (entries 10 executing claimed.1.events ≡ 1))
    × (1 ≤ entries 10 executing ready_at_once.events → claimed ≡ (ok false, ready_at_once))
claim_once_example =
    claim_once bare_tables ready_at_once bare-IsEmpty requested_once 10 ready_row ready_row_found 50
      900 800 200

execution_on_record_example :
    (1 ≤ entries 10 authorized ready_at_once.events) × (1 ≤ entries 10 ready ready_at_once.events)
execution_on_record_example =
    execution_on_record bare_tables ready_at_once bare-IsEmpty requested_once 10 ready_row
      ready_row_found (rw ready_row_state refl)

-- A row whose worker was lost.
abbrev lost_tables : Tables
lost_tables = tables_of (in_state execution_indeterminate) ready_events []

lost_accepted : refusal (get_invocation 1 lost_tables.invocations) "seen" ≡ none
unfolding get_invocation restart_row says_something
lost_accepted = refl

record_determination-Recorded_example :
    Recorded
      (refusal (get_invocation 1 lost_tables.invocations) "seen")
      1
      lost_tables
      (record_determination operator confirmed_failed "seen" none 1 lost_tables)
record_determination-Recorded_example =
    record_determination-Recorded operator confirmed_failed "seen" none 1 lost_tables

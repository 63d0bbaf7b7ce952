-- ===== src/State.antt =====
-- State transitions: src/acop/services/tools/state.py. Each UPDATE is a compare-and-set on the row
-- as the tables hold it now; the instance that the caller holds may be older than the row.
pub mod Steps
pub mod History
pub mod Cas
pub mod Leases
pub mod Sound
use Prim.Native.Nat.{max}
use cyberwithsteve_acop.Base.{
  ℕ, zero, suc, ◌+◌, String, Bool, true, false, ◌&&◌, Option, none, some, List, [], ◌∷◌, ◌++◌, ◌==◌,
  ltb, filter, same_number, if◌then◌else◌,
}
use cyberwithsteve_acop.Json.{Value, Fields, null, bool, str, obj, end, field, int}
use cyberwithsteve_acop.Redaction.{redact}
use cyberwithsteve_acop.Vocabulary.States.{
  InvocationState, ready, executing, state_value, same_state, is_legal_transition,
}
use cyberwithsteve_acop.Vocabulary.Reasons.{GateDecision, PolicyReason, Reason, policy}
use cyberwithsteve_acop.Store.{
  ToolInvocation, InvocationColumns, ToolInvocationEvent, Tables, ToolError,
  invalid_state_transition, stale_transition, lookup_error, Exec, pure, raise, ◌>>=◌, ◌>>◌,
  Assignment, get_invocation, update_where, passes,
}

-- SELECT max(sequence) WHERE invocation_id = …, with 0 for none.
highest_sequence : ℕ → List ToolInvocationEvent → ℕ
highest_sequence id [] = 0
highest_sequence id (e ∷ l) =
    max (if e.invocation_id == id then e.sequence else 0) (highest_sequence id l)

pub next_sequence : ℕ → List ToolInvocationEvent → ℕ
unfolding highest_sequence
next_sequence id l = suc (highest_sequence id l)

redacted : Value → Fields
redacted (obj fs) = fs
redacted _ = end

-- The event is returned by its id, which is all that a caller reads of it.
unfoldable pub append_event :
    ℕ → Option InvocationState → InvocationState → Reason → Option String → Fields → Exec ℕ
unfolding next_sequence redacted
append_event invocation_id from_state to_state reason actor_subject detail t =
    pure t.next_id (record t {
      events =
          t.events
          ++ record {
            id = t.next_id;
            invocation_id = invocation_id;
            sequence = next_sequence invocation_id t.events;
            from_state = from_state;
            to_state = to_state;
            actor_subject = actor_subject;
            reason = reason;
            detail = redacted (redact (obj detail));
          }
            ∷ [];
      next_id = suc t.next_id;
    })

-- ToolInvocation.id == invocation.id, ToolInvocation.state == source.value, and the `expected` ones
unfoldable pub cas_test : InvocationState → (ToolInvocation → Bool) → ToolInvocation → Bool
cas_test source expected i = same_state i.state source && expected i

-- .values(state=to_state.value, **columns)
unfoldable pub cas_set : InvocationState → Assignment → Assignment
cas_set to_state columns c = record (columns c) { state = to_state }

pub stale_detail : InvocationState → InvocationState → Fields
stale_detail source to_state = field "stale_transition" (bool true) (
    field "expected_state" (str (state_value source))
      (field "attempted_to_state" (str (state_value to_state)) end))

-- After a lost write: `refresh` reads the row, and fails where there is none; the attempt is
-- appended as a no-op event, and the error raised.
lose :
    ToolInvocation
    → InvocationState
    → Reason
    → Option String
    → Option ToolInvocation
    → Exec (Unit {0})
unfolding append_event stale_detail
lose held to_state reason actor_subject none = raise lookup_error
lose held to_state reason actor_subject (some i) =
    append_event held.id (some i.state) i.state reason actor_subject
      (stale_detail held.state to_state)
    >> raise stale_transition

unfoldable pub transition :
    ToolInvocation
    → InvocationState
    → Reason
    → Option String
    → Fields
    → (ToolInvocation → Bool)
    → Assignment
    → Exec (Unit {0})
unfolding lose cas_test cas_set append_event
transition held to_state reason actor_subject detail expected columns t =
    let test = cas_test held.state expected in
    let won = passes test (get_invocation held.id t.invocations) in
    let written = record t {
      invocations = update_where held.id test (cas_set to_state columns) t.invocations;
    } in
    if is_legal_transition held.state to_state
    then (if won
        then (append_event held.id (some held.state) to_state reason actor_subject detail
              >> pure tt)
            written
        else lose held to_state reason actor_subject (get_invocation held.id t.invocations) t)
    else raise invalid_state_transition t

-- No `expected`, and no further columns.
abbrev pub anything : ToolInvocation → Bool
anything i = true

abbrev pub no_columns : Assignment
no_columns c = c

pub is_ready : ToolInvocation → Bool
is_ready i = same_state i.state ready

pub claim_set : ℕ → ℕ → ℕ → ℕ → Assignment
claim_set lease_id lease_expires_at deadline_at now c = record c {
  state = executing;
  executor_lease_id = some lease_id;
  lease_expires_at = some lease_expires_at;
  deadline_at = some deadline_at;
  started_at = some now;
  attempt_count = c.attempt_count + 1;
}

unfoldable pub claim_for_execution : ℕ → ℕ → ℕ → ℕ → ℕ → Exec Bool
unfolding is_ready claim_set append_event
claim_for_execution invocation_id lease_id lease_expires_at deadline_at now t =
    let won = passes is_ready (get_invocation invocation_id t.invocations) in
    if won
    then (append_event invocation_id (some ready) executing (policy PolicyReason.allowed) none
            (field "lease_id" (int lease_id) end)
          >> pure true)
        (record t {
          invocations =
              update_where invocation_id is_ready
                (claim_set lease_id lease_expires_at deadline_at now) t.invocations;
        })
    else pure false t

-- lease_expires_at > now(); a NULL passes no test.
abbrev pub expires_after : ℕ → Option ℕ → Bool
expires_after now none = false
expires_after now (some e) = ltb now e

unfoldable pub owns_lease : ℕ → ℕ → ToolInvocation → Bool
owns_lease lease_id now i =
    same_state i.state executing
    && same_number i.executor_lease_id (some lease_id)
    && expires_after now i.lease_expires_at

pub gate_set : GateDecision → PolicyReason → ℕ → ℕ → Assignment
gate_set decision reason event_id now c = record c {
  final_gate_decision = some decision;
  final_gate_reason = some reason;
  final_gate_at = some now;
  final_gate_event_id = some event_id;
}

unfoldable pub record_final_gate_if_owned : ℕ → ℕ → GateDecision → PolicyReason → ℕ → ℕ → Exec Bool
unfolding owns_lease gate_set
record_final_gate_if_owned invocation_id lease_id decision reason event_id now t =
    let won = passes (owns_lease lease_id now) (get_invocation invocation_id t.invocations) in
    if won
    then pure true (record t {
      invocations =
          update_where invocation_id (owns_lease lease_id now)
            (gate_set decision reason event_id now) t.invocations;
    })
    else pure false t

-- executor_lease_id=None, lease_expires_at=None, **columns
pub release_set : Assignment → Assignment
release_set columns c = columns (record c { executor_lease_id = none; lease_expires_at = none })

unfoldable pub release_lease :
    ToolInvocation
    → InvocationState
    → Reason
    → Fields
    → (ToolInvocation → Bool)
    → Assignment
    → Exec (Unit {0})
unfolding transition release_set
release_lease held to_state reason detail expected columns =
    transition held to_state reason none detail expected (release_set columns)

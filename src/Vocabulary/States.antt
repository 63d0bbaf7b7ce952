-- ===== src/Vocabulary/States.antt =====
-- The execution state machine (tool_vocabulary.py): the states, which of them are terminal or in
-- flight, and the table of legal transitions.
pub mod Machine
use cyberwithsteve_acop.Base.{
  ℕ, String, Bool, true, false, not, ◌&&◌, ◌||◌, List, [], ◌∷◌, ◌++◌, map, ◌==◌, any, filter,
}

pub data InvocationState : Type 0 where
  requested rejected authorized awaiting_approval approved denied ready executing executed
        validating succeeded validation_failed failed timed_out execution_indeterminate expired
        cancelled superseded :
      InvocationState

-- The members in the order of the class body.
abbrev pub ordinal : InvocationState → ℕ
ordinal requested = 0
ordinal rejected = 1
ordinal authorized = 2
ordinal awaiting_approval = 3
ordinal approved = 4
ordinal denied = 5
ordinal ready = 6
ordinal executing = 7
ordinal executed = 8
ordinal validating = 9
ordinal succeeded = 10
ordinal validation_failed = 11
ordinal failed = 12
ordinal timed_out = 13
ordinal execution_indeterminate = 14
ordinal expired = 15
ordinal cancelled = 16
ordinal superseded = 17

-- InvocationState.value
abbrev pub state_value : InvocationState → String
state_value requested = "REQUESTED"
state_value rejected = "REJECTED"
state_value authorized = "AUTHORIZED"
state_value awaiting_approval = "AWAITING_APPROVAL"
state_value approved = "APPROVED"
state_value denied = "DENIED"
state_value ready = "READY"
state_value executing = "EXECUTING"
state_value executed = "EXECUTED"
state_value validating = "VALIDATING"
state_value succeeded = "SUCCEEDED"
state_value validation_failed = "VALIDATION_FAILED"
state_value failed = "FAILED"
state_value timed_out = "TIMED_OUT"
state_value execution_indeterminate = "EXECUTION_INDETERMINATE"
state_value expired = "EXPIRED"
state_value cancelled = "CANCELLED"
state_value superseded = "SUPERSEDED"

abbrev pub same_state : InvocationState → InvocationState → Bool
same_state s t = ordinal s == ordinal t

abbrev invocation_states : List InvocationState
invocation_states =
    requested ∷ rejected ∷ authorized ∷ awaiting_approval ∷ approved ∷ denied ∷ ready ∷ executing
    ∷ executed ∷ validating ∷ succeeded ∷ validation_failed ∷ failed ∷ timed_out
    ∷ execution_indeterminate ∷ expired ∷ cancelled ∷ superseded ∷ []

abbrev terminal_states : List InvocationState
terminal_states =
    rejected ∷ denied ∷ expired ∷ cancelled ∷ failed ∷ timed_out ∷ execution_indeterminate
    ∷ succeeded ∷ validation_failed ∷ superseded ∷ []

abbrev in_flight_states : List InvocationState
in_flight_states = executing ∷ validating ∷ []

abbrev member_state : InvocationState → List InvocationState → Bool
member_state s = any (same_state s)

abbrev pub is_terminal_state : InvocationState → Bool
is_terminal_state s = member_state s terminal_states

abbrev pub is_in_flight : InvocationState → Bool
is_in_flight s = member_state s in_flight_states

-- The literal part of `LEGAL_TRANSITIONS`.
abbrev listed_transitions : List (InvocationState × InvocationState)
listed_transitions =
    (requested, rejected)
    ∷ (requested, authorized)
    ∷ (authorized, awaiting_approval)
    ∷ (authorized, ready)
    ∷ (awaiting_approval, approved)
    ∷ (awaiting_approval, denied)
    ∷ (awaiting_approval, expired)
    ∷ (awaiting_approval, cancelled)
    ∷ (approved, ready)
    ∷ (ready, executing)
    ∷ (ready, expired)
    ∷ (ready, cancelled)
    ∷ (executing, executed)
    ∷ (executing, expired)
    ∷ (executing, failed)
    ∷ (executing, timed_out)
    ∷ (executing, execution_indeterminate)
    ∷ (executed, succeeded)
    ∷ (executed, validating)
    ∷ (validating, succeeded)
    ∷ (validating, validation_failed)
    ∷ []

-- `LEGAL_TRANSITIONS`: any state that is not terminal may also be superseded.
abbrev legal_transitions : List (InvocationState × InvocationState)
legal_transitions =
    listed_transitions
    ++ map (λ s. (s, superseded)) (filter (λ s. not (is_terminal_state s)) invocation_states)

unfoldable pub is_legal_transition : InvocationState → InvocationState → Bool
is_legal_transition source target =
    any (λ (p : InvocationState × InvocationState). same_state source p.0 && same_state target p.1)
      legal_transitions

-- ===== src/Examples/States.antt =====
-- Runs through the states of an invocation.
use cyberwithsteve_acop.Base.{◌≡◌, refl, ◌≤◌, ◌↔◌, true, false}
use cyberwithsteve_acop.Vocabulary.States.{
  InvocationState, requested, authorized, ready, executing, executed, succeeded, failed,
  is_legal_transition, is_terminal_state,
}
use cyberwithsteve_acop.Vocabulary.States.Machine.{
  Run, here, next, steps, visits, terminal_iff_no_exit, run_short, execution_needs_ready,
}

terminal_iff_no_exit_example :
    (is_terminal_state failed ≡ true)
    ↔ ((t : InvocationState) → is_legal_transition failed t ≡ false)
terminal_iff_no_exit_example = terminal_iff_no_exit failed

abbrev executing_run : Run requested executing
unfolding is_legal_transition
executing_run = next {u = ready} (next {u = authorized} (next {u = requested} here refl) refl) refl

abbrev succeeded_run : Run requested succeeded
unfolding is_legal_transition
succeeded_run = next {u = executed} (next {u = executing} executing_run refl) refl

run_short_example : steps succeeded_run ≤ 8
run_short_example = run_short succeeded_run

execution_needs_ready_example :
    (visits authorized executing_run ≡ true) × (visits ready executing_run ≡ true)
execution_needs_ready_example = execution_needs_ready executing_run refl

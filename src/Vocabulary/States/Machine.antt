-- ===== src/Vocabulary/States/Machine.antt =====
-- The transition table of src/acop/models/tool_vocabulary.py read as a state machine: what a run
-- of legal transitions can and cannot do.
use cyberwithsteve_acop.Base.{
  ℕ, zero, suc, ◌<◌, ◌≤◌, ◌+◌, ◌≡◌, refl, sym, ap, ◌∙◌, ◌↔◌, inl, inr, Bool, true, false, ◌||◌,
  arith, ==_iff, Bool-cases,
}
use cyberwithsteve_acop.Vocabulary.States.{
  InvocationState, requested, rejected, authorized, awaiting_approval, approved, denied, ready,
  executing, executed, validating, succeeded, validation_failed, failed, timed_out,
  execution_indeterminate, expired, cancelled, superseded, ordinal, same_state, is_terminal_state,
  is_legal_transition,
}

-- The inverse of `ordinal`; numbers that no member has go to the last one.
abbrev of_ordinal : ℕ → InvocationState
of_ordinal zero = requested
of_ordinal (suc zero) = rejected
of_ordinal (suc (suc zero)) = authorized
of_ordinal (suc (suc (suc zero))) = awaiting_approval
of_ordinal (suc (suc (suc (suc zero)))) = approved
of_ordinal (suc (suc (suc (suc (suc zero))))) = denied
of_ordinal (suc (suc (suc (suc (suc (suc zero)))))) = ready
of_ordinal (suc (suc (suc (suc (suc (suc (suc zero))))))) = executing
of_ordinal (suc (suc (suc (suc (suc (suc (suc (suc zero)))))))) = executed
of_ordinal (suc (suc (suc (suc (suc (suc (suc (suc (suc zero))))))))) = validating
of_ordinal (suc (suc (suc (suc (suc (suc (suc (suc (suc (suc zero)))))))))) = succeeded
of_ordinal (suc (suc (suc (suc (suc (suc (suc (suc (suc (suc (suc zero))))))))))) =
    validation_failed
of_ordinal (suc (suc (suc (suc (suc (suc (suc (suc (suc (suc (suc (suc zero)))))))))))) = failed
of_ordinal (suc (suc (suc (suc (suc (suc (suc (suc (suc (suc (suc (suc (suc zero))))))))))))) =
    timed_out
of_ordinal
      (suc (suc (suc (suc (suc (suc (suc (suc (suc (suc (suc (suc (suc (suc zero)))))))))))))) =
    execution_indeterminate
of_ordinal
      (suc
        (suc (suc (suc (suc (suc (suc (suc (suc (suc (suc (suc (suc (suc (suc zero))))))))))))))) =
    expired
of_ordinal
      (suc (
        suc (
          suc
            (suc (suc (suc (suc (suc (suc (suc (suc (suc (suc (suc (suc (suc zero)))))))))))))))) =
    cancelled
of_ordinal _ = superseded

of_ordinal-ordinal : (s : InvocationState) → of_ordinal (ordinal s) ≡ s
of_ordinal-ordinal requested = refl
of_ordinal-ordinal _ = refl

pub same_state_iff : (s t : InvocationState) → (same_state s t ≡ true) ↔ (s ≡ t)
same_state_iff s t = (
  λ h. sym (of_ordinal-ordinal s) ∙ ap of_ordinal ((==_iff _ _).0 h) ∙ of_ordinal-ordinal t,
  λ e. (==_iff _ _).1 (ap ordinal e),
)

pub same_state_refl : (s : InvocationState) → same_state s s ≡ true
same_state_refl s = (same_state_iff s s).1 refl

-- A run of legal transitions, with the state that it has reached.
pub data Run (s : InvocationState) : InvocationState → Type 0 where
  here : Run s s
  next : {u t : InvocationState} → Run s u → is_legal_transition u t ≡ true → Run s t

module _ {s : InvocationState} where
  pub steps : {t : InvocationState} → Run s t → ℕ
  steps here = 0
  steps (next r h) = suc (steps r)

  pub visits : InvocationState → {t : InvocationState} → Run s t → Bool
  visits g here = same_state g s
  visits g (next {t = t} r h) = same_state g t || visits g r

-- How far along its path a state stands; every legal transition goes further.
abbrev stage : InvocationState → ℕ
stage requested = 0
stage authorized = 1
stage awaiting_approval = 2
stage approved = 3
stage ready = 4
stage executing = 5
stage executed = 6
stage validating = 7
stage _ = 8

terminal_stays :
    (s t : InvocationState) → is_terminal_state s ≡ true → is_legal_transition s t ≡ false
unfolding is_legal_transition
terminal_stays requested t h = cc
terminal_stays _ t h = ground arith

nonterminal_leaves :
    (s : InvocationState) → is_terminal_state s ≡ false → is_legal_transition s superseded ≡ true
unfolding is_legal_transition
nonterminal_leaves requested h = refl
nonterminal_leaves _ h = ground arith

stage_grows : (s t : InvocationState) → is_legal_transition s t ≡ true → stage s < stage t
unfolding is_legal_transition
stage_grows requested requested h = ground arith
stage_grows _ _ h = ground arith

-- Terminal states are exactly those that no legal transition leaves.
pub terminal_iff_no_exit :
    (s : InvocationState)
    → (is_terminal_state s ≡ true) ↔ ((t : InvocationState) → is_legal_transition s t ≡ false)
terminal_iff_no_exit s = (
  λ h t. terminal_stays s t h,
  λ all. elim (Bool-cases (is_terminal_state s)) [
    | inl ended ↦ ended
    | inr open_ended ↦ cc (all superseded, nonterminal_leaves s open_ended)
  ],
)

-- A run takes at most eight steps, and fewer the further on it starts.
steps_bounded : {s t : InvocationState} (r : Run s t) → stage s + steps r ≤ stage t
unfolding steps
steps_bounded here = omega arith
steps_bounded (next {u = u} {t = t} r h) = omega (arith, steps_bounded r, stage_grows u t h)

stage_capped : (s : InvocationState) → stage s ≤ 8
stage_capped requested = omega arith
stage_capped _ = omega arith

-- From any state, a run of legal transitions has at most eight steps.
pub run_short : {s t : InvocationState} (r : Run s t) → steps r ≤ 8
run_short {t = t} r = omega (arith, steps_bounded r, stage_capped t)

or_later : (a b c : Bool) → (a || b) ≡ true → (b ≡ true → c ≡ true) → (a || c) ≡ true
or_later true b c h k = refl
or_later false b c h k = k h

-- The states that a run from `requested` reaches only by way of the gate.
module _ (gate : InvocationState) (past : InvocationState → Bool) where
  gate_visited :
      ((u t : InvocationState)
        → is_legal_transition u t ≡ true
        → past t ≡ true
        → (same_state gate t || past u) ≡ true)
      → past requested ≡ false
      → {t : InvocationState} (r : Run requested t) → past t ≡ true
      → visits gate r ≡ true
  unfolding visits
  gate_visited guarded start here h = cc
  gate_visited guarded start (next {u = u} {t = t} r l) h =
      or_later (same_state gate t) (past u) _ (guarded u t l h) (gate_visited guarded start r)

abbrev pub past_authorized : InvocationState → Bool
past_authorized requested = false
past_authorized rejected = false
past_authorized superseded = false
past_authorized _ = true

abbrev pub past_ready : InvocationState → Bool
past_ready s = past_executing s || same_state s ready
  where
    past_executing : InvocationState → Bool
    past_executing executing = true
    past_executing executed = true
    past_executing validating = true
    past_executing succeeded = true
    past_executing validation_failed = true
    past_executing failed = true
    past_executing timed_out = true
    past_executing execution_indeterminate = true
    past_executing _ = false

pub authorized_guards :
    (u t : InvocationState)
    → is_legal_transition u t ≡ true
    → past_authorized t ≡ true
    → (same_state authorized t || past_authorized u) ≡ true
unfolding is_legal_transition
authorized_guards requested requested l h = ground arith
authorized_guards _ _ l h = ground arith

pub ready_guards :
    (u t : InvocationState)
    → is_legal_transition u t ≡ true
    → past_ready t ≡ true
    → (same_state ready t || past_ready u) ≡ true
unfolding is_legal_transition
ready_guards requested requested l h = ground arith
ready_guards _ _ l h = ground arith

abbrev past_executed : InvocationState → Bool
past_executed executed = true
past_executed validating = true
past_executed succeeded = true
past_executed validation_failed = true
past_executed _ = false

executed_guards :
    (u t : InvocationState)
    → is_legal_transition u t ≡ true
    → past_executed t ≡ true
    → (same_state executed t || past_executed u) ≡ true
unfolding is_legal_transition
executed_guards requested requested l h = ground arith
executed_guards _ _ l h = ground arith

pub past_ready-authorized : (t : InvocationState) → past_ready t ≡ true → past_authorized t ≡ true
past_ready-authorized requested h = ground arith
past_ready-authorized _ h = ground arith

-- A run from `requested` that ends in `executing`, or in an outcome of an execution, has passed
-- `authorized` and `ready`.
pub execution_needs_ready :
    {t : InvocationState} (r : Run requested t)
    → past_ready t ≡ true
    → (visits authorized r ≡ true) × (visits ready r ≡ true)
execution_needs_ready {t = t} r h = (
  gate_visited authorized past_authorized authorized_guards refl r (past_ready-authorized t h),
  gate_visited ready past_ready ready_guards refl r h,
)

-- A run from `requested` that ends in `succeeded` has passed `authorized`, `ready` and `executed`.
success_needs_execution :
    (r : Run requested succeeded)
    → (visits authorized r ≡ true) × (visits ready r ≡ true) × (visits executed r ≡ true)
success_needs_execution r = (
  (execution_needs_ready r refl).0,
  (execution_needs_ready r refl).1,
  gate_visited executed past_executed executed_guards refl r refl,
)

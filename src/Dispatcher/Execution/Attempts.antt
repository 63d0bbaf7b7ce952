-- ===== src/Dispatcher/Execution/Attempts.antt =====
-- How often the attempt loop of src/acop/services/tools/dispatcher.py calls an adapter.
use cyberwithsteve_acop.Base.{
  ℕ, zero, suc, ◌+◌, ◌≤◌, ◌≡◌, refl, ap, subst, String, Bool, true, false, Option, none, some, List,
  [], ◌∷◌, length, length-append, arith, Bool-cases, inl, inr,
}
use cyberwithsteve_acop.Json.{Fields, end}
use cyberwithsteve_acop.Vocabulary.States.{InvocationState}
use cyberwithsteve_acop.Vocabulary.Reasons.{
  AdapterOutcome, success, ToolErrorCategory, Reason, category, policy, PolicyReason,
}
use cyberwithsteve_acop.Contract.{ToolDefinition, Validation, valid, invalid, crashed}
use cyberwithsteve_acop.Sanitize.{sanitize_output}
use cyberwithsteve_acop.Store.{
  ToolInvocation, Tables, AdapterCall, execute_call, Result, Exec, Assignment, pure, ◌>>◌,
}
use cyberwithsteve_acop.Store.Actions.{bind-keeps}
use cyberwithsteve_acop.State.{release_lease, anything, release_set}
use cyberwithsteve_acop.State.Steps.{transition_cases}
use cyberwithsteve_acop.Dispatcher.Execution.{
  Adapter, ExecuteReply, returned, timed_out, tool_error, unhandled, attempts, called, close_with,
  failed_set, executed_set, publish, after_output, record_adapter_result, may_retry, after_reply,
  execute, execute_with, request_of,
}

pub release-calls :
    (i : ToolInvocation) (s : InvocationState) (r : Reason) (detail : Fields)
    (expected : ToolInvocation → Bool) (set : Assignment) (t : Tables)
    → (release_lease i s r detail expected set t).1.adapter_calls ≡ t.adapter_calls
unfolding release_lease
release-calls i s r detail expected set t =
    transition_cases i s r none detail expected (release_set set) t
      (λ (x : Result (Unit {0}) × Tables). x.1.adapter_calls ≡ t.adapter_calls) (λ no_way. refl)
      (λ gone. refl) (λ row found failed. refl) (λ row legal found passed. refl)

then-calls :
    (m : Exec (Unit {0})) (s : InvocationState) (t : Tables)
    → (m t).1.adapter_calls ≡ t.adapter_calls
    → ((m >> pure s) t).1.adapter_calls ≡ t.adapter_calls
then-calls m s t h =
    bind-keeps (λ u. u.adapter_calls ≡ t.adapter_calls) m (λ done. pure s) t h (λ done u kept. kept)

close-calls :
    (i : ToolInvocation) (s : InvocationState) (c : ToolErrorCategory) (now : ℕ) (t : Tables)
    → (close_with i s c now t).1.adapter_calls ≡ t.adapter_calls
unfolding close_with
close-calls i s c now t =
    then-calls (release_lease i s (category c) end anything (failed_set c now)) s t
      (release-calls i s (category c) end anything (failed_set c now) t)

module _ (sha256 : List ℕ → String) where
  publish-calls :
      (i : ToolInvocation) (d : ToolDefinition) (declared hint : Fields) (t : Tables)
      → (publish sha256 i d declared hint t).1.adapter_calls ≡ t.adapter_calls
  unfolding publish
  publish-calls i d declared hint t =
      let (summary, digest) = sanitize_output sha256 d declared in
      let set = executed_set summary digest hint in
      then-calls
        (release_lease i InvocationState.executed (policy PolicyReason.allowed) end anything set)
        InvocationState.executed t
        (release-calls i InvocationState.executed (policy PolicyReason.allowed) end anything set t)

  output-calls :
      (i : ToolInvocation) (d : ToolDefinition) (hint : Fields) (now : ℕ) (v : Validation)
      (t : Tables)
      → (after_output sha256 i d hint now v t).1.adapter_calls ≡ t.adapter_calls
  unfolding after_output
  output-calls i d hint now (valid declared) t = publish-calls i d declared hint t
  output-calls i d hint now invalid t = close-calls i _ _ now t
  output-calls i d hint now crashed t = refl

  record-calls :
      (i : ToolInvocation) (d : ToolDefinition) (now : ℕ) (o : AdapterOutcome)
      (payload hint : Fields) (t : Tables)
      → (record_adapter_result sha256 i d now o payload hint t).1.adapter_calls ≡ t.adapter_calls
  unfolding record_adapter_result
  record-calls i d now success payload hint t =
      output-calls i d hint now (d.output_model.model_validate payload) t
  record-calls i d now _ payload hint t = close-calls i _ _ now t

-- The calls that a loop makes: `Tried left before made`, when `left` attempts were left and `before`
-- calls had been made. Another call follows only a tool error that may be retried.
pub data Tried (adapter : Adapter) (i : ToolInvocation) (d : ToolDefinition)
    : ℕ → ℕ → ℕ → Type 0 where
  none_left : {before : ℕ} → Tried adapter i d 0 before 0
  last_one : {left before : ℕ} → Tried adapter i d (suc left) before 1
  retried :
      {left before made : ℕ} (c : ToolErrorCategory)
      → adapter.execute before (request_of i d) ≡ tool_error c
      → may_retry left d c ≡ true
      → Tried adapter i d left (before + 1) made
      → Tried adapter i d (suc left) before (suc made)

module _ (sha256 : List ℕ → String) (adapter : Adapter) (i : ToolInvocation) (d : ToolDefinition)
    (now : ℕ) where
  -- What a run of the loop leaves: some number of calls, as `Tried` has them.
  abbrev Made : ℕ → Tables → Tables → Type 0
  Made left t after =
      (made : ℕ) × Tried adapter i d left (length t.adapter_calls) made
      × (length after.adapter_calls ≡ length t.adapter_calls + made)

  one_call :
      (t : Tables) (calls : List AdapterCall)
      → calls ≡ (called i t).adapter_calls
      → length calls ≡ length t.adapter_calls + 1
  one_call t calls e = rw e (length-append {0} t.adapter_calls (execute_call i.id ∷ []))

  more_calls :
      (t after : Tables) (left : ℕ) (c : ToolErrorCategory)
      → adapter.execute (length t.adapter_calls) (request_of i d) ≡ tool_error c
      → may_retry left d c ≡ true
      → Made left (called i t) after
      → Made (suc left) t after
  more_calls t after left c replied may (made, tried, counted) = (
    suc made,
    retried c replied may (
        subst (λ n. Tried adapter i d left n made)
          (length-append {0} t.adapter_calls (execute_call i.id ∷ [])) tried),
    omega (arith, length-append {0} t.adapter_calls (execute_call i.id ∷ []), counted),
  )

  reply-Made :
      (left : ℕ) (again : ToolErrorCategory → Exec InvocationState) (t : Tables) (r : ExecuteReply)
      → adapter.execute (length t.adapter_calls) (request_of i d) ≡ r
      → ((c : ToolErrorCategory) → Made left (called i t) (again c (called i t)).1)
      → Made (suc left) t (after_reply sha256 i d now left again r (called i t)).1
  unfolding after_reply
  reply-Made left again t (returned o payload hint) e rest =
      (1, last_one, one_call t _ (record-calls sha256 i d now o payload hint (called i t)))
  reply-Made left again t timed_out e rest =
      (1, last_one, one_call t _ (close-calls i _ _ now (called i t)))
  reply-Made left again t (tool_error c) e rest = elim (Bool-cases (may_retry left d c)) [
    | inl may ↦ rw may (more_calls t (again c (called i t)).1 left c e may (rest c))
    | inr stop ↦ rw stop (1, last_one, one_call t _ (close-calls i _ _ now (called i t)))
  ]
  reply-Made left again t unhandled e rest =
      (1, last_one, one_call t _ (close-calls i _ _ now (called i t)))

  -- The loop makes some number of calls of the adapter: none when no attempt is left, one when the
  -- first ends it, and another only after a tool error whose category the tool's policy lists, when
  -- the adapter is idempotent and an attempt is left. A report, a timeout and any other exception
  -- end it.
  pub attempts-Made :
      (left : ℕ) (last : ToolErrorCategory) (t : Tables)
      → Made left t (attempts sha256 left last adapter i d now t).1
  unfolding attempts
  attempts-Made zero last t = (
    0,
    none_left,
    omega (arith, ap (length {0}) (close-calls i InvocationState.failed last now t)),
  )
  attempts-Made (suc left) last t =
      reply-Made left _ t (adapter.execute (length t.adapter_calls) (request_of i d)) refl
        (λ c. attempts-Made left c (called i t))

  Tried-bound : {left before made : ℕ} → Tried adapter i d left before made → made ≤ left
  Tried-bound none_left = omega arith
  Tried-bound last_one = omega arith
  Tried-bound (retried c e may rest) = omega (arith, Tried-bound rest)

  no_retry :
      (left : ℕ) (c : ToolErrorCategory) → d.adapter_idempotent ≡ false → may_retry left d c ≡ false
  unfolding may_retry
  no_retry left c single = ground arith

  Tried-once :
      {left before made : ℕ}
      → d.adapter_idempotent ≡ false
      → Tried adapter i d left before made
      → made ≤ 1
  Tried-once single none_left = omega arith
  Tried-once single last_one = omega arith
  Tried-once {left} single (retried {left = rest_left} c e may rest) =
      ground (arith, no_retry rest_left c single, may)

  -- One execution calls the adapter at most `max_attempts` times, and at most once when the adapter
  -- is not declared idempotent.
  pub execute_bounded :
      (resolve_adapter : String → Option Adapter) (t : Tables)
      → resolve_adapter d.adapter_id ≡ some adapter
      → let after = (execute sha256 resolve_adapter i d now t).1 in
        (length after.adapter_calls ≤ length t.adapter_calls + d.retry_policy.max_attempts)
        × (d.adapter_idempotent ≡ false → length after.adapter_calls ≤ length t.adapter_calls + 1)
  unfolding execute execute_with
  execute_bounded resolve_adapter t bound =
      let (made, tried, counted) =
        attempts-Made d.retry_policy.max_attempts ToolErrorCategory.internal_error t in
      rw bound (
        omega (arith, Tried-bound tried, counted),
        λ single. omega (arith, Tried-once single tried, counted),
      )

-- ===== src/Dispatcher/Execution/Sound.antt =====
-- An execution of src/acop/services/tools/dispatcher.py leaves rows and histories sound, and the row out of
-- flight where it returns.
use cyberwithsteve_acop.Base.{
  ℕ, zero, suc, ◌≡◌, refl, sym, subst, ◌∙◌, String, false, Option, none, some, List, length,
  Bool-cases, inl, inr,
}
use cyberwithsteve_acop.Json.{Fields, end}
use cyberwithsteve_acop.Vocabulary.States.{InvocationState, is_in_flight}
use cyberwithsteve_acop.Vocabulary.Reasons.{
  Reason, AdapterOutcome, success, failure, timeout, unavailable, ToolErrorCategory, PolicyReason,
  policy, category,
}
use cyberwithsteve_acop.Contract.{ToolDefinition, Validation, valid, invalid, crashed}
use cyberwithsteve_acop.Sanitize.{sanitize_output}
use cyberwithsteve_acop.Store.{
  ToolInvocation, Tables, Result, ok, err, Exec, Assignment, get_invocation, pure, ◌>>◌, continue,
}
use cyberwithsteve_acop.Store.Rows.{get-update_self}
use cyberwithsteve_acop.State.{release_lease, release_set, anything, append_event, cas_set}
use cyberwithsteve_acop.State.Steps.{transition_cases}
use cyberwithsteve_acop.State.Leases.{LeavesLease}
use cyberwithsteve_acop.State.Sound.{IsSound, same-IsSound, release-IsSound}
use cyberwithsteve_acop.Dispatcher.Execution.{
  Adapter, ExecuteReply, returned, timed_out, tool_error, unhandled, request_of, failed_set,
  close_with, executed_set, may_retry, called, publish, after_output, record_adapter_result,
  after_reply, attempts, execute_with, execute,
}

-- No row with the id is in flight.
abbrev pub Out : ℕ → Tables → Type 0
Out id t =
    (j : ToolInvocation) → get_invocation id t.invocations ≡ some j → is_in_flight j.state ≡ false

-- Sound, and out of flight where it returned.
abbrev Left {ℓ} : {A : Type ℓ} → ℕ → Result A × Tables → Type ℓ
Left {A = A} id x = IsSound x.1 × ((a : A) → x.0 ≡ ok a → Out id x.1)

pub failed_leaves : (c : ToolErrorCategory) (now : ℕ) → LeavesLease (failed_set c now)
unfolding failed_set
failed_leaves c now = record {
  same_lease = λ x. refl;
  same_expiry = λ x. refl;
  same_decision = λ x. refl;
  same_time = λ x. refl;
  same_event = λ x. refl;
}

executed_leaves :
    (summary : Fields) (digest : String) (hint : Fields)
    → LeavesLease (executed_set summary digest hint)
unfolding executed_set
executed_leaves summary digest hint = record {
  same_lease = λ x. refl;
  same_expiry = λ x. refl;
  same_decision = λ x. refl;
  same_time = λ x. refl;
  same_event = λ x. refl;
}

same_row : (a b : ToolInvocation) → some a ≡ some b → a ≡ b
same_row a b e = cc

release-Out :
    (held : ToolInvocation) (to_state : InvocationState) (r : Reason) (detail : Fields)
    (set : Assignment) (t : Tables)
    → is_in_flight to_state ≡ false
    → (a : Unit {0}) → (release_lease held to_state r detail anything set t).0 ≡ ok a
    → Out held.id (release_lease held to_state r detail anything set t).1
unfolding release_lease append_event cas_set
release-Out held to_state r detail set t out a =
    transition_cases held to_state r none detail anything (release_set set) t
      (λ x. x.0 ≡ ok a → Out held.id x.1) (λ no_way e. cc) (λ gone e. cc) (λ i found failed e. cc)
      (λ i legal found passed e j there.
        let now =
          sym (
            get-update_self held.id _ (cas_set to_state (release_set set)) t.invocations i found
              passed)
          ∙ there in
        subst (λ x. is_in_flight x.state ≡ false) (same_row _ j now) out)

-- Leaving for a state that is not in flight.
leave-Left :
    (held : ToolInvocation) (to_state : InvocationState) (r : Reason) (detail : Fields)
    (set : Assignment) (t : Tables)
    → is_in_flight to_state ≡ false
    → LeavesLease set
    → IsSound t
    → Left held.id ((release_lease held to_state r detail anything set >> pure to_state) t)
leave-Left held to_state r detail set t out leaves h =
    by_result (release_lease held to_state r detail anything set t).0
      (release-IsSound held to_state r detail anything set t out leaves h)
      (release-Out held to_state r detail set t out)
  where
    by_result :
        (x : Result (Unit {0}))
        → IsSound (release_lease held to_state r detail anything set t).1
        → ((a : Unit {0})
            → x ≡ ok a
            → Out held.id (release_lease held to_state r detail anything set t).1)
        → Left held.id (
            continue x
              (λ done. pure to_state)
              (release_lease held to_state r detail anything set t).1)
    by_result (ok a) sound gone = (sound, λ s e. gone a refl)
    by_result (err x) sound gone = (sound, λ s e. cc)

module _ (i : ToolInvocation) where
  close-Left :
      (to_state : InvocationState) (c : ToolErrorCategory) (now : ℕ) (t : Tables)
      → is_in_flight to_state ≡ false
      → IsSound t
      → Left i.id (close_with i to_state c now t)
  unfolding close_with
  close-Left to_state c now t out h =
      leave-Left i to_state (category c) end (failed_set c now) t out (failed_leaves c now) h

  module _ (sha256 : List ℕ → String) (d : ToolDefinition) (now : ℕ) where
    output-Left :
        (hint : Fields) (v : Validation) (t : Tables)
        → IsSound t
        → Left i.id (after_output sha256 i d hint now v t)
    unfolding after_output publish
    output-Left hint (valid declared) t h =
        let (summary, digest) = sanitize_output sha256 d declared in
        leave-Left i InvocationState.executed (policy PolicyReason.allowed) end
          (executed_set summary digest hint) t refl (executed_leaves summary digest hint) h
    output-Left hint invalid t h = close-Left InvocationState.failed _ now t refl h
    output-Left hint crashed t h = (h, λ s e. cc)

    result-Left :
        (outcome : AdapterOutcome) (payload hint : Fields) (t : Tables)
        → IsSound t
        → Left i.id (record_adapter_result sha256 i d now outcome payload hint t)
    unfolding record_adapter_result
    result-Left success payload hint t h =
        output-Left hint (d.output_model.model_validate payload) t h
    result-Left failure payload hint t h = close-Left InvocationState.failed _ now t refl h
    result-Left timeout payload hint t h = close-Left InvocationState.failed _ now t refl h
    result-Left unavailable payload hint t h = close-Left InvocationState.failed _ now t refl h

    reply-Left :
        (left : ℕ) (again : ToolErrorCategory → Exec InvocationState) (r : ExecuteReply)
        (t : Tables)
        → ((c : ToolErrorCategory) → Left i.id (again c t))
        → IsSound t
        → Left i.id (after_reply sha256 i d now left again r t)
    unfolding after_reply
    reply-Left left again (returned outcome payload hint) t k h =
        result-Left outcome payload hint t h
    reply-Left left again timed_out t k h = close-Left InvocationState.timed_out _ now t refl h
    reply-Left left again (tool_error c) t k h = elim (Bool-cases (may_retry left d c)) [
      | inl more ↦ rw more (k c)
      | inr over ↦ rw over (close-Left InvocationState.failed c now t refl h)
    ]
    reply-Left left again unhandled t k h = close-Left InvocationState.failed _ now t refl h

    attempts-Left :
        (left : ℕ) (last : ToolErrorCategory) (adapter : Adapter) (t : Tables)
        → IsSound t
        → Left i.id (attempts sha256 left last adapter i d now t)
    unfolding attempts
    attempts-Left zero last adapter t h = close-Left InvocationState.failed last now t refl h
    attempts-Left (suc left) last adapter t h =
        let k = same-IsSound t (called i t) refl refl refl h in
        reply-Left left (λ c. attempts sha256 left c adapter i d now)
          (adapter.execute (length t.adapter_calls) (request_of i d)) (called i t)
          (λ c. attempts-Left left c adapter (called i t) k) k

    with-Left :
        (o : Option Adapter) (t : Tables) → IsSound t → Left i.id (execute_with sha256 o i d now t)
    unfolding execute_with
    with-Left none t h = close-Left InvocationState.failed _ now t refl h
    with-Left (some adapter) t h = attempts-Left d.retry_policy.max_attempts _ adapter t h

    pub execute-Left :
        (resolve_adapter : String → Option Adapter) (t : Tables)
        → IsSound t
        → Left i.id (execute sha256 resolve_adapter i d now t)
    unfolding execute
    execute-Left resolve_adapter t h = with-Left (resolve_adapter d.adapter_id) t h

-- ===== src/Approval/History.antt =====
-- `decide` of src/acop/services/tools/approval.py keeps histories and rows in agreement.
use Prim.Native.Nat.{min}
use cyberwithsteve_acop.Base.{
  if◌then◌else◌, ◌≡◌, ℕ, refl, String, Bool, Option, none, some, [], ◌∷◌, ◌++◌, ltb,
}
use cyberwithsteve_acop.Json.{field, end, int}
use cyberwithsteve_acop.Vocabulary.States.{InvocationState, ready}
use cyberwithsteve_acop.Vocabulary.Roles.{Principal}
use cyberwithsteve_acop.Vocabulary.Reasons.{
  Reason, ApprovalDecision, approved, denied, PolicyReason, policy,
}
use cyberwithsteve_acop.Store.{
  ToolInvocation, ToolApproval, Tables, Result, ok, err, duplicate_approval, pure, raise, ◌>>◌,
  get_invocation, update_where,
}
use cyberwithsteve_acop.Store.Actions.{bind-keeps, transaction-keeps, if-keeps}
use cyberwithsteve_acop.State.{transition, anything, no_columns}
use cyberwithsteve_acop.State.History.Replay.{HasHistory, each-HasHistory, same-HasHistory}
use cyberwithsteve_acop.State.History.Operations.{transition-HasHistory}
use cyberwithsteve_acop.State.Leases.{LeavesLease}
use cyberwithsteve_acop.State.Sound.{
  IsSound, is_early, same-IsSound, early-IsSound, each-IsSound, no_columns-LeavesLease,
}
use cyberwithsteve_acop.Approval.{
  unexpected, not, true, Assignment, Fields, violates_distinct, approval_fits, refreshed,
  approved_set, advance, received_set, approved_rows, approvers, count_distinct, count_and_advance,
  insert_approval, after_decision, audit_decided, audit_refused, new_approval, enact, decide_on,
  decide_found, decide, checks,
}

approved_leaves : (now : ℕ) → LeavesLease (approved_set now)
unfolding approved_set
approved_leaves now = record {
  same_lease = λ c. refl;
  same_expiry = λ c. refl;
  same_decision = λ c. refl;
  same_time = λ c. refl;
  same_event = λ c. refl;
}

received_leaves : (n : ℕ) → LeavesLease (received_set n)
unfolding received_set
received_leaves n = record {
  same_lease = λ c. refl;
  same_expiry = λ c. refl;
  same_decision = λ c. refl;
  same_time = λ c. refl;
  same_event = λ c. refl;
}

-- A predicate that reads rows, events and ids, and that early transitions and the count keep.
module _ {ℓ} (P : Tables → Type ℓ)
    (same : (t u : Tables)
      → u.invocations ≡ t.invocations
      → u.events ≡ t.events
      → u.next_id ≡ t.next_id
      → P t
      → P u)
    (moves : (held : ToolInvocation) (to_state : InvocationState) (reason : Reason)
        (actor : Option String) (detail : Fields) (columns : Assignment) (t : Tables)
      → is_early to_state ≡ true
      → LeavesLease columns
      → P t
      → P (transition held to_state reason actor detail anything columns t).1)
    (flushes : (i : ToolInvocation) (n : ℕ) (t : Tables)
      → P t
      → P (record t {
        invocations = update_where i.id anything (received_set n) t.invocations;
      })) where
  insert-keeps : (a : ToolApproval) (t : Tables) → P t → P (insert_approval a t).1
  unfolding insert_approval
  insert-keeps a t h =
      let indexed =
        if violates_distinct a t.approvals
        then raise {A = Unit {0}} duplicate_approval t
        else pure tt (record t { approvals = t.approvals ++ a ∷ [] }) in
      if-keeps P (not (approval_fits a)) (raise unexpected t) indexed h (
        if-keeps P (violates_distinct a t.approvals) (raise {A = Unit {0}} duplicate_approval t)
          (pure tt (record t { approvals = t.approvals ++ a ∷ [] })) h (same t _ refl refl refl h))

  advance-keeps :
      (i : ToolInvocation) (p : Principal) (n now : ℕ) (t : Tables)
      → P t
      → P (advance i p n now t).1
  unfolding advance
  advance-keeps i p n now t h =
      bind-keeps P
        (transition i InvocationState.approved (policy PolicyReason.allowed) (some p.subject)
          (field "approvals" (int n) end) anything (approved_set now))
        (λ _ u.
          transition (refreshed i u) ready (policy PolicyReason.allowed) (some p.subject) end
            anything no_columns u)
        t (moves i InvocationState.approved _ _ _ (approved_set now) t refl (approved_leaves now) h)
        (λ _ u k. moves (refreshed i u) ready _ _ _ no_columns u refl no_columns-LeavesLease k)

  count-keeps :
      (i : ToolInvocation) (p : Principal) (now : ℕ) (t : Tables)
      → P t
      → P (count_and_advance i p now t).1
  unfolding count_and_advance
  count-keeps i p now t h =
      let n = count_distinct (approvers (approved_rows i.id t.approvals)) in
      let flushed = record t {
        invocations =
            update_where i.id anything (received_set (min n i.min_approvals)) t.invocations;
      } in
      let k : P flushed = flushes i (min n i.min_approvals) t h in
      if-keeps P (ltb n i.min_approvals) (pure tt flushed)
        (advance (refreshed i flushed) p n now flushed) k
        (advance-keeps (refreshed i flushed) p n now flushed k)

  after-keeps :
      (i : ToolInvocation) (p : Principal) (d : ApprovalDecision) (now : ℕ) (t : Tables)
      → P t
      → P (after_decision i p d now t).1
  unfolding after_decision
  after-keeps i p denied now t h =
      moves i InvocationState.denied _ _ _ no_columns t refl no_columns-LeavesLease h
  after-keeps i p approved now t h = count-keeps i p now t h

  enact-keeps :
      (i : ToolInvocation) (p : Principal) (a : ToolApproval) (now : ℕ) (t : Tables)
      → P t
      → P (enact i p a now t).1
  unfolding enact
  enact-keeps i p a now t h =
      bind-keeps P (insert_approval a >> after_decision i p a.decision now)
        (λ _. audit_decided i p a) t
        (bind-keeps P (insert_approval a) (λ _. after_decision i p a.decision now) t
          (insert-keeps a t h) (λ _ u k. after-keeps i p a.decision now u k))
        (λ _ u k. unfold audit_decided in same u _ refl refl refl k)

  on-keeps :
      (i : ToolInvocation) (p : Principal) (d : ApprovalDecision) (justification : String) (now : ℕ)
      (r : Result Bool) (t : Tables)
      → P t
      → P (decide_on i p d justification now r t).1
  unfolding decide_on
  on-keeps i p d justification now (err e) t h = unfold audit_refused in same t _ refl refl refl h
  on-keeps i p d justification now (ok self) t h =
      let a = new_approval i p d justification self now in
      bind-keeps P (enact i p a now) (λ _. pure a) t (enact-keeps i p a now t h) (λ _ u k. k)

  found-keeps :
      (allow_self : Bool) (p : Principal) (d : ApprovalDecision) (justification stated : String)
      (now : ℕ) (o : Option ToolInvocation) (t : Tables)
      → P t
      → P (decide_found allow_self p d justification stated now o t).1
  unfolding decide_found
  found-keeps allow_self p d justification stated now none t h = h
  found-keeps allow_self p d justification stated now (some i) t h =
      on-keeps i p d justification now (checks allow_self i p stated) t h

  decide-keeps :
      (allow_self : Bool) (id : ℕ) (p : Principal) (d : ApprovalDecision)
      (justification stated : String) (now : ℕ) (t : Tables)
      → P t
      → P (decide allow_self id p d justification stated now t).1
  unfolding decide
  decide-keeps allow_self id p d justification stated now t h =
      transaction-keeps P
        (λ u.
          decide_found allow_self p d justification stated now (get_invocation id u.invocations) u)
        t
        (found-keeps allow_self p d justification stated now (get_invocation id t.invocations) t h)
        (same t _ refl refl refl h)

-- Whatever an approver decides, and whether the decision is accepted or refused, the history of
-- every invocation goes on agreeing with its row.
decide-HasHistory :
    (allow_self : Bool) (id : ℕ) (p : Principal) (d : ApprovalDecision)
    (justification stated : String) (now : ℕ) (t : Tables)
    → HasHistory t
    → HasHistory (decide allow_self id p d justification stated now t).1
unfolding received_set
decide-HasHistory =
    decide-keeps HasHistory same-HasHistory
      (λ held to_state reason actor detail columns t early leaves h.
        transition-HasHistory held to_state reason actor detail anything columns t h)
      (λ i n t h. each-HasHistory t h i.id anything (received_set n) (λ c. refl))

-- So do the constraints on leases and gates.
pub decide-IsSound :
    (allow_self : Bool) (id : ℕ) (p : Principal) (d : ApprovalDecision)
    (justification stated : String) (now : ℕ) (t : Tables)
    → IsSound t
    → IsSound (decide allow_self id p d justification stated now t).1
unfolding received_set
decide-IsSound =
    decide-keeps IsSound same-IsSound
      (λ held to_state reason actor detail columns t early leaves h.
        early-IsSound held to_state reason actor detail anything columns t h early leaves)
      (λ i n t h. each-IsSound t h i.id anything (received_set n) (λ c. refl) (received_leaves n))

-- ===== src/Approval.antt =====
-- Approvals: src/acop/services/tools/approval.py. The partial unique index on approvals is part of
-- the INSERT, as are two CHECKs; the one on separation of duties is a theorem.
pub mod Failure
pub mod Duties
pub mod History
use Prim.Native.Nat.{min}
use cyberwithsteve_acop.Base.{
  ℕ, zero, suc, ◌+◌, ◌*◌, String, Bool, true, false, not, ◌&&◌, Option, none, some, List, [], ◌∷◌,
  ◌++◌, map, ◌==◌, str_eq, ltb, any, filter, length, member, meets, nonempty, if◌then◌else◌,
}
use cyberwithsteve_acop.Json.{Fields, field, end, str, int}
use cyberwithsteve_acop.Vocabulary.States.{InvocationState, awaiting_approval, ready, same_state}
use cyberwithsteve_acop.Vocabulary.Roles.{Principal, held_roles, to_audit_fields}
use cyberwithsteve_acop.Vocabulary.Reasons.{
  ApprovalDecision, approved, denied, PolicyReason, policy,
}
use cyberwithsteve_acop.Store.{
  ToolInvocation, InvocationColumns, ToolApproval, AuditEvent, AuditOutcome, AuditSeverity, Tables,
  ToolError, tool_not_found, tool_policy_denied, tool_authorization, self_approval_forbidden,
  duplicate_approval, unexpected, says_something, approval_envelope_mismatch, Result, ok, err, Exec,
  pure, raise, ◌>>=◌, ◌>>◌, transaction, get_invocation, update_where, Assignment,
}
use cyberwithsteve_acop.State.{transition, anything, no_columns}

-- Microseconds in a second.
abbrev pub second : ℕ
second = 1000000

-- `a; then b` for checks that raise.
abbrev pub checked : Result (Unit {0}) → Result Bool → Result Bool
checked (ok _) r = r
checked (err e) r = err e

abbrev pub require : Bool → ToolError → Result (Unit {0})
require true e = ok tt
require false e = err e

check_state : ToolInvocation → Result (Unit {0})
check_state i = require (same_state i.state awaiting_approval) tool_policy_denied

check_envelope : ToolInvocation → String → Result (Unit {0})
check_envelope i stated = require (str_eq stated i.envelope_digest) approval_envelope_mismatch

-- Read from the snapshot on the row.
check_authority : ToolInvocation → Principal → Result (Unit {0})
check_authority i p =
    require (meets i.effective_approval_policy.approver_roles (held_roles p.roles))
      tool_authorization

-- The first argument is the setting `tools_allow_self_approval`.
derive_self_approval : Bool → ToolInvocation → Principal → Result Bool
derive_self_approval allow_self i p =
    if str_eq p.subject i.principal.principal_subject
    then (if allow_self && i.effective_approval_policy.self_approval_permitted
        then ok true
        else err self_approval_forbidden)
    else ok false

pub checks : Bool → ToolInvocation → Principal → String → Result Bool
unfolding check_state check_envelope check_authority derive_self_approval
checks allow_self i p stated = checked (check_state i) (
    checked (check_envelope i stated)
      (checked (check_authority i p) (derive_self_approval allow_self i p)))

same_decision : ApprovalDecision → ApprovalDecision → Bool
same_decision approved approved = true
same_decision denied denied = true
same_decision _ _ = false

-- SELECT … WHERE invocation_id = … AND decision = 'APPROVED'
is_approval_of : ℕ → ToolApproval → Bool
unfolding same_decision
is_approval_of id a = a.invocation_id == id && same_decision a.decision approved

pub approved_rows : ℕ → List ToolApproval → List ToolApproval
unfolding is_approval_of
approved_rows id = filter (is_approval_of id)

approver_of : ToolApproval → String
approver_of a = a.approver.principal_subject

-- How many different texts there are.
pub count_distinct : List String → ℕ
count_distinct [] = 0
count_distinct (s ∷ l) = let rest = count_distinct l in if member s l then rest else suc rest

pub approvers : List ToolApproval → List String
unfolding approver_of
approvers = map approver_of

-- The partial unique index `uq_tool_approval_distinct`.
violates_distinct : ToolApproval → List ToolApproval → Bool
unfolding approvers approved_rows same_decision
violates_distinct a l =
    same_decision a.decision approved
    && member (approver_of a) (approvers (approved_rows a.invocation_id l))

-- CHECK `justification` and `expiry_after_decision` on the table of approvals.
approval_fits : ToolApproval → Bool
unfolding says_something
approval_fits a = says_something a.justification && ltb a.decided_at a.expires_at

-- The INSERT: the CHECKs come before the index, and only the index's refusal is translated.
insert_approval : ToolApproval → Exec (Unit {0})
unfolding violates_distinct approval_fits
insert_approval a t =
    if not (approval_fits a)
    then raise unexpected t
    else if violates_distinct a t.approvals
    then raise duplicate_approval t
    else pure tt (record t { approvals = t.approvals ++ a ∷ [] })

-- The instance after a `refresh`.
pub refreshed : ToolInvocation → Tables → ToolInvocation
refreshed i t = elim (get_invocation i.id t.invocations) [ none ↦ i | some j ↦ j ]

received_set : ℕ → Assignment
received_set n c = record c { approvals_received = n }

approved_set : ℕ → Assignment
approved_set now c = record c { approved_at = some now }

advance : ToolInvocation → Principal → ℕ → ℕ → Exec (Unit {0})
unfolding transition refreshed approved_set
advance i p approvals now t =
    (transition i InvocationState.approved (policy PolicyReason.allowed) (some p.subject)
          (field "approvals" (int approvals) end) anything (approved_set now)
        >> (λ u.
            transition (refreshed i u) ready (policy PolicyReason.allowed) (some p.subject) end
              anything no_columns u))
      t

pub count_and_advance : ToolInvocation → Principal → ℕ → Exec (Unit {0})
unfolding advance received_set approved_rows approvers count_distinct
count_and_advance i p now t =
    let approvals = count_distinct (approvers (approved_rows i.id t.approvals)) in
    let flushed = record t {
      invocations =
          update_where i.id anything (received_set (min approvals i.min_approvals)) t.invocations;
    } in
    if ltb approvals i.min_approvals
    then pure tt flushed
    else advance (refreshed i flushed) p approvals now flushed

-- A refused attempt goes to the denials, which the rollback of the request does not reach.
refusal_severity : ToolError → AuditSeverity
refusal_severity self_approval_forbidden = AuditSeverity.critical
refusal_severity _ = AuditSeverity.warning

audit_refused : ToolInvocation → Principal → ToolError → Exec (Unit {0})
unfolding refusal_severity to_audit_fields
audit_refused i p e t = pure tt (record t {
  denials =
      t.denials
      ++ record {
        action = "tool.approve";
        outcome = AuditOutcome.denied;
        severity = refusal_severity e;
        resource_id = i.id;
        actor = to_audit_fields p;
      }
        ∷ [];
})

decision_outcome : ApprovalDecision → AuditOutcome
decision_outcome approved = AuditOutcome.success
decision_outcome denied = AuditOutcome.denied

audit_decided : ToolInvocation → Principal → ToolApproval → Exec (Unit {0})
unfolding decision_outcome to_audit_fields
audit_decided i p a t = pure tt (record t {
  audit_events =
      t.audit_events
      ++ record {
        action = "tool.approve";
        outcome = decision_outcome a.decision;
        severity = if a.self_approval then AuditSeverity.critical else AuditSeverity.notice;
        resource_id = i.id;
        actor = to_audit_fields p;
      }
        ∷ [];
})

unfoldable pub new_approval :
    ToolInvocation → Principal → ApprovalDecision → String → Bool → ℕ → ToolApproval
unfolding to_audit_fields
new_approval i p decision justification self now = record {
  invocation_id = i.id;
  decision = decision;
  approved_envelope_digest = i.envelope_digest;
  requester_subject = i.principal.principal_subject;
  approver = to_audit_fields p;
  self_approval = self;
  justification = justification;
  decided_at = now;
  expires_at = now + i.approval_ttl_seconds * second;
}

after_decision : ToolInvocation → Principal → ApprovalDecision → ℕ → Exec (Unit {0})
unfolding count_and_advance transition
after_decision i p denied now =
    transition i InvocationState.denied (policy PolicyReason.approval_missing) (some p.subject)
      (field "decision" (str "DENIED") end) anything no_columns
after_decision i p approved now = count_and_advance i p now

-- The INSERT, what follows from the decision, and its audit record.
pub enact : ToolInvocation → Principal → ToolApproval → ℕ → Exec (Unit {0})
unfolding insert_approval after_decision audit_decided
enact i p approval now =
    insert_approval approval
    >> after_decision i p approval.decision now
    >> audit_decided i p approval

pub decide_on :
    ToolInvocation → Principal → ApprovalDecision → String → ℕ → Result Bool → Exec ToolApproval
unfolding audit_refused enact new_approval
decide_on i p decision justification now (err e) = audit_refused i p e >> raise e
decide_on i p decision justification now (ok self) =
    let approval = new_approval i p decision justification self now in
    enact i p approval now >> pure approval

pub decide_found :
    Bool
    → Principal
    → ApprovalDecision
    → String
    → String
    → ℕ
    → Option ToolInvocation
    → Exec ToolApproval
unfolding decide_on checks
decide_found allow_self p decision justification stated now none = raise tool_not_found
decide_found allow_self p decision justification stated now (some i) =
    decide_on i p decision justification now (checks allow_self i p stated)

-- `ToolApprovalService.decide`
unfoldable pub decide :
    Bool → ℕ → Principal → ApprovalDecision → String → String → ℕ → Exec ToolApproval
unfolding decide_found transaction
decide allow_self invocation_id p decision justification stated now = transaction λ t.
    decide_found allow_self p decision justification stated now
      (get_invocation invocation_id t.invocations) t

pub approval_failure : ToolInvocation → List ToolApproval → ℕ → Option PolicyReason
unfolding approvers count_distinct
approval_failure i approvals now =
    let live = filter (λ (a : ToolApproval). ltb now a.expires_at) approvals in
    if not i.approval_required
    then none
    else if not (nonempty approvals)
    then some PolicyReason.approval_missing
    else if any (λ (a : ToolApproval). not (str_eq a.approved_envelope_digest i.envelope_digest))
        approvals
    then some PolicyReason.approval_envelope_mismatch
    else if ltb (length live) (length approvals)
    then some PolicyReason.approval_expired
    else if ltb (count_distinct (approvers live)) i.min_approvals
    then some PolicyReason.approval_missing
    else none

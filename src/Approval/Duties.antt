-- ===== src/Approval/Duties.antt =====
-- Separation of duties in src/acop/services/tools/approval.py.
use cyberwithsteve_acop.Base.{
  ℕ, ◌≡◌, refl, sym, ◌∙◌, ◌↔◌, String, Bool, true, false, not, ◌&&◌, ◌||◌, Option, none, some,
  arith, str_eq, eq_iff, if◌then◌else◌, meets,
}
use cyberwithsteve_acop.Vocabulary.States.{awaiting_approval}
use cyberwithsteve_acop.Vocabulary.States.Machine.{same_state_iff}
use cyberwithsteve_acop.Vocabulary.Roles.{Principal, held_roles}
use cyberwithsteve_acop.Vocabulary.Reasons.{ApprovalDecision}
use cyberwithsteve_acop.Store.{
  ToolInvocation, ToolApproval, Tables, Result, ok, err, self_approval_forbidden,
  tool_policy_denied, approval_envelope_mismatch, tool_authorization, get_invocation, pure,
}
use cyberwithsteve_acop.Store.Actions.{bind_ok, transaction-result}
use cyberwithsteve_acop.Approval.{
  checks, checked, require, decide, decide_on, decide_found, new_approval, enact,
}

-- Why an approver may decide on an invocation.
pub record MayDecide (allow_self : Bool) (i : ToolInvocation) (p : Principal) (stated : String)
    (self : Bool) : Type 0 where
  pub waiting : i.state ≡ awaiting_approval
  pub same_envelope : stated ≡ i.envelope_digest
  pub has_authority : meets i.effective_approval_policy.approver_roles (held_roles p.roles) ≡ true
  pub is_self : self ≡ str_eq p.subject i.principal.principal_subject
  pub permitted :
      self ≡ true
      → (allow_self ≡ true) × (i.effective_approval_policy.self_approval_permitted ≡ true)

abbrev ladder : Bool → Bool → Bool → Bool → Bool → Bool → Result Bool
ladder waiting same has_role is_self allowed permitted =
    checked (require waiting tool_policy_denied) (
      checked (require same approval_envelope_mismatch) (
        checked (require has_role tool_authorization) (
          if is_self
          then (if allowed && permitted then ok true else err self_approval_forbidden)
          else ok false)))

ladder_passed :
    (w e a s al po self : Bool)
    → ladder w e a s al po ≡ ok self
    → (w ≡ true) × (e ≡ true) × (a ≡ true) × (self ≡ s) × (self ≡ true → (al ≡ true) × (po ≡ true))
ladder_passed w e a s al po self h = ground arith

ladder_passes :
    (w e a s al po self : Bool)
    → w ≡ true
    → e ≡ true
    → a ≡ true
    → self ≡ s
    → (self ≡ true → (al ≡ true) × (po ≡ true))
    → ladder w e a s al po ≡ ok self
ladder_passes w e a true al po self hw he ha hs k =
    let (ha', hp) = k hs in rw (hw, he, ha, ha', hp, hs)
ladder_passes w e a false al po self hw he ha hs k = rw (hw, he, ha, hs)

may_decide :
    (allow_self : Bool) (i : ToolInvocation) (p : Principal) (stated : String) (self : Bool)
    → checks allow_self i p stated ≡ ok self
    → MayDecide allow_self i p stated self
unfolding checks
may_decide allow_self i p stated self h =
    let (w, e, a, s, k) = ladder_passed _ _ _ _ _ _ self h in
    record {
      waiting = (same_state_iff i.state awaiting_approval).0 w;
      same_envelope = (eq_iff stated i.envelope_digest).0 e;
      has_authority = a;
      is_self = s;
      permitted = k;
    }

-- The checks pass exactly for who may decide: the invocation is waiting, the stated digest is its
-- own, the approver holds one of the roles of the snapshot, and approving one's own request is
-- permitted by both the setting and the policy. The flag that results says just whether the
-- approver is the requester.
pub checks_iff :
    (allow_self : Bool) (i : ToolInvocation) (p : Principal) (stated : String) (self : Bool)
    → (checks allow_self i p stated ≡ ok self) ↔ MayDecide allow_self i p stated self
unfolding checks
checks_iff allow_self i p stated self = (
  may_decide allow_self i p stated self,
  λ m.
      ladder_passes _ _ _ _ _ _ self ((same_state_iff i.state awaiting_approval).1 m.waiting)
        ((eq_iff stated i.envelope_digest).1 m.same_envelope) m.has_authority m.is_self m.permitted,
)

-- The CHECK `separation_of_duties` on the table of approvals, for one approval.
abbrev pub duties_separate : ToolApproval → Bool
duties_separate a = not (str_eq a.approver.principal_subject a.requester_subject) || a.self_approval

new_separate :
    (i : ToolInvocation) (p : Principal) (d : ApprovalDecision) (justification : String)
    (self : Bool) (now : ℕ)
    → self ≡ str_eq p.subject i.principal.principal_subject
    → duties_separate (new_approval i p d justification self now) ≡ true
unfolding new_approval
new_separate i p d justification self now h =
    rw h (or_not (str_eq p.subject i.principal.principal_subject))
  where
    or_not : (b : Bool) → (not b || b) ≡ true
    or_not true = refl
    or_not false = refl

returned :
    (i : ToolInvocation) (p : Principal) (d : ApprovalDecision) (justification : String) (now : ℕ)
    (r : Result Bool) (t : Tables) (a : ToolApproval)
    → (decide_on i p d justification now r t).0 ≡ ok a
    → (self : Bool) × (r ≡ ok self) × (a ≡ new_approval i p d justification self now)
unfolding decide_on
returned i p d justification now (ok self) t a h =
    let (u, v, e, last, whole) =
      bind_ok (enact i p (new_approval i p d justification self now) now)
        (λ _. pure (new_approval i p d justification self now)) t a h in
    (self, refl, same_ok last)
  where
    same_ok : {x y : ToolApproval} → ok x ≡ ok y → y ≡ x
    same_ok e = cc
returned i p d justification now (err x) t a h = cc

found_returned :
    (allow_self : Bool) (p : Principal) (d : ApprovalDecision) (justification stated : String)
    (now : ℕ) (o : Option ToolInvocation) (t : Tables) (a : ToolApproval)
    → (decide_found allow_self p d justification stated now o t).0 ≡ ok a
    → (i : ToolInvocation) × (self : Bool) × (o ≡ some i)
      × MayDecide allow_self i p stated self
      × (a ≡ new_approval i p d justification self now)
      × (duties_separate a ≡ true)
unfolding decide_found
found_returned allow_self p d justification stated now none t a h = cc
found_returned allow_self p d justification stated now (some i) t a h =
    let (self, passed, e) = returned i p d justification now (checks allow_self i p stated) t a h in
    let m = may_decide allow_self i p stated self passed in
    (i, self, refl, m, e, rw e (new_separate i p d justification self now m.is_self))

-- An approval that `decide` returns is one of the invocation's, and its approver is another person
-- than the requester, or both the setting and the policy permit self-approval and it says so.
pub decide_separates :
    (allow_self : Bool) (id : ℕ) (p : Principal) (d : ApprovalDecision)
    (justification stated : String) (now : ℕ) (t : Tables) (a : ToolApproval)
    → (decide allow_self id p d justification stated now t).0 ≡ ok a
    → (i : ToolInvocation) × (self : Bool) × (get_invocation id t.invocations ≡ some i)
      × MayDecide allow_self i p stated self
      × (a ≡ new_approval i p d justification self now)
      × (duties_separate a ≡ true)
unfolding decide
decide_separates allow_self id p d justification stated now t a h =
    found_returned allow_self p d justification stated now (get_invocation id t.invocations) t a (
      sym (
        transaction-result
          (λ u.
            decide_found allow_self p d justification stated now (get_invocation id u.invocations)
              u)
          t)
      ∙ h)

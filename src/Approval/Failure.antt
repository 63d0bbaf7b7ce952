-- ===== src/Approval/Failure.antt =====
-- `approval_failure` of src/acop/services/tools/approval.py against what an approval has to be.
use cyberwithsteve_acop.Base.{
  ℕ, ◌≤◌, ◌≡◌, refl, subst, ◌↔◌, ◌⊎◌, inl, inr, Bool, true, false, not, none, List, [], ◌∷◌, arith,
  str_eq, ltb, any, all, filter, filter-all, filter_shorter, length, nonempty, Bool-cases,
}
use cyberwithsteve_acop.Store.{ToolInvocation, ToolApproval}
use cyberwithsteve_acop.Approval.{approval_failure, approvers, count_distinct}

any-not {ℓ} : {A : Type ℓ} (p : A → Bool) (l : List A) → any (λ x. not (p x)) l ≡ not (all p l)
any-not p [] = refl
any-not p (x ∷ l) = ground (arith, any-not p l)

abbrev same_envelope : ToolInvocation → ToolApproval → Bool
same_envelope i a = str_eq a.approved_envelope_digest i.envelope_digest

abbrev is_live : ℕ → ToolApproval → Bool
is_live now a = ltb now a.expires_at

-- What the final gate demands of the approvals of an invocation that needs approval.
pub record IsApproved (i : ToolInvocation) (approvals : List ToolApproval) (now : ℕ) : Type 0 where
  pub given : nonempty approvals ≡ true
  pub bound : all (same_envelope i) approvals ≡ true
  pub unexpired : all (is_live now) approvals ≡ true
  pub enough : i.min_approvals ≤ count_distinct (approvers approvals)

failure_steps :
    (i : ToolInvocation) (l live : List ToolApproval) (now : ℕ)
    → filter (is_live now) l ≡ live
    → i.approval_required ≡ true
    → approval_failure i l now ≡ none
    → (nonempty l ≡ true)
      × (all (same_envelope i) l ≡ true)
      × (length l ≤ length live)
      × (i.min_approvals ≤ count_distinct (approvers live))
unfolding approval_failure
failure_steps i l live now e needed h = ground (arith, any-not (same_envelope i) l)

passing_steps :
    (i : ToolInvocation) (l : List ToolApproval) (now : ℕ)
    → filter (is_live now) l ≡ l
    → IsApproved i l now
    → approval_failure i l now ≡ none
unfolding approval_failure
passing_steps i l now e a = ground (arith, any-not (same_envelope i) l, a.given, a.bound, a.enough)

needs-IsApproved :
    (i : ToolInvocation) (l : List ToolApproval) (now : ℕ)
    → i.approval_required ≡ true
    → approval_failure i l now ≡ none
    → IsApproved i l now
needs-IsApproved i l now needed h =
    let (given, bound, long, enough) =
      failure_steps i l (filter (is_live now) l) now refl needed h in
    let unexpired : all (is_live now) l ≡ true = filter_shorter (is_live now) l long in
    record {
      given = given;
      bound = bound;
      unexpired = unexpired;
      enough =
          subst (λ x. i.min_approvals ≤ count_distinct (approvers x))
            (filter-all (is_live now) l unexpired) enough;
    }

unneeded :
    (i : ToolInvocation) (l : List ToolApproval) (now : ℕ)
    → i.approval_required ≡ false
    → approval_failure i l now ≡ none
unfolding approval_failure
unneeded i l now free = rw free

-- Approvals suffice exactly when none are required, or when there are some, every one of them is
-- bound to the invocation's own envelope, none has expired, and at least `min_approvals` different
-- people gave them. One approval that is expired or bound elsewhere is enough to fail.
pub approval_failure_iff :
    (i : ToolInvocation) (approvals : List ToolApproval) (now : ℕ)
    → (approval_failure i approvals now ≡ none)
      ↔ ((i.approval_required ≡ false) ⊎ IsApproved i approvals now)
approval_failure_iff i l now = (
  λ h. elim (Bool-cases i.approval_required) [
    | inl needed ↦ inr (needs-IsApproved i l now needed h)
    | inr free ↦ inl free
  ],
  λ s. elim s [
    | inl free ↦ unneeded i l now free
    | inr a ↦ passing_steps i l now (filter-all (is_live now) l a.unexpired) a
  ],
)

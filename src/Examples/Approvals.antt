-- ===== src/Examples/Approvals.antt =====
-- Decisions on the row that waits for approval.
use cyberwithsteve_acop.Base.{◌≡◌, refl, ◌↔◌, ◌⊎◌, Bool, true, false, none, some, [], ◌∷◌}
use cyberwithsteve_acop.Vocabulary.States.{awaiting_approval, is_legal_transition}
use cyberwithsteve_acop.Vocabulary.Roles.{held_roles}
use cyberwithsteve_acop.Vocabulary.Reasons.{approved}
use cyberwithsteve_acop.Store.{ToolInvocation, ToolApproval, ok, get_invocation, update_where}
use cyberwithsteve_acop.Approval.{approval_failure, checks, decide, new_approval}
use cyberwithsteve_acop.Approval.Failure.{IsApproved, approval_failure_iff}
use cyberwithsteve_acop.Approval.Duties.{MayDecide, duties_separate, checks_iff, decide_separates}
use cyberwithsteve_acop.Examples.{approver, in_state, restart_row, bobs_approval, waiting_tables}

approval_failure_iff_example :
    (approval_failure (in_state awaiting_approval) (bobs_approval ∷ []) 100 ≡ none) ↔ (
      ((in_state awaiting_approval).approval_required ≡ false)
      ⊎ IsApproved (in_state awaiting_approval) (bobs_approval ∷ []) 100)
approval_failure_iff_example =
    approval_failure_iff (in_state awaiting_approval) (bobs_approval ∷ []) 100

checks_iff_example :
    (checks false (in_state awaiting_approval) approver "e1" ≡ ok false)
    ↔ MayDecide false (in_state awaiting_approval) approver "e1" false
checks_iff_example = checks_iff false (in_state awaiting_approval) approver "e1" false

abbrev decided_approval : ToolApproval
unfolding new_approval
decided_approval = new_approval (in_state awaiting_approval) approver approved "planned" false 100

decided :
    (decide false 1 approver approved "planned" "e1" 100 waiting_tables).0 ≡ ok decided_approval
unfolding decide get_invocation restart_row held_roles is_legal_transition update_where
decided = refl

decide_separates_example :
    (i : ToolInvocation) × (self : Bool) × (get_invocation 1 waiting_tables.invocations ≡ some i)
    × MayDecide false i approver "e1" self
    × (decided_approval ≡ new_approval i approver approved "planned" self 100)
    × (duties_separate decided_approval ≡ true)
decide_separates_example =
    decide_separates false 1 approver approved "planned" "e1" 100 waiting_tables decided_approval
      decided

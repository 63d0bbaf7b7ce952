-- ===== src/Contract/Rules/Passed.antt =====
-- What a declaration that src/acop/tools/contract.py admits is known to satisfy.
use cyberwithsteve_acop.Base.{◌≡◌, refl, true, ◌||◌, Option, none, some, ltb, leb, ◌==◌, arith}
use cyberwithsteve_acop.Vocabulary.Reasons.{non_idempotent, in_approval_required_classes}
use cyberwithsteve_acop.Contract.{ToolDefinition}
use cyberwithsteve_acop.Contract.Rules.{
  DeclarationError, Environment, ◌then_check◌, check_identity, check_class_agreement,
  check_approval_policy, check_prohibition, check_idempotency, check_input_schema,
  check_adapter_binding, validate_declaration,
}

both_none : (a b : Option DeclarationError) → (a then_check b) ≡ none → (a ≡ none) × (b ≡ none)
both_none none b h = (refl, h)
both_none (some e) b h = cc

module _ (env : Environment) (d : ToolDefinition) (passed : validate_declaration env d ≡ none) where
  abbrev after_prohibition : Option DeclarationError
  after_prohibition =
      check_idempotency env d
      then_check check_input_schema env d
      then_check check_adapter_binding env d

  abbrev after_approval : Option DeclarationError
  after_approval = check_prohibition env d then_check after_prohibition

  abbrev after_class : Option DeclarationError
  after_class = check_approval_policy env d then_check after_approval

  identity_split :
      (check_identity env d ≡ none) × ((check_class_agreement env d then_check after_class) ≡ none)
  unfolding validate_declaration
  identity_split =
      both_none (check_identity env d) (check_class_agreement env d then_check after_class) passed

  class_split : (check_class_agreement env d ≡ none) × (after_class ≡ none)
  class_split = both_none (check_class_agreement env d) after_class identity_split.1

  approval_split : (check_approval_policy env d ≡ none) × (after_approval ≡ none)
  approval_split = both_none (check_approval_policy env d) after_approval class_split.1

  idempotency_passed : check_idempotency env d ≡ none
  idempotency_passed =
      (both_none (check_idempotency env d)
        (check_input_schema env d then_check check_adapter_binding env d)
        (both_none (check_prohibition env d) after_prohibition approval_split.1).1).0

  -- A change must be approved and validated.
  pub change_guarded :
      in_approval_required_classes d.permission_class ≡ true
      → (d.approval_policy.approval_required ≡ true) × (d.validation_required ≡ true)
  unfolding check_class_agreement
  change_guarded change = ground (arith, class_split.0)

  -- An approval policy that applies is one that the table admits.
  pub policy_sound :
      d.approval_policy.approval_required ≡ true
      → (leb 1 d.approval_policy.min_approvals ≡ true)
        × ((d.approval_policy.min_approvals == 1 || d.approval_policy.distinct_approvers_required)
            ≡ true)
        × (ltb 0 d.approval_policy.ttl_seconds ≡ true)
  unfolding check_approval_policy
  policy_sound needed = ground (arith, approval_split.0)

  -- A tool that is not idempotent has one attempt.
  pub one_attempt : d.idempotency ≡ non_idempotent → d.retry_policy.max_attempts ≡ 1
  unfolding check_idempotency
  one_attempt kind = ground (arith, idempotency_passed)

-- ===== src/Invocation/Create/Admitted.antt =====
-- A request for a change that src/acop/services/tools/invocation.py accepts, against the constraints of
-- src/acop/models/tool.py on its row.
use cyberwithsteve_acop.Base.{ℕ, ◌≡◌, refl, String, true, none, some, List, is_some}
use cyberwithsteve_acop.Vocabulary.Roles.{Principal}
use cyberwithsteve_acop.Vocabulary.Reasons.{in_approval_required_classes}
use cyberwithsteve_acop.Contract.{ToolDefinition}
use cyberwithsteve_acop.Contract.Rules.{Environment, validate_declaration}
use cyberwithsteve_acop.Contract.Rules.Passed.{change_guarded, policy_sound}
use cyberwithsteve_acop.Policy.{PolicyContext, TargetFacts, evaluate}
use cyberwithsteve_acop.Policy.Gates.{allow-KeepsPolicy}
use cyberwithsteve_acop.Store.{ToolRegistration}
use cyberwithsteve_acop.Invocation.{InvocationRequest}
use cyberwithsteve_acop.Invocation.Rows.{persisted_row, policy_fits, class_fits}

-- A change tool that the import rules admit makes no row that the constraints on classes and
-- approvals refuse: where the gates allow a request for it and the request has a key, the row has the
-- policy that they demand.
pub admitted_change_fits :
    (env : Environment) (d : ToolDefinition) (c : PolicyContext) (sha256 : List ℕ → String) (id : ℕ)
    (r : InvocationRequest) (p : Principal) (registration : ToolRegistration) (target : TargetFacts)
    (digest : String)
    → validate_declaration env d ≡ none
    → in_approval_required_classes d.permission_class ≡ true
    → c.definition ≡ some d
    → (evaluate c).allowed ≡ true
    → is_some r.idempotency_key ≡ true
    → let row = (persisted_row sha256 id r p registration (evaluate c) target digest).row in
      (policy_fits row ≡ true) × (class_fits row ≡ true)
unfolding persisted_row policy_fits class_fits
admitted_change_fits env d c sha256 id r p registration target digest passed change bound allowed
      keyed =
    let k = allow-KeepsPolicy c d allowed bound in
    let (approves, validates) = change_guarded env d passed change in
    let (some_approval, distinct, ttl) = policy_sound env d passed approves in
    rw k.approval_policy (
      rw k.permission_class (
        rw k.validation_required (
          rw keyed (
            rw change (
              rw approves (rw validates (rw some_approval (rw distinct (rw ttl (refl, refl))))))))))

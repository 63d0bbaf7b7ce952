-- ===== src/Policy/Gates.antt =====
-- What the eight gates of src/acop/tools/policy.py decide.
use cyberwithsteve_acop.Base.{
  subst, ◌∙◌, if◌then◌else◌, ℕ, String, ◌≡◌, refl, sym, ap, ◌↔◌, Bool, true, false, not, ◌&&◌,
  Option, none, some, arith, member, subset, nonempty,
}
use cyberwithsteve_acop.Json.{Fields, end}
use cyberwithsteve_acop.Vocabulary.Roles.{Principal, held_roles}
use cyberwithsteve_acop.Vocabulary.Reasons.{ToolLifecycle, active, PolicyReason}
use cyberwithsteve_acop.Contract.{ToolDefinition, execution_parameters, valid}
use cyberwithsteve_acop.Policy.{
  TargetKind, asset, asset_gate, target_gate, same_kind, TargetFacts, PolicyContext, PolicyDecision,
  is_prohibited, evaluate, evaluate_prerequisites, gates_one_to_four, after_prerequisites,
  prerequisites_denial, check_target, Prerequisites, refused, passed, raised, binding_gate,
  decide_rest, allow_context, gates_five_to_seven, deny_with, deny_context,
}

-- The environment list is empty or names the environment.
abbrev environment_ok : ToolDefinition → String → Bool
environment_ok d e =
    let envs = d.approval_policy.allowed_environments in not (nonempty envs && not (member e envs))

-- Everything that an allowed request must satisfy, gate by gate.
pub record Admissible (c : PolicyContext) (d : ToolDefinition) (canonical : Fields) : Type 0 where
  pub is_bound : c.definition ≡ some d
  pub is_active : c.lifecycle_state ≡ active
  pub not_prohibited : is_prohibited d ≡ false
  pub schema_valid : d.input_model.model_validate c.raw_input ≡ valid canonical
  pub target_valid : check_target d c.target ≡ none
  pub roles_held : subset d.required_roles (held_roles c.principal.roles) ≡ true
  pub environment_allowed : environment_ok d c.environment ≡ true

prerequisites_pass :
    (o : Option ToolDefinition) (l : ToolLifecycle) (raw : Fields) (d : ToolDefinition)
    (canonical : Fields)
    → binding_gate o l raw ≡ passed d canonical
    → (o ≡ some d)
      × (l ≡ active)
      × (is_prohibited d ≡ false)
      × (d.input_model.model_validate raw ≡ valid canonical)
unfolding binding_gate
prerequisites_pass none l raw d canonical h = cc
prerequisites_pass (some x) active raw d canonical h = ground arith
prerequisites_pass (some x) _ raw d canonical h = cc

deny_not_allowed :
    (o : Option ToolDefinition) (now : ℕ) (r : PolicyReason) → (deny_with o now r).allowed ≡ false
unfolding deny_with
deny_not_allowed none now r = refl
deny_not_allowed (some d) now r = refl

later_gates_pass :
    (c : PolicyContext) (d : ToolDefinition)
    → gates_five_to_seven d c ≡ none
    → (check_target d c.target ≡ none)
      × (subset d.required_roles (held_roles c.principal.roles) ≡ true)
      × (environment_ok d c.environment ≡ true)
unfolding gates_five_to_seven
later_gates_pass c d h = ground arith

later_gates_total :
    (c : PolicyContext) (d : ToolDefinition)
    → check_target d c.target ≡ none
    → subset d.required_roles (held_roles c.principal.roles) ≡ true
    → environment_ok d c.environment ≡ true
    → gates_five_to_seven d c ≡ none
unfolding gates_five_to_seven
later_gates_total c d t r e = ground arith

allowed_rest :
    (c : PolicyContext) (d : ToolDefinition) (canonical : Fields) (v : Option PolicyReason)
    → (decide_rest c d canonical v).allowed ≡ true
    → (v ≡ none) × ((decide_rest c d canonical v).canonical_input ≡ canonical)
unfolding decide_rest
allowed_rest c d canonical none h = (refl, refl)
allowed_rest c d canonical (some r) h = cc (deny_not_allowed c.definition c.request_time r)

allowed_passed :
    (c : PolicyContext) (q : Prerequisites)
    → (after_prerequisites c q).allowed ≡ true
    → (d : ToolDefinition) × (q ≡ passed d (after_prerequisites c q).canonical_input)
      × (gates_five_to_seven d c ≡ none)
unfolding after_prerequisites
allowed_passed c (refused r) h = cc (deny_not_allowed c.definition c.request_time r)
allowed_passed c raised h =
    cc (deny_not_allowed c.definition c.request_time PolicyReason.internal_error)
allowed_passed c (passed d canonical) h =
    let (none_left, same) = allowed_rest c d canonical (gates_five_to_seven d c) h in
    (d, ap (passed d) (sym same), none_left)

allow-Admissible :
    (c : PolicyContext)
    → (evaluate c).allowed ≡ true
    → (d : ToolDefinition) × Admissible c d (evaluate c).canonical_input
unfolding evaluate
allow-Admissible c h =
    let (d, q, later) = allowed_passed c (gates_one_to_four c) h in
    let (b, l, p, v) = prerequisites_pass c.definition c.lifecycle_state c.raw_input d _ q in
    let (t, r, e) = later_gates_pass c d later in
    (
      d,
      record {
        is_bound = b;
        is_active = l;
        not_prohibited = p;
        schema_valid = v;
        target_valid = t;
        roles_held = r;
        environment_allowed = e;
      },
    )

prerequisites_total :
    (o : Option ToolDefinition) (l : ToolLifecycle) (raw : Fields) (d : ToolDefinition)
    (canonical : Fields)
    → o ≡ some d
    → l ≡ active
    → is_prohibited d ≡ false
    → d.input_model.model_validate raw ≡ valid canonical
    → binding_gate o l raw ≡ passed d canonical
unfolding binding_gate
prerequisites_total o l raw d canonical b a p v = rw (b, a) (ground arith)

Admissible-allow :
    (c : PolicyContext) (d : ToolDefinition) (canonical : Fields)
    → Admissible c d canonical
    → evaluate c ≡ allow_context c d canonical
unfolding evaluate gates_one_to_four
Admissible-allow c d canonical a =
    rw
      (prerequisites_total c.definition c.lifecycle_state c.raw_input d canonical a.is_bound
        a.is_active a.not_prohibited a.schema_valid)
      (unfold after_prerequisites in
        rw (later_gates_total c d a.target_valid a.roles_held a.environment_allowed)
          (unfold decide_rest in refl))

-- A request is allowed exactly when every gate is passed: a definition is bound, its lifecycle is
-- active, it is not prohibited, the input validates, the target is one it may act on, the
-- principal holds every required role, and the environment is one it may run in. The decision
-- then carries the validated input.
pub evaluate_allows_iff :
    (c : PolicyContext)
    → ((evaluate c).allowed ≡ true)
      ↔ ((d : ToolDefinition) × Admissible c d (evaluate c).canonical_input)
unfolding allow_context
evaluate_allows_iff c = (
  allow-Admissible c,
  λ (d, a). ap (λ (x : PolicyDecision). x.allowed) (Admissible-allow c d _ a),
)

-- When gates 1 to 4 refuse, the whole evaluation gives that very denial, whoever asks, whatever the
-- target and wherever: no role, no target and no environment changes the answer.
pub prerequisites_decide :
    (c : PolicyContext) (p : Principal) (t : TargetFacts) (environment : String)
    {denial : PolicyDecision}
    → evaluate_prerequisites c ≡ some denial
    → evaluate (record c { principal = p; target = t; environment = environment }) ≡ denial
unfolding evaluate evaluate_prerequisites
prerequisites_decide c p t environment {denial} h = step (gates_one_to_four c) h
  where
    step :
        (q : Prerequisites)
        → prerequisites_denial c q ≡ some denial
        → after_prerequisites (record c { principal = p; target = t; environment = environment }) q
          ≡ denial
    step (refused r) e = cc
    step raised e = cc
    step (passed d canonical) e = cc

denied_rest :
    (c : PolicyContext) (d : ToolDefinition) (canonical : Fields) (v : Option PolicyReason)
    → (decide_rest c d canonical v).allowed ≡ false
    → (r : PolicyReason) × (decide_rest c d canonical v ≡ deny_context c r)
unfolding decide_rest
denied_rest c d canonical none h = cc
denied_rest c d canonical (some r) h = (r, refl)

denied_shape :
    (c : PolicyContext) (q : Prerequisites)
    → (after_prerequisites c q).allowed ≡ false
    → (r : PolicyReason) × (after_prerequisites c q ≡ deny_context c r)
unfolding after_prerequisites
denied_shape c (refused r) h = (r, refl)
denied_shape c raised h = (PolicyReason.internal_error, refl)
denied_shape c (passed d canonical) h = denied_rest c d canonical (gates_five_to_seven d c) h

-- What a decision keeps of the declaration.
pub record KeepsPolicy (x : PolicyDecision) (d : ToolDefinition) : Type 0 where
  pub permission_class : x.permission_class ≡ d.permission_class
  pub approval_policy : x.approval_policy ≡ d.approval_policy
  pub validation_required : x.validation_required ≡ d.validation_required
  pub required_roles : x.required_roles ≡ d.required_roles
  pub parameters : x.parameters ≡ some (execution_parameters d)
  pub prohibited : x.prohibited ≡ is_prohibited d
  pub registry_contract_hash : x.registry_contract_hash ≡ d.contract_hash

deny-KeepsPolicy :
    (o : Option ToolDefinition) (now : ℕ) (r : PolicyReason) (d : ToolDefinition)
    → o ≡ some d
    → KeepsPolicy (deny_with o now r) d
deny-KeepsPolicy o now r d e = rw e (
    unfold deny_with in
    record {
      permission_class = refl;
      approval_policy = refl;
      validation_required = refl;
      required_roles = refl;
      parameters = refl;
      prohibited = refl;
      registry_contract_hash = refl;
    })

deny_no_input :
    (o : Option ToolDefinition) (now : ℕ) (r : PolicyReason)
    → (deny_with o now r).canonical_input ≡ end
unfolding deny_with
deny_no_input none now r = refl
deny_no_input (some d) now r = refl

-- A denial never carries an input, and where a definition is bound it records that definition's
-- class, approval policy, roles and contract.
pub denial_records_policy :
    (c : PolicyContext)
    → (evaluate c).allowed ≡ false
    → ((evaluate c).canonical_input ≡ end)
      × ((d : ToolDefinition) → c.definition ≡ some d → KeepsPolicy (evaluate c) d)
unfolding evaluate deny_context
denial_records_policy c h =
    let (r, e) = denied_shape c (gates_one_to_four c) h in
    (
      rw e (deny_no_input c.definition c.request_time r),
      λ d b. rw e (deny-KeepsPolicy c.definition c.request_time r d b),
    )

-- An asset that does not exist is no valid target of any tool.
pub absent_target :
    (d : ToolDefinition) (t : TargetFacts)
    → t.kind ≡ asset
    → t.is_there ≡ false
    → check_target d t ≡ some PolicyReason.target_invalid
unfolding check_target same_kind target_gate asset_gate
absent_target d t kind gone =
    ap
      (λ (k : TargetKind).
        if same_kind k d.target_type
        then target_gate d.target_type d.target_asset_types t
        else some PolicyReason.target_invalid)
      kind
    ∙ by_type d.target_type
  where
    by_type :
        (k : TargetKind)
        → (if same_kind asset k
            then target_gate k d.target_asset_types t
            else some PolicyReason.target_invalid)
          ≡ some PolicyReason.target_invalid
    by_type TargetKind.none = refl
    by_type asset = rw gone refl
    by_type TargetKind.external_ref = refl

-- An allowed request records the policy of the definition that is bound.
pub allow-KeepsPolicy :
    (c : PolicyContext) (d : ToolDefinition)
    → (evaluate c).allowed ≡ true
    → c.definition ≡ some d
    → KeepsPolicy (evaluate c) d
unfolding allow_context
allow-KeepsPolicy c d h bound =
    let (e, a) = allow-Admissible c h in
    let allowed = Admissible-allow c e _ a in
    let same : e ≡ d = one_definition (sym a.is_bound ∙ bound) in
    rw allowed (
      rw same (record {
        permission_class = refl;
        approval_policy = refl;
        validation_required = refl;
        required_roles = refl;
        parameters = refl;
        prohibited = sym (subst (λ x. is_prohibited x ≡ false) same a.not_prohibited);
        registry_contract_hash = refl;
      }))
  where
    one_definition : {x y : ToolDefinition} → some x ≡ some y → x ≡ y
    one_definition e = cc

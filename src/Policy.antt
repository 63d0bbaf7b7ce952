-- ===== src/Policy.antt =====
-- The policy engine of src/acop/tools/policy.py: eight gates in order, and one frozen decision.
-- An exception in a gate is a value (`none` of an `Option`), which the two entry points turn into
-- a denial. The log line that `_internal_error` writes, and its own fallbacks, decide nothing.
pub mod Gates
use cyberwithsteve_acop.Base.{
  ℕ, String, Bool, true, false, not, ◌&&◌, ◌||◌, Option, none, some, List, [], ◌∷◌, str_eq, member,
  subset, meets, nonempty, is_none, if◌then◌else◌,
}
use cyberwithsteve_acop.Json.{Fields, end}
use cyberwithsteve_acop.Vocabulary.Roles.{Principal, held_roles}
use cyberwithsteve_acop.Vocabulary.Reasons.{
  ToolLifecycle, active, disabled, retired, TargetKind, asset, external_ref, GateDecision, allow,
  deny, PolicyReason, PermissionClass, prohibited_capabilities,
}
use cyberwithsteve_acop.Contract.{
  ApprovalPolicy, default_approval_policy, Model, Validation, valid, invalid, crashed,
  ToolDefinition, ExecutionParameters, execution_parameters,
}

-- `kind`, whether the named target exists, and what is known of it. Empty texts are `""`.
pub record TargetFacts : Type 0 where
  pub kind : TargetKind
  pub is_there : Bool
  pub asset_id : Option ℕ
  pub asset_type : String
  pub lifecycle_state : String
  pub external_ref : Option Fields

pub record PolicyContext : Type 0 where
  pub principal : Principal
  pub definition : Option ToolDefinition
  pub lifecycle_state : ToolLifecycle
  pub raw_input : Fields
  pub target : TargetFacts
  pub environment : String
  pub request_time : ℕ

pub record PolicyDecision : Type 0 where
  pub allowed : Bool
  pub reason : PolicyReason
  pub permission_class : PermissionClass
  pub approval_policy : ApprovalPolicy
  pub validation_required : Bool
  pub required_roles : List String
  -- `none` where nothing is bound: `{}`.
  pub parameters : Option ExecutionParameters
  pub prohibited : Bool
  pub registry_contract_hash : String
  pub evaluated_at : ℕ
  pub canonical_input : Fields

abbrev decision_of : Bool → GateDecision
decision_of true = allow
decision_of false = deny

-- definition.prohibited or (definition.capability_tags & PROHIBITED_CAPABILITIES)
pub is_prohibited : ToolDefinition → Bool
is_prohibited d = d.prohibited || meets d.capability_tags prohibited_capabilities

-- The two shapes of a denial: with the declaration's policy, or with nothing bound.
deny_with : Option ToolDefinition → ℕ → PolicyReason → PolicyDecision
unfolding is_prohibited execution_parameters
deny_with none now reason = record {
  allowed = false;
  reason = reason;
  permission_class = PermissionClass.prohibited;
  approval_policy = default_approval_policy;
  validation_required = true;
  required_roles = [];
  parameters = none;
  prohibited = true;
  registry_contract_hash = "";
  evaluated_at = now;
  canonical_input = end;
}
deny_with (some d) now reason = record {
  allowed = false;
  reason = reason;
  permission_class = d.permission_class;
  approval_policy = d.approval_policy;
  validation_required = d.validation_required;
  required_roles = d.required_roles;
  parameters = some (execution_parameters d);
  prohibited = is_prohibited d;
  registry_contract_hash = d.contract_hash;
  evaluated_at = now;
  canonical_input = end;
}

pub deny_context : PolicyContext → PolicyReason → PolicyDecision
unfolding deny_with
deny_context c reason = deny_with c.definition c.request_time reason

-- What a gate says: go on, or the reason of a denial.
abbrev Verdict : Type 0
Verdict = Option PolicyReason

-- The result of gates 1 to 4: a denial's reason, the canonical input, or an exception.
pub data Prerequisites : Type 0 where
  refused : PolicyReason → Prerequisites
  passed : ToolDefinition → Fields → Prerequisites
  raised : Prerequisites

unfoldable pub lifecycle_gate : ToolLifecycle → Verdict
lifecycle_gate retired = some PolicyReason.tool_retired
lifecycle_gate disabled = some PolicyReason.tool_disabled
lifecycle_gate active = none

schema_gate : ToolDefinition → Validation → Prerequisites
schema_gate d (valid canonical) = passed d canonical
schema_gate d invalid = refused PolicyReason.schema_invalid
schema_gate d crashed = raised

prohibition_gate : ToolDefinition → Fields → Prerequisites
unfolding is_prohibited schema_gate
prohibition_gate d raw =
    if is_prohibited d
    then refused PolicyReason.prohibited_capability
    else schema_gate d (d.input_model.model_validate raw)

after_lifecycle : Verdict → ToolDefinition → Fields → Prerequisites
unfolding prohibition_gate
after_lifecycle (some reason) d raw = refused reason
after_lifecycle none d raw = prohibition_gate d raw

binding_gate : Option ToolDefinition → ToolLifecycle → Fields → Prerequisites
unfolding lifecycle_gate after_lifecycle
binding_gate none lifecycle raw = refused PolicyReason.capability_not_bound
binding_gate (some d) lifecycle raw = after_lifecycle (lifecycle_gate lifecycle) d raw

gates_one_to_four : PolicyContext → Prerequisites
unfolding binding_gate
gates_one_to_four c = binding_gate c.definition c.lifecycle_state c.raw_input

same_kind : TargetKind → TargetKind → Bool
same_kind TargetKind.none TargetKind.none = true
same_kind asset asset = true
same_kind external_ref external_ref = true
same_kind _ _ = false

asset_gate : List String → TargetFacts → Verdict
asset_gate types t =
    if not t.is_there || is_none t.asset_id
    then some PolicyReason.target_invalid
    else if not (str_eq t.lifecycle_state "") && not (str_eq t.lifecycle_state "ACTIVE")
    then some PolicyReason.target_retired
    else if not (member t.asset_type types)
    then some PolicyReason.target_out_of_scope
    else none

target_gate : TargetKind → List String → TargetFacts → Verdict
unfolding asset_gate
target_gate TargetKind.none types t = none
target_gate external_ref types t =
    if is_none t.external_ref then some PolicyReason.target_invalid else none
target_gate asset types t = asset_gate types t

pub check_target : ToolDefinition → TargetFacts → Verdict
unfolding same_kind target_gate
check_target d t =
    if same_kind t.kind d.target_type
    then target_gate d.target_type d.target_asset_types t
    else some PolicyReason.target_invalid

authorization_gate : ToolDefinition → Principal → Verdict
authorization_gate d p =
    if subset d.required_roles (held_roles p.roles)
    then none
    else some PolicyReason.role_insufficient

environment_gate : ToolDefinition → String → Verdict
environment_gate d environment =
    let allowed_envs = d.approval_policy.allowed_environments in
    if nonempty allowed_envs && not (member environment allowed_envs)
    then some PolicyReason.environment_restricted
    else none

-- The first gate that refuses decides.
infixr 20 ◌then_gate◌
◌then_gate◌ : Verdict → Verdict → Verdict
some reason then_gate v = some reason
none then_gate v = v

gates_five_to_seven : ToolDefinition → PolicyContext → Verdict
unfolding check_target authorization_gate environment_gate ◌then_gate◌
gates_five_to_seven d c =
    check_target d c.target
    then_gate authorization_gate d c.principal
    then_gate environment_gate d c.environment

-- Gate 8 computes a requirement and never denies.
allow_context : PolicyContext → ToolDefinition → Fields → PolicyDecision
unfolding execution_parameters
allow_context c d canonical = record {
  allowed = true;
  reason = PolicyReason.allowed;
  permission_class = d.permission_class;
  approval_policy = d.approval_policy;
  validation_required = d.validation_required;
  required_roles = d.required_roles;
  parameters = some (execution_parameters d);
  prohibited = false;
  registry_contract_hash = d.contract_hash;
  evaluated_at = c.request_time;
  canonical_input = canonical;
}

decide_rest : PolicyContext → ToolDefinition → Fields → Verdict → PolicyDecision
unfolding deny_context allow_context
decide_rest c d canonical (some reason) = deny_context c reason
decide_rest c d canonical none = allow_context c d canonical

-- `_internal_error`
internal_error : PolicyContext → PolicyDecision
unfolding deny_context
internal_error c = deny_context c PolicyReason.internal_error

after_prerequisites : PolicyContext → Prerequisites → PolicyDecision
unfolding deny_context internal_error decide_rest gates_five_to_seven
after_prerequisites c (refused reason) = deny_context c reason
after_prerequisites c (passed d canonical) = decide_rest c d canonical (gates_five_to_seven d c)
after_prerequisites c raised = internal_error c

-- `ToolPolicyEngine.evaluate`
unfoldable pub evaluate : PolicyContext → PolicyDecision
unfolding gates_one_to_four after_prerequisites
evaluate c = after_prerequisites c (gates_one_to_four c)

prerequisites_denial : PolicyContext → Prerequisites → Option PolicyDecision
unfolding deny_context internal_error
prerequisites_denial c (refused reason) = some (deny_context c reason)
prerequisites_denial c (passed d canonical) = none
prerequisites_denial c raised = some (internal_error c)

-- `ToolPolicyEngine.evaluate_prerequisites`
unfoldable pub evaluate_prerequisites : PolicyContext → Option PolicyDecision
unfolding gates_one_to_four prerequisites_denial
evaluate_prerequisites c = prerequisites_denial c (gates_one_to_four c)

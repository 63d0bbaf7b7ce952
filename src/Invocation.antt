-- ===== src/Invocation.antt =====
-- Requests for an invocation, before a row is written: the request type, the refusals, the target and
-- the idempotency key of src/acop/services/tools/invocation.py. The assets are the rows of
-- src/acop/models/asset.py, of which this service reads three columns and writes none.
pub mod Rows
pub mod Last
pub mod Create
pub mod Inserted
use cyberwithsteve_acop.Base.{
  ℕ, String, Bool, true, false, not, ◌&&◌, Option, none, some, List, str_eq, find, ◌==◌,
  if◌then◌else◌,
}
use cyberwithsteve_acop.Json.{Fields, end, field}
use cyberwithsteve_acop.Vocabulary.States.{superseded, same_state}
use cyberwithsteve_acop.Vocabulary.Reasons.{TargetKind, PolicyReason}
use cyberwithsteve_acop.Contract.{ToolDefinition}
use cyberwithsteve_acop.Policy.{TargetFacts}
use cyberwithsteve_acop.Store.{
  ToolRegistration, ToolInvocation, ToolError, tool_not_found, tool_disabled, prohibited_capability,
  tool_authorization, tool_policy_denied, policy_engine_failure, invalid_target, tool_input,
  idempotency_conflict, Result, ok, err,
}

pub record InvocationRequest : Type 0 where
  pub tool_name : String
  pub tool_version : String
  pub arguments : Fields
  pub target_asset_id : Option ℕ
  pub target_ref : Option Fields
  pub idempotency_key : Option String
  pub request_id : Option String

pub record Asset : Type 0 where
  pub id : ℕ
  pub asset_type : String
  pub lifecycle_state : String

-- What the service is made with: the digest, the declarations in code, the assets and the setting
-- `environment`.
pub record Service : Type 0 where
  pub sha256 : List ℕ → String
  pub registry : List ToolDefinition
  pub assets : List Asset
  pub environment : String

-- `_REFUSAL_ERRORS`
pub refusal_error : PolicyReason → ToolError
refusal_error PolicyReason.schema_invalid = tool_input
refusal_error PolicyReason.target_invalid = invalid_target
refusal_error PolicyReason.target_out_of_scope = invalid_target
refusal_error PolicyReason.target_retired = invalid_target
refusal_error PolicyReason.tool_disabled = tool_disabled
refusal_error PolicyReason.tool_retired = tool_disabled
refusal_error PolicyReason.role_insufficient = tool_authorization
refusal_error PolicyReason.capability_not_bound = tool_not_found
refusal_error PolicyReason.prohibited_capability = prohibited_capability
refusal_error PolicyReason.internal_error = policy_engine_failure
refusal_error _ = tool_policy_denied

-- `if target_ref`: an empty reference counts as none.
abbrev pub given_ref : Option Fields → Option Fields
given_ref (some (field k v rest)) = some (field k v rest)
given_ref _ = none

abbrev kind_of_ref : Option Fields → TargetKind
kind_of_ref none = TargetKind.none
kind_of_ref (some ref) = TargetKind.external_ref

-- `_requested_kind`
pub requested_kind : InvocationRequest → TargetKind
requested_kind r = elim r.target_asset_id [
  | some id ↦ TargetKind.asset
  | none ↦ kind_of_ref (given_ref r.target_ref)
]

-- `TargetFacts` of a kind, with its defaults.
abbrev pub bare_target : TargetKind → Bool → TargetFacts
bare_target kind is_there = record {
  kind = kind;
  is_there = is_there;
  asset_id = none;
  asset_type = "";
  lifecycle_state = "";
  external_ref = none;
}

unfoldable pub get_asset : ℕ → List Asset → Option Asset
get_asset id = find (λ a. a.id == id)

asset_target : Option Asset → TargetFacts
asset_target none = bare_target TargetKind.asset false
asset_target (some a) = record {
  kind = TargetKind.asset;
  is_there = true;
  asset_id = some a.id;
  asset_type = a.asset_type;
  lifecycle_state = a.lifecycle_state;
  external_ref = none;
}

ref_target : Option Fields → TargetFacts
ref_target none = bare_target TargetKind.none true
ref_target (some ref) = record (bare_target TargetKind.external_ref true) {
  external_ref = some ref;
}

-- `_resolve_target`
unfoldable pub resolve_target : List Asset → InvocationRequest → TargetFacts
unfolding asset_target ref_target get_asset
resolve_target assets r = elim r.target_asset_id [
  | some id ↦ asset_target (get_asset id assets)
  | none ↦ ref_target (given_ref r.target_ref)
]

-- `_registration`
unfoldable pub find_registration : String → String → List ToolRegistration → Option ToolRegistration
find_registration name version =
    find (λ r. str_eq r.tool_name name && str_eq r.tool_version version)

-- A row that a key stands for: idempotency_key = … AND state <> 'SUPERSEDED'.
unfoldable pub holds_key : String → ToolInvocation → Bool
holds_key key i =
    elim i.idempotency_key [ none ↦ false | some k ↦ str_eq k key ]
    && not (same_state i.state superseded)

same_request : String → Option ToolInvocation → Result (Option ToolInvocation)
same_request digest none = ok none
same_request digest (some i) =
    if str_eq i.envelope_digest digest then ok (some i) else err idempotency_conflict

-- `_existing_for_key`: the empty key counts as none.
pub existing_for_key : Option String → String → List ToolInvocation → Result (Option ToolInvocation)
unfolding same_request holds_key
existing_for_key none digest l = ok none
existing_for_key (some key) digest l =
    if str_eq key "" then ok none else same_request digest (find (holds_key key) l)

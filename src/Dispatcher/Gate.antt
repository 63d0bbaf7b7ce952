-- ===== src/Dispatcher/Gate.antt =====
-- The final execution gate: `_final_gate` of src/acop/services/tools/dispatcher.py.
pub mod Checks
use cyberwithsteve_acop.Base.{
  ℕ, String, Bool, true, false, not, Option, none, some, List, str_eq, find, ◌==◌, if◌then◌else◌,
}
use cyberwithsteve_acop.Vocabulary.Reasons.{
  ToolLifecycle, active, disabled, retired, GateDecision, PolicyReason,
}
use cyberwithsteve_acop.Contract.{ToolDefinition}
use cyberwithsteve_acop.Registry.{get_definition}
use cyberwithsteve_acop.Policy.{is_prohibited, lifecycle_gate}
use cyberwithsteve_acop.Envelope.{build_envelope, build_target_block, envelope_digest}
use cyberwithsteve_acop.Approval.{approved_rows, approval_failure}
use cyberwithsteve_acop.Store.{ToolRegistration, ToolInvocation, ToolApproval, Tables}

-- `allowed` goes with a definition, and a refusal with a reason.
pub data GateResult : Type 0 where
  admitted : ToolDefinition → GateResult
  refused : PolicyReason → GateResult

abbrev pub gate_decision : GateResult → GateDecision
gate_decision (admitted d) = GateDecision.allow
gate_decision (refused r) = GateDecision.deny

abbrev pub gate_reason : GateResult → PolicyReason
gate_reason (admitted d) = PolicyReason.allowed
gate_reason (refused r) = r

pub get_registration : ℕ → List ToolRegistration → Option ToolRegistration
get_registration id = find (λ r. r.id == id)

module _ (sha256 : List ℕ → String) where
  -- The digest of the envelope, from what the row stores and the code declares now.
  pub recomputed_digest : ToolDefinition → ToolInvocation → String
  recomputed_digest d i = envelope_digest sha256 (
      build_envelope d i.input_canonical
        (build_target_block i.target_kind i.target_asset_id i.target_ref))

  approval_check : ToolDefinition → Option PolicyReason → GateResult
  approval_check d none = admitted d
  approval_check d (some reason) = refused reason

  envelope_check : ToolDefinition → ToolInvocation → List ToolApproval → ℕ → GateResult
  unfolding recomputed_digest approval_check
  envelope_check d i approvals now =
      if not (str_eq (recomputed_digest d i) i.envelope_digest)
      then refused PolicyReason.envelope_integrity_failed
      else (if i.approval_required
          then approval_check d (approval_failure i (approved_rows i.id approvals) now)
          else admitted d)

  prohibition_check : ToolDefinition → ToolInvocation → List ToolApproval → ℕ → GateResult
  unfolding envelope_check
  prohibition_check d i approvals now =
      if is_prohibited d
      then refused PolicyReason.prohibited_capability
      else envelope_check d i approvals now

  lifecycle_check :
      Option PolicyReason → ToolDefinition → ToolInvocation → List ToolApproval → ℕ → GateResult
  unfolding prohibition_check
  lifecycle_check (some reason) d i approvals now = refused reason
  lifecycle_check none d i approvals now = prohibition_check d i approvals now

  registration_check :
      Option ToolRegistration → ToolDefinition → ToolInvocation → List ToolApproval → ℕ → GateResult
  unfolding lifecycle_check lifecycle_gate
  registration_check none d i approvals now = refused PolicyReason.capability_not_bound
  registration_check (some r) d i approvals now =
      lifecycle_check (lifecycle_gate r.lifecycle_state) d i approvals now

  binding_check : Option ToolDefinition → ToolInvocation → Tables → ℕ → GateResult
  unfolding registration_check
  binding_check none i t now = refused PolicyReason.capability_not_bound
  binding_check (some d) i t now =
      registration_check (get_registration i.tool_registration_id t.registrations) d i t.approvals
        now

  -- `_final_gate`: the row that the worker holds, against the registry and the tables.
  pub final_gate : List ToolDefinition → ToolInvocation → Tables → ℕ → GateResult
  unfolding binding_check
  final_gate registry i t now =
      binding_check (get_definition registry i.tool_name i.tool_version) i t now

-- ===== src/Dispatcher/Gate/Checks.antt =====
-- What the final gate of src/acop/services/tools/dispatcher.py demands before an adapter is called.
use cyberwithsteve_acop.Base.{
  ℕ, String, ◌≡◌, refl, ◌↔◌, ◌⊎◌, inl, inr, true, false, Option, none, some, List, arith, str_eq,
  Bool-cases,
}
use cyberwithsteve_acop.Vocabulary.Reasons.{ToolLifecycle, active, PolicyReason}
use cyberwithsteve_acop.Contract.{ToolDefinition}
use cyberwithsteve_acop.Registry.{get_definition}
use cyberwithsteve_acop.Policy.{is_prohibited, lifecycle_gate}
use cyberwithsteve_acop.Store.{ToolRegistration, ToolInvocation, ToolApproval, Tables}
use cyberwithsteve_acop.Approval.{approved_rows, approval_failure}
use cyberwithsteve_acop.Approval.Failure.{IsApproved, approval_failure_iff}
use cyberwithsteve_acop.Dispatcher.Gate.{
  admitted, get_registration, recomputed_digest, approval_check, envelope_check, prohibition_check,
  lifecycle_check, registration_check, binding_check, final_gate,
}

module _ (sha256 : List ℕ → String) (registry : List ToolDefinition) where
  -- Everything an admitted invocation satisfies at the moment of the gate.
  pub record IsCleared (i : ToolInvocation) (t : Tables) (now : ℕ) (d : ToolDefinition)
      : Type 0 where
    pub is_bound : get_definition registry i.tool_name i.tool_version ≡ some d
    pub registration : ToolRegistration
    pub is_registered : get_registration i.tool_registration_id t.registrations ≡ some registration
    pub registered_active : registration.lifecycle_state ≡ active
    pub is_permitted : is_prohibited d ≡ false
    pub is_intact : str_eq (recomputed_digest sha256 d i) i.envelope_digest ≡ true
    pub approved : (i.approval_required ≡ false) ⊎ IsApproved i (approved_rows i.id t.approvals) now

  admitted_envelope :
      (x d : ToolDefinition) (i : ToolInvocation) (l : List ToolApproval) (now : ℕ)
      (failure : Option PolicyReason)
      → approval_failure i (approved_rows i.id l) now ≡ failure
      → envelope_check sha256 x i l now ≡ admitted d
      → (x ≡ d)
        × (str_eq (recomputed_digest sha256 x i) i.envelope_digest ≡ true)
        × ((i.approval_required ≡ false) ⊎ (failure ≡ none))
  unfolding envelope_check approval_check
  admitted_envelope x d i l now none e h = ground arith
  admitted_envelope x d i l now (some r) e h = ground arith

  -- Every check of an admitted invocation, after its definition and registration were found.
  abbrev Passes : ToolDefinition → ToolLifecycle → ToolInvocation → List ToolApproval → ℕ → Type 0
  Passes d lifecycle i l now =
      (lifecycle ≡ active)
      × (is_prohibited d ≡ false)
      × (str_eq (recomputed_digest sha256 d i) i.envelope_digest ≡ true)
      × ((i.approval_required ≡ false) ⊎ (approval_failure i (approved_rows i.id l) now ≡ none))

  admitted_prohibition :
      (x d : ToolDefinition) (i : ToolInvocation) (l : List ToolApproval) (now : ℕ)
      → prohibition_check sha256 x i l now ≡ admitted d
      → (x ≡ d) × Passes x active i l now
  unfolding prohibition_check
  admitted_prohibition x d i l now h = elim (Bool-cases (is_prohibited x)) [
    | inl banned ↦ ground (arith, banned)
    | inr permitted ↦
        (let (same, intact, approved) =
            admitted_envelope x d i l now (approval_failure i (approved_rows i.id l) now) refl
              (ground (arith, permitted)) in
          (same, (refl, permitted, intact, approved)))
  ]

  admitted_lifecycle :
      (lifecycle : ToolLifecycle) (x d : ToolDefinition) (i : ToolInvocation)
      (l : List ToolApproval) (now : ℕ)
      → lifecycle_check sha256 (lifecycle_gate lifecycle) x i l now ≡ admitted d
      → (x ≡ d) × Passes x lifecycle i l now
  unfolding lifecycle_check lifecycle_gate
  admitted_lifecycle active x d i l now h = admitted_prohibition x d i l now h
  admitted_lifecycle _ x d i l now h = cc

  passed_checks :
      (d : ToolDefinition) (lifecycle : ToolLifecycle) (i : ToolInvocation) (l : List ToolApproval)
      (now : ℕ)
      → Passes d lifecycle i l now
      → lifecycle_check sha256 (lifecycle_gate lifecycle) d i l now ≡ admitted d
  unfolding lifecycle_check lifecycle_gate prohibition_check envelope_check approval_check
  passed_checks d lifecycle i l now (is_active, permitted, intact, inl free) =
      rw is_active (rw permitted (rw intact (rw free refl)))
  passed_checks d lifecycle i l now (is_active, permitted, intact, inr enough) =
      rw is_active (rw permitted (rw intact (rw enough (ground arith))))

  admitted_registration :
      (o : Option ToolRegistration) (x d : ToolDefinition) (i : ToolInvocation)
      (l : List ToolApproval) (now : ℕ)
      → registration_check sha256 o x i l now ≡ admitted d
      → (x ≡ d) × (r : ToolRegistration) × (o ≡ some r) × Passes x r.lifecycle_state i l now
  unfolding registration_check
  admitted_registration none x d i l now h = cc
  admitted_registration (some r) x d i l now h =
      let (same, passes) = admitted_lifecycle r.lifecycle_state x d i l now h in
      (same, r, refl, passes)

  IsApproved-of :
      (i : ToolInvocation) (l : List ToolApproval) (now : ℕ)
      → (i.approval_required ≡ false) ⊎ (approval_failure i l now ≡ none)
      → (i.approval_required ≡ false) ⊎ IsApproved i l now
  IsApproved-of i l now (inl free) = inl free
  IsApproved-of i l now (inr enough) = (approval_failure_iff i l now).0 enough

  enough_of :
      (i : ToolInvocation) (l : List ToolApproval) (now : ℕ)
      → (i.approval_required ≡ false) ⊎ IsApproved i l now
      → (i.approval_required ≡ false) ⊎ (approval_failure i l now ≡ none)
  enough_of i l now (inl free) = inl free
  enough_of i l now (inr a) = inr ((approval_failure_iff i l now).1 (inr a))

  admitted-IsCleared :
      (o : Option ToolDefinition) (i : ToolInvocation) (t : Tables) (now : ℕ) (d : ToolDefinition)
      → get_definition registry i.tool_name i.tool_version ≡ o
      → binding_check sha256 o i t now ≡ admitted d
      → IsCleared i t now d
  unfolding binding_check
  admitted-IsCleared none i t now d found h = cc
  admitted-IsCleared (some x) i t now d found h =
      let (same, r, registered, (is_active, permitted, intact, approved)) =
        admitted_registration (get_registration i.tool_registration_id t.registrations) x d i
          t.approvals now h in
      record {
        is_bound = cc;
        registration = r;
        is_registered = registered;
        registered_active = is_active;
        is_permitted = cc;
        is_intact = cc;
        approved = IsApproved-of i (approved_rows i.id t.approvals) now approved;
      }

  IsCleared-admitted :
      (i : ToolInvocation) (t : Tables) (now : ℕ) (d : ToolDefinition)
      → IsCleared i t now d
      → final_gate sha256 registry i t now ≡ admitted d
  unfolding final_gate binding_check registration_check
  IsCleared-admitted i t now d c = rw (c.is_bound) (
      rw (c.is_registered) (
        passed_checks d c.registration.lifecycle_state i t.approvals now (
          c.registered_active,
          c.is_permitted,
          c.is_intact,
          enough_of i (approved_rows i.id t.approvals) now c.approved,
        )))

  -- The final gate admits an invocation exactly when the code still declares its tool and version,
  -- the row's registration exists and is active, the tool is not prohibited, the digest of the
  -- envelope rebuilt from the row and the declaration is the stored one, and its approvals suffice.
  pub final_gate_admits_iff :
      (i : ToolInvocation) (t : Tables) (now : ℕ) (d : ToolDefinition)
      → (final_gate sha256 registry i t now ≡ admitted d) ↔ IsCleared i t now d
  unfolding final_gate
  final_gate_admits_iff i t now d = (
    admitted-IsCleared (get_definition registry i.tool_name i.tool_version) i t now d refl,
    IsCleared-admitted i t now d,
  )

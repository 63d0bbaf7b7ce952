-- ===== src/Invocation/Create/Refusal.antt =====
-- What becomes of a refused request in src/acop/services/tools/invocation.py.
use cyberwithsteve_acop.Base.{
  if◌then◌else◌, inl, inr, Bool-cases, ℕ, ◌≡◌, refl, sym, ap, subst, ◌∙◌, Bool, true, false, Option,
  none, some,
}
use cyberwithsteve_acop.Vocabulary.Roles.{Principal}
use cyberwithsteve_acop.Vocabulary.Reasons.{TargetKind}
use cyberwithsteve_acop.Policy.{PolicyDecision, evaluate, evaluate_prerequisites}
use cyberwithsteve_acop.Policy.Gates.{absent_target, evaluate_allows_iff, prerequisites_decide}
use cyberwithsteve_acop.Store.{
  ◌>>=◌, ToolRegistration, ToolInvocation, Tables, ToolError, unexpected, err, transaction,
}
use cyberwithsteve_acop.Invocation.{
  asset_target, InvocationRequest, Service, find_registration, resolve_target, get_asset,
  bare_target,
}
use cyberwithsteve_acop.Invocation.Rows.{rejected_row, insert_invocation, missing-accepts_row}
use cyberwithsteve_acop.Invocation.Create.{
  pure, get_definition, accept, first_context, full_context, decide_by, decide_request, reject,
  insert_row, settle_request, create_for, after_commit, create,
}

module _ (s : Service) (r : InvocationRequest) (p : Principal) where
  decided_by :
      (o : Option PolicyDecision) (registration : ToolRegistration) (now : ℕ)
      → evaluate_prerequisites (first_context s r p registration now) ≡ o
      → decide_by s r p o registration now ≡ evaluate (full_context s r p registration now)
  unfolding decide_by first_context full_context
  decided_by none registration now e = refl
  decided_by (some denial) registration now e = sym (
      prerequisites_decide (first_context s r p registration now) p (resolve_target s.assets r)
        s.environment e)

  -- Looking the target up only after gates 1 to 4 have passed changes no decision: the request is
  -- decided as by all gates at once, on the target that is found.
  pub decide_request-evaluate :
      (registration : ToolRegistration) (now : ℕ)
      → decide_request s r p registration now ≡ evaluate (full_context s r p registration now)
  unfolding decide_request
  decide_request-evaluate registration now =
      decided_by (evaluate_prerequisites (first_context s r p registration now)) registration now
        refl

  pub refused_settles :
      (registration : ToolRegistration) (decision : PolicyDecision) (t : Tables)
      → decision.allowed ≡ false
      → settle_request s r p registration decision t ≡ reject s r p registration decision t
  unfolding settle_request
  refused_settles registration decision t refused =
      let accepting =
        accept s r p (get_definition s.registry r.tool_name r.tool_version) registration decision
          (resolve_target s.assets r) in
      let accepted : ToolInvocation → ToolInvocation × Option ToolError = λ i. (i, none) in
      ap
        (λ (b : Bool).
          (if b then (accepting >>= λ i. pure (accepted i)) else reject s r p registration decision)
            t)
        refused

  module _ (id : ℕ) (named : r.target_asset_id ≡ some id)
      (missing : get_asset id s.assets ≡ none) where
    no_target : resolve_target s.assets r ≡ bare_target TargetKind.asset false
    unfolding resolve_target asset_target
    no_target = rw named (rw missing refl)

    not_allowed :
        (registration : ToolRegistration) (now : ℕ)
        → (decide_request s r p registration now).allowed ≡ false
    unfolding full_context
    not_allowed registration now =
        elim (Bool-cases (decide_request s r p registration now).allowed) [
          | inr refused ↦ refused
          | inl granted ↦
              (let c = full_context s r p registration now in
                let same = decide_request-evaluate registration now in
                let (d, a) =
                  (evaluate_allows_iff c).0
                    (subst (λ (x : PolicyDecision). x.allowed ≡ true) same granted) in
                cc (
                  a.target_valid,
                  absent_target d (resolve_target s.assets r) (rw no_target refl)
                      (rw no_target refl),
                ))
        ]

    refusal_lost :
        (registration : ToolRegistration) (decision : PolicyDecision) (t : Tables)
        → reject s r p registration decision t ≡ (err unexpected, t)
    unfolding reject insert_row insert_invocation rejected_row
    refusal_lost registration decision t =
        rw
          (missing-accepts_row s.assets (rejected_row t.next_id r p registration decision)
            t.invocations id named missing)
          refl

    for_lost :
        (registration : ToolRegistration) (now : ℕ) (t : Tables)
        → create_for s r p (some registration) now t ≡ (err unexpected, t)
    unfolding create_for
    for_lost registration now t =
        refused_settles registration (decide_request s r p registration now) t
          (not_allowed registration now)
        ∙ refusal_lost registration (decide_request s r p registration now) t

    -- A request for a registered tool that names an asset that does not exist is refused by the gates,
    -- but its refusal is not recorded: the foreign key rejects the row, the transaction is rolled
    -- back, and the caller gets the database's error in place of `InvalidTargetError`.
    pub create_missing_asset :
        (registration : ToolRegistration) (now : ℕ) (t : Tables)
        → find_registration r.tool_name r.tool_version t.registrations ≡ some registration
        → create s r p now t ≡ (err unexpected, t)
    unfolding create transaction after_commit
    create_missing_asset registration now t found = rw found (rw (for_lost registration now t) refl)

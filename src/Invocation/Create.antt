-- ===== src/Invocation/Create.antt =====
-- `ToolInvocationService.create` of src/acop/services/tools/invocation.py and the steps it is made of.
pub mod Sound
pub mod Replay
pub mod Refusal
pub mod Recorded
pub mod Admitted
pub mod Ready
use cyberwithsteve_acop.Base.{
  ℕ, String, Bool, true, false, ◌||◌, Option, none, some, List, [], ◌∷◌, ◌++◌, if◌then◌else◌,
}
use cyberwithsteve_acop.Json.{Fields, end, field, str, int}
use cyberwithsteve_acop.Vocabulary.States.{
  requested, authorized, awaiting_approval, ready, rejected,
}
use cyberwithsteve_acop.Vocabulary.Roles.{Principal, to_audit_fields}
use cyberwithsteve_acop.Vocabulary.Reasons.{
  PolicyReason, policy, in_approval_required_classes, PermissionClass,
}
use cyberwithsteve_acop.Contract.{ToolDefinition}
use cyberwithsteve_acop.Registry.{get_definition}
use cyberwithsteve_acop.Policy.{
  PolicyContext, PolicyDecision, TargetFacts, evaluate, evaluate_prerequisites,
}
use cyberwithsteve_acop.Envelope.{build_envelope, build_target_block, envelope_digest}
use cyberwithsteve_acop.Store.{
  ToolRegistration, ToolInvocation, InvocationColumns, InvocationRequestRow, AuditOutcome,
  AuditSeverity, Tables, ToolError, tool_not_found, Result, ok, err, Exec, pure, raise, ◌>>=◌, ◌>>◌,
  transaction, refresh,
}
use cyberwithsteve_acop.State.{append_event, transition, anything, no_columns}
use cyberwithsteve_acop.Invocation.{
  InvocationRequest, Service, refusal_error, requested_kind, resolve_target, bare_target, given_ref,
  find_registration, existing_for_key,
}
use cyberwithsteve_acop.Invocation.Rows.{rejected_row, persisted_row, insert_invocation}

audited : String → AuditOutcome → AuditSeverity → ℕ → Principal → Exec (Unit {0})
unfolding to_audit_fields
audited action outcome severity id p t = pure tt (record t {
  audit_events =
      t.audit_events
      ++ record {
        action = action;
        outcome = outcome;
        severity = severity;
        resource_id = id;
        actor = to_audit_fields p;
      }
        ∷ [];
})

created_outcome : Bool → AuditOutcome
created_outcome true = AuditOutcome.pending_approval
created_outcome false = AuditOutcome.success

created_severity : PermissionClass → AuditSeverity
created_severity c =
    if in_approval_required_classes c then AuditSeverity.notice else AuditSeverity.info

-- `_audit_created`
pub audit_created : ToolInvocation → Principal → PolicyDecision → Exec (Unit {0})
unfolding audited created_outcome created_severity
audit_created i p decision =
    audited "tool.invoke" (created_outcome i.approval_required)
      (created_severity decision.permission_class) i.id p

denied_action : PolicyReason → String
denied_action PolicyReason.internal_error = "tool.policy_failure"
denied_action _ = "tool.invoke"

denied_severity : PolicyReason → AuditSeverity
denied_severity PolicyReason.internal_error = AuditSeverity.critical
denied_severity PolicyReason.prohibited_capability = AuditSeverity.critical
denied_severity _ = AuditSeverity.warning

-- `_audit_denied`
pub audit_denied : ToolInvocation → Principal → PolicyDecision → Exec (Unit {0})
unfolding audited denied_action denied_severity
audit_denied i p decision =
    audited (denied_action decision.reason) AuditOutcome.denied (denied_severity decision.reason)
      i.id p

-- Where an authorised invocation goes.
branch : ToolInvocation → Principal → Bool → Exec (Unit {0})
branch i p true =
    transition i awaiting_approval (policy PolicyReason.approval_missing) (some p.subject)
      (field "min_approvals" (int i.min_approvals) end) anything no_columns
branch i p false =
    transition i ready (policy PolicyReason.allowed) (some p.subject) end anything no_columns

-- `_advance`
pub advance : ToolInvocation → Principal → PolicyDecision → Exec (Unit {0})
unfolding branch
advance i p decision =
    transition i authorized (policy decision.reason) (some p.subject) end anything no_columns
    >> refresh i.id
    >>= λ held. branch held p decision.approval_policy.approval_required

module _ (s : Service) (r : InvocationRequest) (p : Principal) where
  -- The row, and the event that it begins with.
  insert_row : ToolInvocation → PolicyReason → Fields → Exec (Unit {0})
  insert_row i reason detail =
      insert_invocation s.assets i
      >> append_event i.id none requested (policy reason) (some p.subject) detail
      >> pure tt

  -- `_persist`
  persist : ToolRegistration → PolicyDecision → TargetFacts → String → Exec ToolInvocation
  unfolding insert_row
  persist registration decision target digest t =
      let i = persisted_row s.sha256 t.next_id r p registration decision target digest in
      (insert_row i PolicyReason.allowed (field "envelope_digest" (str digest) end) >> pure i) t

  -- `_reject`: the row in its last state, and the error that the caller raises.
  pub reject : ToolRegistration → PolicyDecision → Exec (ToolInvocation × Option ToolError)
  unfolding insert_row refusal_error audit_denied
  reject registration decision t =
      let i = rejected_row t.next_id r p registration decision in
      (insert_row i decision.reason end
          >> transition i rejected (policy decision.reason) (some p.subject) end anything no_columns
          >> refresh i.id
          >>= λ held.
              audit_denied held p decision >> pure (held, some (refusal_error decision.reason)))
        t

  -- The digest of what is authorised.
  pub request_digest : ToolDefinition → PolicyDecision → TargetFacts → String
  request_digest d decision target = envelope_digest s.sha256 (
      build_envelope d decision.canonical_input
        (build_target_block target.kind target.asset_id (given_ref r.target_ref)))

  new_invocation : ToolRegistration → PolicyDecision → TargetFacts → String → Exec ToolInvocation
  unfolding persist advance audit_created
  new_invocation registration decision target digest =
      persist registration decision target digest >>= λ i.
      advance i p decision >> refresh i.id >>= λ held. audit_created held p decision >> pure held

  replay_or : Result (Option ToolInvocation) → Exec ToolInvocation → Exec ToolInvocation
  replay_or (ok none) new t = new t
  replay_or (ok (some i)) new t = pure i t
  replay_or (err e) new t = raise e t

  -- `_accept`
  accept :
      Option ToolDefinition → ToolRegistration → PolicyDecision → TargetFacts → Exec ToolInvocation
  unfolding replay_or new_invocation request_digest existing_for_key
  accept none registration decision target = raise tool_not_found
  accept (some d) registration decision target =
      let digest = request_digest d decision target in
      λ t.
        replay_or (existing_for_key r.idempotency_key digest t.invocations)
          (new_invocation registration decision target digest) t

  context : ToolRegistration → TargetFacts → ℕ → PolicyContext
  context registration target now = record {
    principal = p;
    definition = get_definition s.registry r.tool_name r.tool_version;
    lifecycle_state = registration.lifecycle_state;
    raw_input = r.arguments;
    target = target;
    environment = s.environment;
    request_time = now;
  }

  first_context : ToolRegistration → ℕ → PolicyContext
  unfolding context requested_kind
  first_context registration now = context registration (bare_target (requested_kind r) false) now

  unfoldable pub full_context : ToolRegistration → ℕ → PolicyContext
  unfolding context
  full_context registration now = context registration (resolve_target s.assets r) now

  -- The decision, and the target it was made about.
  decide_by : Option PolicyDecision → ToolRegistration → ℕ → PolicyDecision
  unfolding full_context
  decide_by (some denial) registration now = denial
  decide_by none registration now = evaluate (full_context registration now)

  pub decide_request : ToolRegistration → ℕ → PolicyDecision
  unfolding decide_by first_context
  decide_request registration now =
      decide_by (evaluate_prerequisites (first_context registration now)) registration now

  pub settle_request : ToolRegistration → PolicyDecision → Exec (ToolInvocation × Option ToolError)
  unfolding accept reject
  settle_request registration decision =
      if decision.allowed
      then (accept (get_definition s.registry r.tool_name r.tool_version) registration decision
            (resolve_target s.assets r)
          >>= λ i. pure (i, none))
      else reject registration decision

  create_for : Option ToolRegistration → ℕ → Exec (ToolInvocation × Option ToolError)
  unfolding settle_request
  create_for none now = raise tool_not_found
  create_for (some registration) now = settle_request registration (decide_request registration now)

  -- The refusal is raised after the commit, so its row stays.
  after_commit : ToolInvocation × Option ToolError → Exec ToolInvocation
  after_commit (i, none) = pure i
  after_commit (i, some e) = raise e

  -- `create`
  pub create : ℕ → Exec ToolInvocation
  unfolding create_for after_commit
  create now =
      (transaction
        λ t. create_for (find_registration r.tool_name r.tool_version t.registrations) now t)
      >>= after_commit

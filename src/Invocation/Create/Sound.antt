-- ===== src/Invocation/Create/Sound.antt =====
-- `create` of src/acop/services/tools/invocation.py keeps the tables sound, however it ends.
use cyberwithsteve_acop.Base.{
  sym, subst, ap, ℕ, ◌≡◌, refl, String, Bool, true, false, Option, none, some, Bool-cases, inl, inr,
}
use cyberwithsteve_acop.Json.{Fields, end, field, str}
use cyberwithsteve_acop.Vocabulary.States.{authorized, awaiting_approval, ready, rejected}
use cyberwithsteve_acop.Vocabulary.Roles.{Principal}
use cyberwithsteve_acop.Vocabulary.Reasons.{PolicyReason, policy}
use cyberwithsteve_acop.Policy.{PolicyDecision, TargetFacts}
use cyberwithsteve_acop.Store.{
  AuditSeverity, AuditOutcome, ToolRegistration, ToolInvocation, InvocationColumns, Tables, Result,
  ok, err, Exec, pure, ◌>>=◌, ◌>>◌, refresh,
}
use cyberwithsteve_acop.Store.Actions.{branch-keeps, bind-keeps, transaction-keeps, refresh-tables}
use cyberwithsteve_acop.State.{transition, append_event, anything, no_columns}
use cyberwithsteve_acop.State.Leases.{IsChecked}
use cyberwithsteve_acop.State.Sound.{no_columns-LeavesLease, IsSound, same-IsSound, early-IsSound}
use cyberwithsteve_acop.Invocation.{
  existing_for_key, ToolError, resolve_target, refusal_error, find_registration, ToolDefinition,
  InvocationRequest, Service,
}
use cyberwithsteve_acop.Invocation.Rows.{
  initial_columns, rejected_row, persisted_row, insert_invocation, accepts_row,
}
use cyberwithsteve_acop.Invocation.Inserted.{inserted-IsSound}
use cyberwithsteve_acop.Invocation.Create.{
  request_digest, transaction, get_definition, decide_request, audited, audit_created, audit_denied,
  branch, advance, insert_row, persist, reject, new_invocation, replay_or, accept, settle_request,
  create_for, after_commit, create,
}

initial-IsChecked : IsChecked initial_columns
initial-IsChecked = record {
  lease_state = refl;
  lease_expiry = refl;
  final_gate_timing = refl;
  final_gate_provenance = refl;
}

audited-IsSound :
    (action : String) (outcome : AuditOutcome) (severity : AuditSeverity) (id : ℕ) (p : Principal)
    (t : Tables)
    → IsSound t
    → IsSound (audited action outcome severity id p t).1
unfolding audited
audited-IsSound action outcome severity id p t h = same-IsSound t _ refl refl refl h

refresh-IsSound : (id : ℕ) (t : Tables) → IsSound t → IsSound (refresh id t).1
refresh-IsSound id t h = rw (refresh-tables id t) h

branch-IsSound :
    (i : ToolInvocation) (p : Principal) (needed : Bool) (t : Tables)
    → IsSound t
    → IsSound (branch i p needed t).1
unfolding branch
branch-IsSound i p true t h =
    early-IsSound i awaiting_approval _ _ _ anything no_columns t h refl no_columns-LeavesLease
branch-IsSound i p false t h =
    early-IsSound i ready _ _ _ anything no_columns t h refl no_columns-LeavesLease

advance-IsSound :
    (i : ToolInvocation) (p : Principal) (d : PolicyDecision) (t : Tables)
    → IsSound t
    → IsSound (advance i p d t).1
unfolding advance
advance-IsSound i p d t h =
    bind-keeps IsSound
      (transition i authorized (policy d.reason) (some p.subject) end anything no_columns
        >> refresh i.id)
      (λ held. branch held p d.approval_policy.approval_required) t
      (bind-keeps IsSound
        (transition i authorized (policy d.reason) (some p.subject) end anything no_columns)
        (λ done. refresh i.id) t
        (early-IsSound i authorized _ _ _ anything no_columns t h refl no_columns-LeavesLease)
        (λ done u k. refresh-IsSound i.id u k))
      (λ held u k. branch-IsSound held p d.approval_policy.approval_required u k)

module _ (s : Service) (r : InvocationRequest) (p : Principal) where
  insert_row-IsSound :
      (i : ToolInvocation) (reason : PolicyReason) (detail : Fields) (t : Tables)
      → IsSound t
      → i.id ≡ t.next_id
      → i.columns ≡ initial_columns
      → IsSound (insert_row s r p i reason detail t).1
  unfolding insert_row insert_invocation append_event
  insert_row-IsSound i reason detail t h new_id fresh =
      elim (Bool-cases (accepts_row s.assets i t.invocations)) [
        | inl accepted ↦ rw accepted (
            inserted-IsSound i (policy reason) (some p.subject) detail t h new_id
              (ap (λ (c : InvocationColumns). c.state) fresh)
              (subst IsChecked (sym fresh) initial-IsChecked))
        | inr no_fit ↦ rw no_fit h
      ]

  persist-IsSound :
      (registration : ToolRegistration) (decision : PolicyDecision) (target : TargetFacts)
      (digest : String) (t : Tables)
      → IsSound t
      → IsSound (persist s r p registration decision target digest t).1
  unfolding persist persisted_row
  persist-IsSound registration decision target digest t h =
      let i = persisted_row s.sha256 t.next_id r p registration decision target digest in
      let detail = field "envelope_digest" (str digest) end in
      bind-keeps IsSound (insert_row s r p i PolicyReason.allowed detail) (λ done. pure i) t
        (insert_row-IsSound i PolicyReason.allowed detail t h refl refl) (λ done u k. k)

  reject-IsSound :
      (registration : ToolRegistration) (decision : PolicyDecision) (t : Tables)
      → IsSound t
      → IsSound (reject s r p registration decision t).1
  unfolding reject rejected_row
  reject-IsSound registration decision t h =
      let i = rejected_row t.next_id r p registration decision in
      let insert = insert_row s r p i decision.reason end in
      let outcome : ToolInvocation → ToolInvocation × Option ToolError =
        λ held. (held, some (refusal_error decision.reason)) in
      let move =
        transition i rejected (policy decision.reason) (some p.subject) end anything no_columns in
      bind-keeps IsSound (insert >> move >> refresh i.id)
        (λ held. audit_denied held p decision >> pure (outcome held)) t
        (bind-keeps IsSound (insert >> move) (λ done. refresh i.id) t
          (bind-keeps IsSound insert (λ done. move) t
            (insert_row-IsSound i decision.reason end t h refl refl)
            (λ done u k.
              early-IsSound i rejected _ _ _ anything no_columns u k refl no_columns-LeavesLease))
          (λ done u k. refresh-IsSound i.id u k))
        (λ held u k.
          bind-keeps IsSound (audit_denied held p decision) (λ done. pure (outcome held)) u
            (unfold audit_denied in audited-IsSound _ _ _ _ p u k) (λ done v l. l))

  new-IsSound :
      (registration : ToolRegistration) (decision : PolicyDecision) (target : TargetFacts)
      (digest : String) (t : Tables)
      → IsSound t
      → IsSound (new_invocation s r p registration decision target digest t).1
  unfolding new_invocation
  new-IsSound registration decision target digest t h =
      bind-keeps IsSound (persist s r p registration decision target digest)
        (λ i. advance i p decision >> refresh i.id >>= λ held.
          audit_created held p decision >> pure held)
        t (persist-IsSound registration decision target digest t h)
        (λ i u k.
          bind-keeps IsSound (advance i p decision >> refresh i.id)
            (λ held. audit_created held p decision >> pure held) u
            (bind-keeps IsSound (advance i p decision) (λ done. refresh i.id) u
              (advance-IsSound i p decision u k) (λ done v l. refresh-IsSound i.id v l))
            (λ held v l.
              bind-keeps IsSound (audit_created held p decision) (λ done. pure held) v
                (unfold audit_created in audited-IsSound _ _ _ _ p v l) (λ done x m. m)))

  replay_or-IsSound :
      (found : Result (Option ToolInvocation)) (new : Exec ToolInvocation) (t : Tables)
      → IsSound t
      → IsSound (new t).1
      → IsSound (replay_or s r p found new t).1
  unfolding replay_or
  replay_or-IsSound (ok none) new t h k = k
  replay_or-IsSound (ok (some i)) new t h k = h
  replay_or-IsSound (err e) new t h k = h

  accept-IsSound :
      (d : Option ToolDefinition) (registration : ToolRegistration) (decision : PolicyDecision)
      (target : TargetFacts) (t : Tables)
      → IsSound t
      → IsSound (accept s r p d registration decision target t).1
  unfolding accept
  accept-IsSound none registration decision target t h = h
  accept-IsSound (some d) registration decision target t h =
      replay_or-IsSound
        (existing_for_key r.idempotency_key (request_digest s r p d decision target) t.invocations)
        (new_invocation s r p registration decision target (request_digest s r p d decision target))
        t h (new-IsSound registration decision target (request_digest s r p d decision target) t h)

  settle-IsSound :
      (registration : ToolRegistration) (decision : PolicyDecision) (t : Tables)
      → IsSound t
      → IsSound (settle_request s r p registration decision t).1
  unfolding settle_request
  settle-IsSound registration decision t h =
      let accepted : ToolInvocation → ToolInvocation × Option ToolError = λ i. (i, none) in
      let accepting =
        accept s r p (get_definition s.registry r.tool_name r.tool_version) registration decision
          (resolve_target s.assets r) in
      branch-keeps IsSound decision.allowed (accepting >>= λ i. pure (accepted i))
        (reject s r p registration decision) t
        (bind-keeps IsSound accepting (λ i. pure (accepted i)) t
          (accept-IsSound (get_definition s.registry r.tool_name r.tool_version) registration
            decision (resolve_target s.assets r) t h)
          (λ i u k. k))
        (reject-IsSound registration decision t h)

  for-IsSound :
      (o : Option ToolRegistration) (now : ℕ) (t : Tables)
      → IsSound t
      → IsSound (create_for s r p o now t).1
  unfolding create_for
  for-IsSound none now t h = h
  for-IsSound (some registration) now t h =
      settle-IsSound registration (decide_request s r p registration now) t h

  after-IsSound :
      (x : ToolInvocation × Option ToolError) (t : Tables)
      → IsSound t
      → IsSound (after_commit s r p x t).1
  unfolding after_commit
  after-IsSound (i, none) t h = h
  after-IsSound (i, some e) t h = h

  -- Whatever a request leads to, the tables stay sound: every history replays to the state of its row,
  -- and every row satisfies the constraints on leases and gates.
  pub create-IsSound : (now : ℕ) (t : Tables) → IsSound t → IsSound (create s r p now t).1
  unfolding create
  create-IsSound now t h =
      let find = λ (u : Tables).
        create_for s r p (find_registration r.tool_name r.tool_version u.registrations) now u in
      bind-keeps IsSound (transaction find) (after_commit s r p) t
        (transaction-keeps IsSound find t
          (for-IsSound (find_registration r.tool_name r.tool_version t.registrations) now t h)
          (same-IsSound t _ refl refl refl h))
        (λ x u k. after-IsSound x u k)

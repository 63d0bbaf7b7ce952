-- ===== src/Invocation/Create/Replay.antt =====
-- A request whose idempotency key is in use, in src/acop/services/tools/invocation.py.
use cyberwithsteve_acop.Base.{
  arith, ℕ, ◌≡◌, refl, ap, String, Bool, true, false, Option, none, some, str_eq, find,
  if◌then◌else◌,
}
use cyberwithsteve_acop.Vocabulary.Roles.{Principal}
use cyberwithsteve_acop.Contract.{ToolDefinition}
use cyberwithsteve_acop.Policy.{PolicyDecision}
use cyberwithsteve_acop.Store.{
  ToolRegistration, ToolInvocation, Tables, ToolError, idempotency_conflict, Result, ok, err, pure,
  ◌>>=◌, transaction,
}
use cyberwithsteve_acop.Invocation.{
  InvocationRequest, Service, find_registration, holds_key, existing_for_key, resolve_target,
}
use cyberwithsteve_acop.Invocation.Create.{
  get_definition, request_digest, replay_or, accept, decide_request, settle_request, create_for,
  after_commit, create, reject,
}

-- The row that holds the key, where it stands for the same request.
abbrev pub replayed : ToolInvocation → String → Result ToolInvocation
replayed i digest = if str_eq i.envelope_digest digest then ok i else err idempotency_conflict

abbrev accepted : ToolInvocation → ToolInvocation × Option ToolError
accepted i = (i, none)

module _ (s : Service) (r : InvocationRequest) (p : Principal) (key : String) (i : ToolInvocation)
    (t : Tables) (keyed : r.idempotency_key ≡ some key) (nonempty : str_eq key "" ≡ false)
    (held : find (holds_key key) t.invocations ≡ some i) where
  kept_key :
      (digest : String)
      → existing_for_key r.idempotency_key digest t.invocations
        ≡ (if str_eq i.envelope_digest digest then ok (some i) else err idempotency_conflict)
  unfolding existing_for_key
  kept_key digest = rw keyed (rw nonempty (rw held refl))

  module _ (registration : ToolRegistration) (d : ToolDefinition) (now : ℕ)
      (defined : get_definition s.registry r.tool_name r.tool_version ≡ some d)
      (granted : (decide_request s r p registration now).allowed ≡ true) where
    abbrev decision : PolicyDecision
    decision = decide_request s r p registration now

    abbrev digest : String
    digest = request_digest s r p d decision (resolve_target s.assets r)

    accept_replays :
        accept s r p
          (get_definition s.registry r.tool_name r.tool_version)
          registration
          decision
          (resolve_target s.assets r)
          t
        ≡ (replayed i digest, t)
    unfolding accept replay_or
    accept_replays = rw defined (rw (kept_key digest) (ground arith))

    settle_replays :
        settle_request s r p registration decision t
        ≡ (accept s r p
                (get_definition s.registry r.tool_name r.tool_version)
                registration
                decision
                (resolve_target s.assets r)
              >>= λ x. pure (accepted x))
            t
    unfolding settle_request
    settle_replays =
        let accepting =
          accept s r p (get_definition s.registry r.tool_name r.tool_version) registration decision
            (resolve_target s.assets r) in
        ap
          (λ (b : Bool).
            (if b
                then (accepting >>= λ x. pure (accepted x))
                else reject s r p registration decision)
              t)
          granted

    -- When an allowed request brings an idempotency key that a live row holds, nothing is written: the
    -- caller gets that row, if it was authorised with the same envelope digest, and
    -- `IdempotencyConflictError` otherwise.
    pub create_replay :
        find_registration r.tool_name r.tool_version t.registrations ≡ some registration
        → create s r p now t ≡ (replayed i digest, t)
    unfolding create create_for after_commit transaction
    create_replay found = rw found (rw settle_replays (rw accept_replays (ground arith)))

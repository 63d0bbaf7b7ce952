-- ===== src/Invocation/Create/Recorded.antt =====
-- What is kept of a request that src/acop/services/tools/invocation.py refuses.
use cyberwithsteve_acop.Base.{ℕ, ◌≡◌, refl, ap, ◌∙◌, true, false, Option, none, some, [], ◌∷◌, ◌++◌}
use cyberwithsteve_acop.Json.{end}
use cyberwithsteve_acop.Vocabulary.States.{rejected, is_legal_transition}
use cyberwithsteve_acop.Vocabulary.Roles.{Principal}
use cyberwithsteve_acop.Vocabulary.Reasons.{policy}
use cyberwithsteve_acop.Policy.{PolicyDecision}
use cyberwithsteve_acop.Store.{
  ToolRegistration, ToolInvocation, Tables, ToolError, Result, ok, err, pure, ◌>>◌, assign,
  get_invocation, refresh,
}
use cyberwithsteve_acop.Store.Actions.{transaction_ok, bind_value}
use cyberwithsteve_acop.State.{append_event, transition, anything, no_columns, cas_set}
use cyberwithsteve_acop.Invocation.{InvocationRequest, Service, find_registration, refusal_error}
use cyberwithsteve_acop.Invocation.Rows.{accepts_row, insert_invocation, rejected_row}
use cyberwithsteve_acop.Invocation.Last.{refresh_last, transition_last_result, transition_last_rows}
use cyberwithsteve_acop.Invocation.Create.{
  audit_denied, audited, insert_row, reject, decide_request, settle_request, create_for,
  after_commit, create,
}
use cyberwithsteve_acop.Invocation.Create.Refusal.{refused_settles}

module _ (s : Service) (r : InvocationRequest) (p : Principal) (registration : ToolRegistration)
    (now : ℕ) (t : Tables) where
  abbrev decision : PolicyDecision
  decision = decide_request s r p registration now

  abbrev row : ToolInvocation
  row = rejected_row t.next_id r p registration decision

  -- The row in its last state.
  abbrev pub recorded : ToolInvocation
  recorded = assign (cas_set rejected no_columns) row

  -- What is kept: the error or row that is returned, and the rows.
  abbrev Outcome : {A : Type 0} → A → Result A × Tables → Type 0
  Outcome a x = (x.0 ≡ ok a) × (x.1.invocations ≡ t.invocations ++ recorded ∷ [])

  module _ (fits : accepts_row s.assets row t.invocations ≡ true)
      (gone : get_invocation t.next_id t.invocations ≡ none)
      (refused : decision.allowed ≡ false) where
    row_gone : get_invocation row.id t.invocations ≡ none
    unfolding rejected_row
    row_gone = gone

    recorded_gone : get_invocation recorded.id t.invocations ≡ none
    unfolding rejected_row
    recorded_gone = gone

    row_legal : is_legal_transition row.state rejected ≡ true
    unfolding rejected_row is_legal_transition
    row_legal = refl

    audit_lem : (held : ToolInvocation) (u : Tables) → (audit_denied held p decision u).0 ≡ ok tt
    unfolding audit_denied audited
    audit_lem held u = refl

    audit_rows :
        (held : ToolInvocation) (u : Tables)
        → (audit_denied held p decision u).1.invocations ≡ u.invocations
    unfolding audit_denied audited
    audit_rows held u = refl

    abbrev insert : Tables → Result (Unit {0}) × Tables
    insert = insert_row s r p row decision.reason end

    insert_result : (insert t).0 ≡ ok tt
    unfolding insert_row insert_invocation append_event
    insert_result = rw fits refl

    insert_rows : (insert t).1.invocations ≡ t.invocations ++ row ∷ []
    unfolding insert_row insert_invocation append_event
    insert_rows = rw fits refl

    abbrev move : Tables → Result (Unit {0}) × Tables
    move = transition row rejected (policy decision.reason) (some p.subject) end anything no_columns

    moved : Outcome tt ((insert >> move) t)
    moved =
        bind_value (Outcome tt) insert (λ done. move) t tt insert_result
          (
            transition_last_result t.invocations row row_gone (insert t).1 insert_rows rejected
                (policy decision.reason) (some p.subject) end no_columns row_legal,
            transition_last_rows t.invocations row row_gone (insert t).1 insert_rows rejected
                (policy decision.reason) (some p.subject) end no_columns row_legal,
          )

    same_row_id : row.id ≡ recorded.id
    same_row_id = refl

    read : Outcome recorded ((insert >> move >> refresh row.id) t)
    read =
        bind_value (Outcome recorded) (insert >> move) (λ done. refresh row.id) t tt moved.0
          (rw (refresh_last t.invocations recorded recorded_gone ((insert >> move) t).1 moved.1)
            (refl, moved.1))

    abbrev refusal : ToolInvocation → ToolInvocation × Option ToolError
    refusal held = (held, some (refusal_error decision.reason))

    rejects : Outcome (refusal recorded) (reject s r p registration decision t)
    unfolding reject
    rejects =
        bind_value (Outcome (refusal recorded)) (insert >> move >> refresh row.id)
          (λ held. audit_denied held p decision >> pure (refusal held)) t recorded read.0
          (let u = ((insert >> move >> refresh row.id) t).1 in
            bind_value (Outcome (refusal recorded)) (audit_denied recorded p decision)
              (λ done. pure (refusal recorded)) u tt (audit_lem recorded u)
              (refl, audit_rows recorded u ∙ read.1))

    settled : Outcome (refusal recorded) (settle_request s r p registration decision t)
    settled = rw (refused_settles s r p registration decision t refused) rejects

    -- A refused request leaves a row in state REJECTED behind, after the rows that were there, and the
    -- caller gets the error that belongs to the reason: provided that the tool is registered, that the
    -- next id is free and that the constraints of the table admit the row.
    pub create_refused :
        find_registration r.tool_name r.tool_version t.registrations ≡ some registration
        → ((create s r p now t).0 ≡ err (refusal_error decision.reason))
          × ((create s r p now t).1.invocations ≡ t.invocations ++ recorded ∷ [])
    unfolding create create_for after_commit
    create_refused found =
        let both = λ (u : Tables).
          create_for s r p (find_registration r.tool_name r.tool_version u.registrations) now u in
        let found_both : both t ≡ settle_request s r p registration decision t =
          ap (λ o. create_for s r p o now t) found in
        let committed = transaction_ok both t (refusal recorded) (
          ap (λ (x : Result (ToolInvocation × Option ToolError) × Tables). x.0) found_both
          ∙ settled.0) in
        rw committed (
          refl,
          ap (λ (x : Result (ToolInvocation × Option ToolError) × Tables). x.1.invocations)
                found_both
              ∙ settled.1,
        )

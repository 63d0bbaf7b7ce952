-- ===== src/Invocation/Last.antt =====
-- Steps on the row that was inserted last, which no row before it shares its id with.
use cyberwithsteve_acop.Base.{
  ◌≡◌, refl, ap, ◌∙◌, String, true, Option, none, some, List, [], ◌∷◌, ◌++◌, ◌==◌, ==_iff,
}
use cyberwithsteve_acop.Json.{Fields}
use cyberwithsteve_acop.Vocabulary.States.{InvocationState, is_legal_transition}
use cyberwithsteve_acop.Vocabulary.States.Machine.{same_state_refl}
use cyberwithsteve_acop.Vocabulary.Reasons.{Reason}
use cyberwithsteve_acop.Store.{
  Result, ToolInvocation, Tables, Assignment, assign, get_invocation, update_where, ok, refresh,
}
use cyberwithsteve_acop.State.{transition, append_event, anything, cas_test, cas_set}
use cyberwithsteve_acop.State.Steps.{transition_won}
use cyberwithsteve_acop.Invocation.Inserted.{get-append, update-append}

module _ (l : List ToolInvocation) (i : ToolInvocation) (gone : get_invocation i.id l ≡ none) where
  same_id : (i.id == i.id) ≡ true
  same_id = (==_iff i.id i.id).1 refl

  get_last : get_invocation i.id (l ++ i ∷ []) ≡ some i
  get_last = rw (get-append i.id l i) (rw gone (rw same_id refl))

  module _ (t : Tables) (last : t.invocations ≡ l ++ i ∷ []) where
    found_last : get_invocation i.id t.invocations ≡ some i
    found_last = rw last get_last

    pub refresh_last : refresh i.id t ≡ (ok i, t)
    unfolding refresh
    refresh_last = rw found_last refl

    test_last : cas_test i.state anything i ≡ true
    unfolding cas_test
    test_last = rw (same_state_refl i.state) refl

    written_last :
        (f : Assignment)
        → update_where i.id (cas_test i.state anything) f t.invocations ≡ l ++ assign f i ∷ []
    written_last f =
        rw last (
          rw (update-append i.id (cas_test i.state anything) f l i gone same_id)
            (rw test_last refl))

    module _ (to_state : InvocationState) (reason : Reason) (actor : Option String)
        (detail : Fields) (columns : Assignment)
        (legal : is_legal_transition i.state to_state ≡ true) where
      pub transition_last_result :
          (transition i to_state reason actor detail anything columns t).0 ≡ ok tt
      transition_last_result =
          ap (λ (x : Result (Unit {0}) × Tables). x.0)
            (transition_won i to_state reason actor detail anything columns t i legal found_last
              test_last)

      pub transition_last_rows :
          (transition i to_state reason actor detail anything columns t).1.invocations
          ≡ l ++ assign (cas_set to_state columns) i ∷ []
      unfolding append_event
      transition_last_rows =
          ap (λ (x : Result (Unit {0}) × Tables). x.1.invocations)
            (transition_won i to_state reason actor detail anything columns t i legal found_last
              test_last)
          ∙ written_last (cas_set to_state columns)

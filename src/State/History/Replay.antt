-- ===== src/State/History/Replay.antt =====
-- Replaying the events of an invocation: every recorded move is legal and starts where the one
-- before it ended, and the last of them ends in the state of the row.
use cyberwithsteve_acop.Base.{
  ℕ, ◌≤◌, ◌≡◌, refl, sym, ap, subst, ◌∙◌, String, Bool, true, false, ◌&&◌, Option, none, some, List,
  [], ◌∷◌, ◌++◌, arith, ◌==◌, if◌then◌else◌, ==_iff, Bool-cases, inl, inr,
}
use cyberwithsteve_acop.Json.{Fields}
use cyberwithsteve_acop.Vocabulary.States.{
  InvocationState, requested, same_state, is_legal_transition,
}
use cyberwithsteve_acop.Vocabulary.States.Machine.{same_state_iff, same_state_refl}
use cyberwithsteve_acop.Vocabulary.Reasons.{Reason}
use cyberwithsteve_acop.Store.{ToolInvocationEvent, ToolInvocation, Tables, get_invocation}
use cyberwithsteve_acop.Store.{InvocationColumns, Assignment, assign, update_where}
use cyberwithsteve_acop.Store.Rows.{get-update, get-update_ne, update_gone}
use cyberwithsteve_acop.State.{append_event}

-- Where the events read so far have brought an invocation.
pub data Track : Type 0 where
  unborn : Track
  at : InvocationState → Track
  broken : Track

abbrev pub follow : Track → Option InvocationState → InvocationState → Track
follow unborn none to = if same_state to requested then at requested else broken
follow unborn (some from) to = broken
follow (at s) none to = broken
follow (at s) (some from) to =
    if same_state from to
    then at s
    else if same_state from s && is_legal_transition from to
    then at to
    else broken
follow broken from to = broken

abbrev pub follow_event : ℕ → Track → ToolInvocationEvent → Track
follow_event id k e = if e.invocation_id == id then follow k e.from_state e.to_state else k

unfoldable pub replay_from : Track → ℕ → List ToolInvocationEvent → Track
replay_from k id [] = k
replay_from k id (e ∷ l) = replay_from (follow_event id k e) id l

abbrev pub replay : ℕ → List ToolInvocationEvent → Track
replay id l = replay_from unborn id l

replay_from-append :
    (k : Track) (id : ℕ) (l : List ToolInvocationEvent) (e : ToolInvocationEvent)
    → replay_from k id (l ++ e ∷ []) ≡ follow_event id (replay_from k id l) e
unfolding replay_from
replay_from-append k id [] e = refl
replay_from-append k id (x ∷ l) e = replay_from-append (follow_event id k x) id l e

-- The move of an appended event, seen by each invocation.
pub replay-append_event :
    (t : Tables) (invocation_id : ℕ) (from : Option InvocationState) (to : InvocationState)
    (r : Reason) (actor : Option String) (d : Fields) (id : ℕ)
    → replay id (append_event invocation_id from to r actor d t).1.events
      ≡ (if invocation_id == id then follow (replay id t.events) from to else replay id t.events)
unfolding append_event
replay-append_event t invocation_id from to r actor d id = replay_from-append unborn id t.events _

-- The invocation's history agrees with its row; an id not yet given out has neither.
pub record HasHistory (t : Tables) : Type 0 where
  pub agrees :
      (id : ℕ) (i : ToolInvocation)
      → get_invocation id t.invocations ≡ some i
      → replay id t.events ≡ at i.state
  pub fresh :
      (id : ℕ)
      → t.next_id ≤ id
      → (get_invocation id t.invocations ≡ none) × (replay id t.events ≡ unborn)

-- Tables with the same rows, events and ids given out.
pub same-HasHistory :
    (t u : Tables)
    → u.invocations ≡ t.invocations
    → u.events ≡ t.events
    → u.next_id ≡ t.next_id
    → HasHistory t
    → HasHistory u
same-HasHistory t u rows events ids h = record {
  agrees = λ id i found. rw events (h.agrees id i (rw rows at found));
  fresh = λ id big. rw (rows, events) (h.fresh id (rw ids at big));
}

follow_noop : (c s : InvocationState) → follow (at c) (some s) s ≡ at c
follow_noop c s = rw (same_state_refl s)

follow_move :
    (s to : InvocationState) → is_legal_transition s to ≡ true → follow (at s) (some s) to ≡ at to
follow_move s to legal = elim (Bool-cases (same_state s to)) [
  | inl same ↦ rw same (ap at ((same_state_iff s to).0 same))
  | inr moves ↦ rw (moves) (rw (same_state_refl s) (rw legal))
]

if_same {ℓ} : {A : Type ℓ} (b : Bool) (x : A) → (if b then x else x) ≡ x
if_same true x = refl
if_same false x = refl

abbrev state_or : InvocationState → Option ToolInvocation → InvocationState
state_or s none = s
state_or s (some i) = i.state

-- What the primitive writes do to the history.
module _ (t : Tables) (h : HasHistory t) (id : ℕ) (i : ToolInvocation)
    (found : get_invocation id t.invocations ≡ some i) where
  id_given_out : ¬ (t.next_id ≤ id)
  id_given_out big = cc (found, (h.fresh id big).0)

  below_next : (j : ℕ) → t.next_id ≤ j → (id == j) ≡ false
  below_next j big = elim (Bool-cases (id == j)) [
    | inl same ↦ absurd (id_given_out (rw ((==_iff id j).0 same) big))
    | inr other ↦ other
  ]

  found_at : (j : ℕ) → (id == j) ≡ true → get_invocation j t.invocations ≡ some i
  found_at j same =
      subst (λ k. get_invocation k t.invocations ≡ some i) ((==_iff id j).0 same) found

  read_back :
      (p : ToolInvocation → Bool) (f : Assignment) (j : ℕ) (x : ToolInvocation)
      → (id == j) ≡ true
      → get_invocation j (update_where id p f t.invocations) ≡ some x
      → x.state ≡ (if p i then assign f i else i).state
  read_back p f j x same e =
      let now : some x ≡ some (if p i then assign f i else i) =
        sym e ∙ rw get-update (rw same (rw (found_at j same))) in
      ap (state_or requested) now

  -- An event that moves nothing may say what it will of the state.
  pub noop-HasHistory :
      (s : InvocationState) (r : Reason) (actor : Option String) (d : Fields)
      → HasHistory (append_event id (some s) s r actor d t).1
  noop-HasHistory s r actor d = record {
    agrees = λ j x e. rw replay-append_event (
        rw (h.agrees j x (unfold append_event in e))
          (rw (follow_noop x.state s) (if_same (id == j) (at x.state))));
    fresh = λ j big.
        unfold append_event in
        let given : t.next_id ≤ j = omega arith in
        ((h.fresh j given).0, rw replay-append_event (rw (below_next j given) (h.fresh j given).1));
  }

  -- Columns other than the state leave the history as it is.
  pub columns-HasHistory :
      (p : ToolInvocation → Bool) (f : Assignment)
      → ((c : InvocationColumns) → (f c).state ≡ c.state)
      → HasHistory (record t { invocations = update_where id p f t.invocations })
  columns-HasHistory p f keeps = record {
    agrees = λ j x e. elim (Bool-cases (id == j)) [
      | inl same ↦
          h.agrees j i (found_at j same) ∙ ap at (sym (read_back p f j x same e ∙ kept (p i)))
      | inr other ↦ h.agrees j x (sym (get-update_ne id j p f t.invocations other) ∙ e)
    ];
    fresh = λ j big. (
      rw (get-update_ne id j p f t.invocations (below_next j big)) (h.fresh j big).0,
      (h.fresh j big).1,
    );
  }
    where
      kept : (b : Bool) → (if b then assign f i else i).state ≡ i.state
      kept true = keeps i.columns
      kept false = refl

  -- A legal move from the row's state, recorded by its event.
  pub move-HasHistory :
      (p : ToolInvocation → Bool) (f : Assignment) (to : InvocationState) (r : Reason)
      (actor : Option String) (d : Fields)
      → p i ≡ true
      → is_legal_transition i.state to ≡ true
      → (f i.columns).state ≡ to
      → HasHistory
          (append_event id
            (some i.state)
            to
            r
            actor
            d
            (record t { invocations = update_where id p f t.invocations })).1
  move-HasHistory p f to r actor d passed legal lands = record {
    agrees = λ j x e. rw replay-append_event (elim (Bool-cases (id == j)) [
      | inl same ↦ rw same (
          rw (h.agrees j i (found_at j same)) (
            follow_move i.state to legal
            ∙ ap at (sym (read_back p f j x same (unfold append_event in e) ∙ rw passed lands))))
      | inr other ↦ rw other (
          h.agrees j x
            (sym (get-update_ne id j p f t.invocations other) ∙ (unfold append_event in e)))
    ]);
    fresh = λ j big.
        unfold append_event in
        let given : t.next_id ≤ j = omega arith in
        (
          rw (get-update_ne id j p f t.invocations (below_next j given)) (h.fresh j given).0,
          rw replay-append_event (rw (below_next j given) (h.fresh j given).1),
        );
  }

module _ (t : Tables) (h : HasHistory t) (id : ℕ) (p : ToolInvocation → Bool) (f : Assignment)
    (keeps : (c : InvocationColumns) → (f c).state ≡ c.state) where
  on_row :
      (o : Option ToolInvocation)
      → get_invocation id t.invocations ≡ o
      → HasHistory (record t { invocations = update_where id p f t.invocations })
  on_row (some i) found = columns-HasHistory t h id i found p f keeps
  on_row none gone = same-HasHistory t _ (update_gone id p f t.invocations gone) refl refl h

  -- The same whether or not the row is there.
  pub each-HasHistory : HasHistory (record t { invocations = update_where id p f t.invocations })
  each-HasHistory = on_row (get_invocation id t.invocations) refl

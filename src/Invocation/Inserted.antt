-- ===== src/Invocation/Inserted.antt =====
-- The rows of src/acop/services/tools/invocation.py after an INSERT: lookups and updates find the new
-- row, and the invariants of the tables hold of it.
use cyberwithsteve_acop.Base.{
  ℕ, suc, ◌≤◌, ◌≡◌, refl, sym, subst, ◌∙◌, String, Bool, true, false, Option, none, some, List, [],
  ◌∷◌, ◌++◌, ◌==◌, ==_iff, arith, if◌then◌else◌, Bool-cases, inl, inr, ◌⊎◌, ap,
}
use cyberwithsteve_acop.Json.{Fields}
use cyberwithsteve_acop.Vocabulary.States.{requested}
use cyberwithsteve_acop.Vocabulary.Reasons.{Reason}
use cyberwithsteve_acop.Store.{
  ToolInvocation, Tables, Assignment, assign, get_invocation, update_where,
}
use cyberwithsteve_acop.Store.Rows.{EachRow}
use cyberwithsteve_acop.State.{append_event}
use cyberwithsteve_acop.State.Leases.{IsChecked}
use cyberwithsteve_acop.State.Sound.{IsSound}
use cyberwithsteve_acop.State.History.Replay.{
  HasHistory, replay, replay-append_event, at, unborn, follow,
}

pub get-append :
    (j : ℕ) (l : List ToolInvocation) (i : ToolInvocation)
    → get_invocation j (l ++ i ∷ [])
      ≡ elim (get_invocation j l) [ none ↦ (if i.id == j then some i else none) | some x ↦ some x ]
unfolding get_invocation
get-append j [] i = refl
get-append j (x ∷ l) i = ground (arith, get-append j l i)

pub update-append :
    (id : ℕ) (p : ToolInvocation → Bool) (f : Assignment) (l : List ToolInvocation)
    (i : ToolInvocation)
    → get_invocation id l ≡ none
    → (i.id == id) ≡ true
    → update_where id p f (l ++ i ∷ []) ≡ l ++ (if p i then assign f i else i) ∷ []
unfolding get_invocation update_where
update-append id p f [] i gone same = rw same refl
update-append id p f (x ∷ l) i gone same = ground (arith, update-append id p f l i)

-- The tables with the new row and the event that it begins with.
abbrev inserted : ToolInvocation → Reason → Option String → Fields → Tables → Tables
inserted i reason actor detail t =
    (append_event i.id none requested reason actor detail
      (record t { invocations = t.invocations ++ i ∷ []; next_id = suc t.next_id })).1

unborn_starts : follow unborn none requested ≡ at requested
unborn_starts = refl

module _ (i : ToolInvocation) (reason : Reason) (actor : Option String) (detail : Fields)
    (t : Tables) (h : HasHistory t) (new_id : i.id ≡ t.next_id)
    (new_state : i.state ≡ requested) where
  no_row : get_invocation i.id t.invocations ≡ none
  no_row = rw new_id (h.fresh t.next_id (omega arith)).0

  no_events : replay i.id t.events ≡ unborn
  no_events = rw new_id (h.fresh t.next_id (omega arith)).1

  found_old :
      (j : ℕ) (x : ToolInvocation) (o : Option ToolInvocation)
      → get_invocation j t.invocations ≡ o
      → elim o [ none ↦ (if i.id == j then some i else none) | some y ↦ some y ] ≡ some x
      → (o ≡ some x) ⊎ ((i.id == j) ≡ true) × (i ≡ x)
  found_old j x none e f = inr (ground arith)
  found_old j x (some y) e f = inl f

  other_id :
      (j : ℕ) (x : ToolInvocation) → get_invocation j t.invocations ≡ some x → (i.id == j) ≡ false
  other_id j x old = elim (Bool-cases (i.id == j)) [
    | inl same ↦
        cc (subst (λ k. get_invocation k t.invocations ≡ none) ((==_iff i.id j).0 same) no_row)
    | inr other ↦ other
  ]

  agrees_at :
      (j : ℕ) (x : ToolInvocation)
      → get_invocation j (t.invocations ++ i ∷ []) ≡ some x
      → (if i.id == j then follow (replay j t.events) none requested else replay j t.events)
        ≡ at x.state
  agrees_at j x f =
      elim (found_old j x (get_invocation j t.invocations) refl
        (rw⁻¹ (get-append j t.invocations i) f)) [
          | inl old ↦ rw (other_id j x old) (h.agrees j x old)
          | inr (same, e) ↦ rw same (
              subst (λ k. follow (replay k t.events) none requested ≡ at x.state)
                ((==_iff i.id j).0 same)
                (rw no_events (ap at (sym new_state ∙ ap (λ y. y.state) e))))
        ]

  below_next : (j : ℕ) → suc t.next_id ≤ j → (i.id == j) ≡ false
  below_next j far = ground (arith, ==_iff i.id j, new_id)

  -- The new row's history is its first event, and no other history changes.
  inserted-HasHistory : HasHistory (inserted i reason actor detail t)
  unfolding append_event
  inserted-HasHistory = record {
    agrees = λ j x f.
        rw
          (replay-append_event
            (record t { invocations = t.invocations ++ i ∷ []; next_id = suc t.next_id }) i.id none
            requested reason actor detail j)
          (agrees_at j x f);
    fresh = λ j far.
        let near : suc t.next_id ≤ j = omega arith in
        let before : t.next_id ≤ j = omega arith in
        (
          rw (get-append j t.invocations i) (rw (h.fresh j before).0 (rw (below_next j near) refl)),
          rw
              (replay-append_event
                (record t { invocations = t.invocations ++ i ∷ []; next_id = suc t.next_id }) i.id
                none requested reason actor detail j)
              (rw (below_next j near) (h.fresh j before).1),
        );
  }

-- A property of every row holds of the rows with a new one, if it holds of that.
append-EachRow {ℓ} :
    (P : ToolInvocation → Type ℓ) (l : List ToolInvocation) (i : ToolInvocation)
    → EachRow P l
    → P i
    → EachRow P (l ++ i ∷ [])
append-EachRow P l i each new j x f = by_row (get_invocation j l) refl (rw⁻¹ (get-append j l i) f)
  where
    by_row :
        (o : Option ToolInvocation)
        → get_invocation j l ≡ o
        → elim o [ none ↦ (if i.id == j then some i else none) | some y ↦ some y ] ≡ some x
        → P x
    by_row (some y) e g = each j x (e ∙ g)
    by_row none e g = subst P (same_row (i.id == j) g) new
      where
        same_row : (b : Bool) → (if b then some i else none) ≡ some x → i ≡ x
        same_row true g = cc
        same_row false g = cc

pub inserted-IsSound :
    (i : ToolInvocation) (reason : Reason) (actor : Option String) (detail : Fields) (t : Tables)
    → IsSound t
    → i.id ≡ t.next_id
    → i.state ≡ requested
    → IsChecked i.columns
    → IsSound (inserted i reason actor detail t)
unfolding append_event
inserted-IsSound i reason actor detail t h new_id new_state fits = record {
  has_history = inserted-HasHistory i reason actor detail t h.has_history new_id new_state;
  all_checked = append-EachRow (λ y. IsChecked y.columns) t.invocations i h.all_checked fits;
}

-- ===== src/State/History/Numbering.antt =====
-- `next_sequence` and `append_event`: the events of an invocation are numbered 1, 2, 3, …
use cyberwithsteve_acop.Base.{
  ℕ, suc, ◌+◌, ◌≡◌, refl, ◌⊎◌, inl, String, Bool, true, ◌&&◌, Option, List, [], ◌∷◌, ◌++◌, arith,
  ◌==◌, if◌then◌else◌, ==_iff,
}
use cyberwithsteve_acop.Json.{Fields}
use cyberwithsteve_acop.Vocabulary.States.{InvocationState}
use cyberwithsteve_acop.Vocabulary.Reasons.{Reason}
use cyberwithsteve_acop.Store.{ToolInvocationEvent, Tables}
use cyberwithsteve_acop.State.{next_sequence, highest_sequence, append_event}

-- How many events an invocation has.
abbrev event_count : ℕ → List ToolInvocationEvent → ℕ
event_count id [] = 0
event_count id (e ∷ l) = (if e.invocation_id == id then 1 else 0) + event_count id l

-- The events of the invocation are numbered from `n` on, in their order.
abbrev pub numbered_from : ℕ → ℕ → List ToolInvocationEvent → Bool
numbered_from id n [] = true
numbered_from id n (e ∷ l) =
    let here = numbered_from id (suc n) l in
    let there = numbered_from id n l in
    if e.invocation_id == id then e.sequence == n && here else there

highest-count :
    (id n : ℕ) (l : List ToolInvocationEvent)
    → numbered_from id (suc n) l ≡ true
    → ((event_count id l ≡ 0) × (highest_sequence id l ≡ 0))
      ⊎ (highest_sequence id l ≡ n + event_count id l)
unfolding highest_sequence
highest-count id n [] h = inl (refl, refl)
highest-count id n (e ∷ l) h = ground (arith, highest-count id n l, highest-count id (suc n) l)

next-count :
    (id : ℕ) (l : List ToolInvocationEvent)
    → numbered_from id 1 l ≡ true
    → next_sequence id l ≡ suc (event_count id l)
unfolding next_sequence
next-count id l h = ground (arith, highest-count id 0 l)

numbered-append :
    (id n : ℕ) (l : List ToolInvocationEvent) (e : ToolInvocationEvent)
    → numbered_from id n l ≡ true
    → ((e.invocation_id == id) ≡ true → e.sequence ≡ n + event_count id l)
    → numbered_from id n (l ++ e ∷ []) ≡ true
numbered-append id n [] e h k = ground (arith, k)
numbered-append id n (x ∷ l) e h k =
    ground (arith, k, numbered-append id n l e, numbered-append id (suc n) l e)

-- Appending an event, whatever it says and of whichever invocation, keeps every invocation's events
-- numbered 1, 2, 3, … with no gap.
pub append_event_numbered :
    (t : Tables)
    → ((id : ℕ) → numbered_from id 1 t.events ≡ true)
    → (invocation_id : ℕ) (from : Option InvocationState) (to : InvocationState) (r : Reason)
      (actor : Option String) (d : Fields) (id : ℕ)
    → numbered_from id 1 (append_event invocation_id from to r actor d t).1.events ≡ true
unfolding append_event
append_event_numbered t h invocation_id from to r actor d id =
    numbered-append id 1 t.events _ (h id)
      (λ same. rw ((==_iff invocation_id id).0 same) (omega (arith, next-count id t.events (h id))))

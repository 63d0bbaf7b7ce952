-- ===== src/Reaper/Candidates.antt =====
-- Which rows the approval sweep of src/acop/services/tools/reaper.py reads.
use cyberwithsteve_acop.Base.{
  ℕ, zero, suc, ◌≡◌, refl, Bool, true, not, ◌&&◌, List, [], ◌∷◌, all, filter, arith, if◌then◌else◌,
}
use cyberwithsteve_acop.Vocabulary.States.{
  InvocationState, requested, awaiting_approval, ready, same_state, is_in_flight,
}
use cyberwithsteve_acop.Store.{ToolInvocation}
use cyberwithsteve_acop.Reaper.{insert_by, order_by, limited, approval_candidates}

abbrev pub is_idle : ToolInvocation → Bool
is_idle i = not (is_in_flight i.state)

abbrev is_pending : ToolInvocation → Bool
is_pending i =
    (if same_state i.state awaiting_approval then true else same_state i.state ready)
    && i.approval_required

pending_state :
    (s : InvocationState)
    → (if same_state s awaiting_approval then true else same_state s ready) ≡ true
    → not (is_in_flight s) ≡ true
pending_state requested h = cc
pending_state _ h = ground arith

pending_idle : (i : ToolInvocation) → is_pending i ≡ true → is_idle i ≡ true
pending_idle i h = pending_state i.state (ground arith)

pending_all : (l : List ToolInvocation) → all is_idle (filter is_pending l) ≡ true
pending_all [] = refl
pending_all (i ∷ l) = ground (arith, pending_all l, pending_idle i)

module _ (p : ToolInvocation → Bool) (key : ToolInvocation → ℕ) where
  all-insert_by :
      (i : ToolInvocation) (l : List ToolInvocation)
      → p i ≡ true
      → all p l ≡ true
      → all p (insert_by key i l) ≡ true
  all-insert_by i [] h k = ground arith
  all-insert_by i (j ∷ l) h k = ground (arith, all-insert_by i l)

  all-order_by : (l : List ToolInvocation) → all p l ≡ true → all p (order_by key l) ≡ true
  all-order_by [] h = refl
  all-order_by (i ∷ l) h =
      all-insert_by i (order_by key l) (ground arith) (all-order_by l (ground arith))

all-limited :
    (p : ToolInvocation → Bool) (n : ℕ) (l : List ToolInvocation)
    → all p l ≡ true
    → all p (limited n l) ≡ true
all-limited p zero l h = refl
all-limited p (suc n) [] h = refl
all-limited p (suc n) (i ∷ l) h = ground (arith, all-limited p n l)

-- No candidate is in flight.
pub candidates_idle :
    (limit : ℕ) (l : List ToolInvocation) → all is_idle (approval_candidates limit l) ≡ true
unfolding approval_candidates
candidates_idle limit l =
    all-limited is_idle limit (order_by (λ i. i.requested_at) (filter is_pending l))
      (all-order_by is_idle (λ i. i.requested_at) (filter is_pending l) (pending_all l))

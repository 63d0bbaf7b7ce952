-- ===== src/State/History/Claims.antt =====
-- What the events of src/acop/services/tools/state.py tell of claims and of what went before them.
use cyberwithsteve_acop.Base.{
  ℕ, ◌+◌, ◌≤◌, ◌≡◌, refl, sym, subst, inl, inr, suc, Bool, true, false, not, ◌&&◌, ◌||◌, Option,
  none, some, List, [], ◌∷◌, ◌++◌, arith, ◌==◌, if◌then◌else◌, Bool-cases,
}
use cyberwithsteve_acop.Vocabulary.States.{
  InvocationState, requested, rejected, authorized, awaiting_approval, approved, denied, ready,
  executing, executed, validating, succeeded, validation_failed, failed, timed_out,
  execution_indeterminate, cancelled, same_state, is_legal_transition,
}
use cyberwithsteve_acop.Vocabulary.States.Machine.{
  same_state_iff, past_ready, past_authorized, past_ready-authorized, authorized_guards,
  ready_guards,
}
use cyberwithsteve_acop.Store.{ToolInvocationEvent}
use cyberwithsteve_acop.State.History.Replay.{
  Track, unborn, at, broken, follow, replay_from, replay,
}

-- A recorded move into a state, from another one.
abbrev pub moves_into : InvocationState → Option InvocationState → InvocationState → Bool
moves_into s none to = same_state s to
moves_into s (some from) to = not (same_state from to) && same_state s to

-- How many events of the invocation record a move into the state.
pub entries : ℕ → InvocationState → List ToolInvocationEvent → ℕ
entries id s [] = 0
entries id s (e ∷ l) =
    let rest = entries id s l in
    if e.invocation_id == id && moves_into s e.from_state e.to_state then suc rest else rest

-- Executing, or what an execution leads to.
abbrev pub was_claimed : InvocationState → Bool
was_claimed executing = true
was_claimed executed = true
was_claimed validating = true
was_claimed succeeded = true
was_claimed validation_failed = true
was_claimed failed = true
was_claimed timed_out = true
was_claimed execution_indeterminate = true
was_claimed _ = false

-- Before an execution, or ended without one.
abbrev pub not_claimed : InvocationState → Bool
not_claimed requested = true
not_claimed rejected = true
not_claimed authorized = true
not_claimed awaiting_approval = true
not_claimed approved = true
not_claimed denied = true
not_claimed ready = true
not_claimed cancelled = true
not_claimed _ = false

unclaimed_before :
    (s to : InvocationState)
    → is_legal_transition s to ≡ true
    → not_claimed to ≡ true
    → (not_claimed s ≡ true) × (same_state executing to ≡ false)
unfolding is_legal_transition
unclaimed_before requested requested h k = ground arith
unclaimed_before _ _ h k = ground arith

claimed_before :
    (s to : InvocationState)
    → is_legal_transition s to ≡ true
    → was_claimed to ≡ true
    → (if same_state executing to then not_claimed s else was_claimed s) ≡ true
unfolding is_legal_transition
claimed_before requested requested h k = ground arith
claimed_before _ _ h k = ground arith

claim_from :
    (s to : InvocationState)
    → is_legal_transition s to ≡ true
    → same_state executing to ≡ true
    → not_claimed s ≡ true
unfolding is_legal_transition
claim_from requested requested h k = ground arith
claim_from _ _ h k = ground arith

abbrev one_more : Bool → ℕ → ℕ
one_more true n = suc n
one_more false n = n

later : (b : Bool) (m n : ℕ) → m + one_more b n ≡ (if b then suc m else m) + n
later true m n = omega arith
later false m n = refl

-- What is to be shown of a track and of how often it entered a state.
module _ (g : InvocationState) (P : Track → ℕ → Type 0)
    (born : (n : ℕ) → P unborn n → P (at requested) (one_more (same_state g requested) n))
    (move : (s to : InvocationState) (n : ℕ)
      → is_legal_transition s to ≡ true
      → P (at s) n
      → P (at to) (one_more (same_state g to) n))
    (lost : (n : ℕ) → P broken n) where
  follow-entries :
      (k : Track) (from : Option InvocationState) (to : InvocationState) (n : ℕ)
      → P k n
      → P (follow k from to) (one_more (moves_into g from to) n)
  follow-entries unborn none to n h = elim (Bool-cases (same_state to requested)) [
    | inl first ↦ rw first (
        subst (λ s. P (at requested) (one_more (same_state g s) n))
          (sym ((same_state_iff to requested).0 first)) (born n h))
    | inr other ↦ rw other (lost _)
  ]
  follow-entries unborn (some from) to n h = lost _
  follow-entries (at s) none to n h = lost _
  follow-entries broken from to n h = lost _
  follow-entries (at s) (some from) to n h =
      moved (same_state from to) (same_state from s) refl (is_legal_transition from to) refl
    where
      moved :
          (stays starts : Bool)
          → same_state from s ≡ starts
          → (legal : Bool) → is_legal_transition from to ≡ legal
          → P
              (if stays then at s else if starts && legal then at to else broken)
              (one_more (not stays && same_state g to) n)
      moved true starts e legal l = h
      moved false true e true l =
          move s to n (subst (λ x. is_legal_transition x to ≡ true) ((same_state_iff from s).0 e) l)
            h
      moved false true e false l = lost _
      moved false false e legal l = lost _

  replay-entries :
      (id : ℕ) (l : List ToolInvocationEvent) (k : Track) (n : ℕ)
      → P k n
      → P (replay_from k id l) (entries id g l + n)
  unfolding replay_from entries
  replay-entries id [] k n h = subst (P k) (omega arith) h
  replay-entries id (e ∷ l) k n h = elim (Bool-cases (e.invocation_id == id)) [
    | inl same ↦ rw same (
        subst (P _) (later (moves_into g e.from_state e.to_state) (entries id g l) n)
          (replay-entries id l _ _ (follow-entries k e.from_state e.to_state n h)))
    | inr other ↦ rw other (replay-entries id l k n h)
  ]

abbrev Claimed : Track → ℕ → Type 0
Claimed unborn n = n ≡ 0
Claimed (at s) n = (not_claimed s ≡ true → n ≡ 0) × (was_claimed s ≡ true → n ≡ 1) × (n ≤ 1)
Claimed broken n = Unit {0}

claim_moves :
    (s to : InvocationState) (n : ℕ)
    → is_legal_transition s to ≡ true
    → Claimed (at s) n
    → Claimed (at to) (one_more (same_state executing to) n)
claim_moves s to n legal h = elim (Bool-cases (same_state executing to)) [
  | inl starts ↦
      (let none_yet : n ≡ 0 = h.0 (claim_from s to legal starts) in
        rw (starts, none_yet)
          (
            (λ early. cc (starts, (unclaimed_before s to legal early).1)),
            (λ late. refl),
            ground arith,
          ))
  | inr goes_on ↦ rw goes_on (
    (λ early. h.0 (unclaimed_before s to legal early).0),
    (λ late. h.1 (rw goes_on at (claimed_before s to legal late))),
    h.2,
  )
]

-- The claims on record of an invocation whose events replay to a state.
pub replay-claims :
    (id : ℕ) (l : List ToolInvocationEvent) (s : InvocationState)
    → replay id l ≡ at s
    → Claimed (at s) (entries id executing l)
replay-claims id l s h =
    subst (λ k. Claimed k (entries id executing l)) h
      (subst (Claimed _) (omega arith) (
        replay-entries executing Claimed
          (λ n none_yet. rw none_yet ((λ early. refl), (λ late. cc), ground arith)) claim_moves
          (λ n. tt) id l unborn 0 refl))

-- A state that is entered before any of some others is.
module _ (gate : InvocationState) (past : InvocationState → Bool)
    (guarded : (u t : InvocationState)
      → is_legal_transition u t ≡ true
      → past t ≡ true
      → (same_state gate t || past u) ≡ true)
    (start : past requested ≡ false) where
  abbrev Entered : Track → ℕ → Type 0
  Entered (at s) n = past s ≡ true → 1 ≤ n
  Entered _ n = Unit {0}

  enters :
      (s to : InvocationState) (n : ℕ)
      → is_legal_transition s to ≡ true
      → Entered (at s) n
      → Entered (at to) (one_more (same_state gate to) n)
  enters s to n legal h p = elim (Bool-cases (same_state gate to)) [
    | inl now ↦ rw now (omega arith)
    | inr other ↦ rw other (h (rw other at (guarded s to legal p)))
  ]

  replay-entered :
      (id : ℕ) (l : List ToolInvocationEvent) (s : InvocationState)
      → replay id l ≡ at s
      → past s ≡ true
      → 1 ≤ entries id gate l
  replay-entered id l s h =
      subst (λ k. Entered k (entries id gate l)) h
        (subst (Entered _) (omega arith)
          (replay-entries gate Entered (λ n e p. cc) enters (λ n. tt) id l unborn 0 tt))

-- An invocation that is ready, executing or executed was moved into `authorized` and into `ready`.
pub replay-gates :
    (id : ℕ) (l : List ToolInvocationEvent) (s : InvocationState)
    → replay id l ≡ at s
    → past_ready s ≡ true
    → (1 ≤ entries id authorized l) × (1 ≤ entries id ready l)
replay-gates id l s h p = (
  replay-entered authorized past_authorized authorized_guards refl id l s h
      (past_ready-authorized s p),
  replay-entered ready past_ready ready_guards refl id l s h p,
)

swapped :
    (a b : Bool) (n : ℕ)
    → (if a then suc (one_more b n) else one_more b n) ≡ one_more b (if a then suc n else n)
swapped true true n = refl
swapped true false n = refl
swapped false b n = refl

first_one : (b : Bool) → (if b then suc 0 else 0) ≡ one_more b 0
first_one true = refl
first_one false = refl

-- An event more, at the end.
pub entries-append :
    (id : ℕ) (s : InvocationState) (l : List ToolInvocationEvent) (e : ToolInvocationEvent)
    → entries id s (l ++ e ∷ [])
      ≡ one_more (e.invocation_id == id && moves_into s e.from_state e.to_state) (entries id s l)
unfolding entries
entries-append id s [] e = first_one (e.invocation_id == id && moves_into s e.from_state e.to_state)
entries-append id s (x ∷ l) e = rw (entries-append id s l e) (swapped _ _ (entries id s l))

-- ===== src/Registry/Reconcile/Outcome.antt =====
-- How reconciliation of src/acop/tools/registry.py ends.
use cyberwithsteve_acop.Base.{
  ℕ, ◌≡◌, refl, sym, ap, subst, ◌∙◌, Bool, true, false, ◌||◌, Option, none, some, List, [], ◌∷◌,
  ◌++◌, map, all, any, arith, Bool-cases, inl, inr,
}
use cyberwithsteve_acop.Contract.{ToolDefinition}
use cyberwithsteve_acop.Store.{ToolRegistration}
use cyberwithsteve_acop.Registry.Reconcile.{
  all_definitions, Loop, settle_all, is_retired, retire, registration_fits, reconciled, flushed,
  finished, reconcile, declares,
}
use cyberwithsteve_acop.Registry.Reconcile.Current.{
  is_current, is_stranded, any-all_definitions, all-append, settle_all-Settles, settle_all-Strands,
}

same_rows : (a b : List ToolRegistration) → reconciled a ≡ reconciled b → a ≡ b
same_rows a b e = cc

flushed-rows :
    (rows after : List ToolRegistration)
    → flushed rows ≡ reconciled after
    → (all registration_fits rows ≡ true) × (rows ≡ after)
unfolding flushed
flushed-rows rows after e = elim (Bool-cases (all registration_fits rows)) [
  | inl fit ↦ (fit, same_rows rows after (rw fit at e))
  | inr violated ↦ cc (rw violated at e)
]

retired_all :
    (D : List ToolDefinition) (now : ℕ) (l : List ToolRegistration)
    → all (is_current D) (map (retire now) l) ≡ true
unfolding retire
retired_all D now [] = refl
retired_all D now (r ∷ l) = ground (arith, retired_all D now l)

stranded_violates :
    (D : List ToolDefinition) (now : ℕ) (l : List ToolRegistration)
    → any (is_stranded D) l ≡ true
    → all registration_fits (map (retire now) l) ≡ false
unfolding retire registration_fits
stranded_violates D now [] h = cc
stranded_violates D now (r ∷ l) h = elim (Bool-cases (is_stranded D r)) [
  | inr other ↦ ground (arith, stranded_violates D now l)
  | inl stranded ↦ ground arith
]

in_any_order :
    (registry : List ToolDefinition) (r : ToolRegistration)
    → is_current (all_definitions registry) r ≡ is_current registry r
in_any_order registry r =
    ap (λ b. b || is_retired r.lifecycle_state) (any-all_definitions _ registry)

all_in_any_order :
    (registry : List ToolDefinition) (l : List ToolRegistration)
    → all (is_current (all_definitions registry)) l ≡ all (is_current registry) l
all_in_any_order registry [] = refl
all_in_any_order registry (r ∷ l) =
    rw (in_any_order registry r) (rw (all_in_any_order registry l) refl)

stranded_in_any_order :
    (registry : List ToolDefinition) (l : List ToolRegistration)
    → any (is_stranded (all_definitions registry)) l ≡ any (is_stranded registry) l
stranded_in_any_order registry [] = refl
stranded_in_any_order registry (r ∷ l) =
    rw (any-all_definitions (λ d. declares d r) registry)
      (rw (stranded_in_any_order registry l) refl)

module _ (registry : List ToolDefinition) (allow_rehash : Bool) (next_id now : ℕ)
    (rows after : List ToolRegistration) where
  abbrev first : Loop
  first = record { settled = []; by_key = rows; next_id = next_id }

  finished_current :
      (o : Option Loop)
      → settle_all allow_rehash (all_definitions registry) first ≡ o
      → finished now o ≡ reconciled after
      → (all (is_current registry) after ≡ true) × (all registration_fits after ≡ true)
  unfolding finished
  finished_current none e f = cc
  finished_current (some st) e f =
      let (fit, same) = flushed-rows (st.settled ++ map (retire now) st.by_key) after f in
      let settled =
        settle_all-Settles (all_definitions registry) allow_rehash (all_definitions registry) first
          st (λ p h. h) refl e in
      let current : all (is_current (all_definitions registry))
            (st.settled ++ map (retire now) st.by_key)
          ≡ true =
        rw all-append (rw settled (retired_all (all_definitions registry) now st.by_key)) in
      (
        sym (all_in_any_order registry after)
            ∙ subst (λ l. all (is_current (all_definitions registry)) l ≡ true) same current,
        subst (λ l. all registration_fits l ≡ true) same fit,
      )

  -- When reconciliation ends well, every row of the table has the contract hash of its declaration or is
  -- retired, and every row satisfies the constraints of the table.
  pub reconcile_current :
      reconcile registry allow_rehash next_id now rows ≡ reconciled after
      → (all (is_current registry) after ≡ true) × (all registration_fits after ≡ true)
  unfolding reconcile
  reconcile_current h =
      finished_current (settle_all allow_rehash (all_definitions registry) first) refl h

  finished_stranded :
      (o : Option Loop)
      → settle_all allow_rehash (all_definitions registry) first ≡ o
      → any (is_stranded registry) rows ≡ true
      → ¬ (finished now o ≡ reconciled after)
  unfolding finished
  finished_stranded none e h f = cc
  finished_stranded (some st) e h f =
      let (fit, same) = flushed-rows (st.settled ++ map (retire now) st.by_key) after f in
      let left =
        settle_all-Strands (all_definitions registry) allow_rehash (all_definitions registry) first
          st (λ p k. k) (stranded_in_any_order registry rows ∙ h) e in
      let violated = stranded_violates (all_definitions registry) now st.by_key left in
      let both = all-append registration_fits st.settled (map (retire now) st.by_key) in
      ground (arith, violated, both, fit)

  -- Where a disabled tool is no longer declared, reconciliation does not end well, whatever else the
  -- registry and the table hold: retiring the row violates a constraint of the table.
  pub stranded-reconcile :
      any (is_stranded registry) rows ≡ true
      → ¬ (reconcile registry allow_rehash next_id now rows ≡ reconciled after)
  unfolding reconcile
  stranded-reconcile h =
      finished_stranded (settle_all allow_rehash (all_definitions registry) first) refl h

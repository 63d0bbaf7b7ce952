-- ===== src/Registry/Reconcile/Current.antt =====
-- What reconciliation of src/acop/tools/registry.py leaves in the table, and when it cannot end well.
use cyberwithsteve_acop.Base.{
  find-passes, subst, ◌≡◌, refl, ap, ◌∙◌, String, Bool, true, not, ◌&&◌, ◌||◌, Option, none, some,
  List, [], ◌∷◌, ◌++◌, find, filter, all, any, is_some, str_eq, eq_iff, arith, Bool-cases, inl, inr,
}
use cyberwithsteve_acop.Contract.{ToolDefinition}
use cyberwithsteve_acop.Store.{ToolRegistration}
use cyberwithsteve_acop.Registry.Reconcile.{
  declares, insert_definition, all_definitions, Loop, new_registration, settle_row, with_settled,
  on_row, then_rest, settle_all, is_retired, is_disabled,
}

-- A row of a declaration, with the declaration's hash.
abbrev matches : ToolRegistration → ToolDefinition → Bool
matches row d = declares d row && str_eq row.contract_hash d.contract_hash

-- A row that agrees with the code, or is retired.
abbrev pub is_current : List ToolDefinition → ToolRegistration → Bool
is_current registry row = any (matches row) registry || is_retired row.lifecycle_state

-- A disabled row that no code declares any more.
abbrev pub is_stranded : List ToolDefinition → ToolRegistration → Bool
is_stranded registry row =
    is_disabled row.lifecycle_state
    && is_some row.disabled_at
    && not (any (λ d. declares d row) registry)

any-insert :
    (p : ToolDefinition → Bool) (d : ToolDefinition) (l : List ToolDefinition)
    → any p (insert_definition d l) ≡ (p d || any p l)
unfolding insert_definition
any-insert p d [] = refl
any-insert p d (e ∷ l) = ground (arith, any-insert p d l)

pub any-all_definitions :
    (p : ToolDefinition → Bool) (l : List ToolDefinition) → any p (all_definitions l) ≡ any p l
unfolding all_definitions
any-all_definitions p [] = refl
any-all_definitions p (d ∷ l) =
    any-insert p d (all_definitions l) ∙ ap (λ b. p d || b) (any-all_definitions p l)

same_text : (s : String) → str_eq s s ≡ true
same_text s = (eq_iff s s).1 refl

pub all-append :
    (p : ToolRegistration → Bool) (l m : List ToolRegistration)
    → all p (l ++ m) ≡ (all p l && all p m)
all-append p [] m = refl
all-append p (r ∷ l) m = ground (arith, all-append p l m)

then_rest-some :
    (o : Option Loop) (f : Loop → Option Loop) (st : Loop)
    → then_rest o f ≡ some st
    → (mid : Loop) × (o ≡ some mid) × (f mid ≡ some st)
then_rest-some none f st h = cc
then_rest-some (some mid) f st h = (mid, refl, h)

-- What one turn keeps of the state.
module _ (D : List ToolDefinition) where
  abbrev Settles : Loop → Type 0
  Settles st = all (is_current D) st.settled ≡ true

  abbrev Strands : Loop → Type 0
  Strands st = any (is_stranded D) st.by_key ≡ true

  add-Settles :
      (st : Loop) (row : ToolRegistration)
      → Settles st
      → is_current D row ≡ true
      → all (is_current D) (st.settled ++ row ∷ []) ≡ true
  add-Settles st row h k = rw all-append (rw h (rw k refl))

  -- The declarations of the loop are those of the registry.
  abbrev Within : List ToolDefinition → Type 0
  Within l = (p : ToolDefinition → Bool) → any p l ≡ true → any p D ≡ true

  same_loop : (a b : Loop) → some a ≡ some b → a ≡ b
  same_loop a b e = cc

  matched_row :
      (allow_rehash : Bool) (d : ToolDefinition) (row r : ToolRegistration)
      → declares d row ≡ true
      → settle_row allow_rehash d row ≡ some r
      → matches r d ≡ true
  unfolding settle_row
  matched_row allow_rehash d row r declared e =
      elim (Bool-cases (str_eq row.contract_hash d.contract_hash)) [
        | inl equal ↦
            (let same : some row ≡ some r = ground arith in
              subst
                (λ (o : Option ToolRegistration).
                  elim o [ none ↦ true | some x ↦ matches x d ] ≡ true)
                same (rw declared (rw equal refl)))
        | inr changed ↦ elim (Bool-cases allow_rehash) [
          | inl allowed ↦
              (let same : some (record row { contract_hash = d.contract_hash }) ≡ some r =
                  ground arith in
                subst
                  (λ (o : Option ToolRegistration).
                    elim o [ none ↦ true | some x ↦ matches x d ] ≡ true)
                  same (rw declared (rw (same_text d.contract_hash) refl)))
          | inr refused ↦ cc (rw changed at e)
        ]
      ]

  first_any :
      (p : ToolDefinition → Bool) (d : ToolDefinition) (l : List ToolDefinition)
      → p d ≡ true
      → any p (d ∷ l) ≡ true
  first_any p d l h = rw h refl

  matched-current :
      (d : ToolDefinition) (l : List ToolDefinition) (r : ToolRegistration)
      → Within (d ∷ l)
      → matches r d ≡ true
      → is_current D r ≡ true
  matched-current d l r within h = rw (within (matches r) (first_any (matches r) d l h)) refl

  with-Settles :
      (d : ToolDefinition) (l : List ToolDefinition) (o : Option ToolRegistration) (st mid : Loop)
      → Within (d ∷ l)
      → ((r : ToolRegistration) → o ≡ some r → matches r d ≡ true)
      → Settles st
      → with_settled o st ≡ some mid
      → Settles mid
  with-Settles d l none st mid within matched h e = cc
  with-Settles d l (some r) st mid within matched h e =
      subst Settles (same_loop _ mid e)
        (add-Settles st r h (matched-current d l r within (matched r refl)))

  turn-Settles :
      (allow_rehash : Bool) (d : ToolDefinition) (l : List ToolDefinition)
      (o : Option ToolRegistration) (st mid : Loop)
      → Within (d ∷ l)
      → find (declares d) st.by_key ≡ o
      → Settles st
      → on_row allow_rehash d o st ≡ some mid
      → Settles mid
  unfolding on_row
  turn-Settles allow_rehash d l none st mid within found h e = subst Settles (same_loop _ mid e) (
      add-Settles st (new_registration st.next_id d) h (
        matched-current d l (new_registration st.next_id d) within
          (rw (same_text d.tool_name) (rw (same_text d.tool_version) (same_text d.contract_hash)))))
  turn-Settles allow_rehash d l (some row) st mid within found h e =
      with-Settles d l (settle_row allow_rehash d row) _ mid within
        (λ r shape.
          matched_row allow_rehash d row r (find-passes (declares d) st.by_key row found) shape)
        h e

  pub settle_all-Settles :
      (allow_rehash : Bool) (l : List ToolDefinition) (st end : Loop)
      → Within l
      → Settles st
      → settle_all allow_rehash l st ≡ some end
      → Settles end
  unfolding settle_all
  settle_all-Settles allow_rehash [] st end within h e = subst Settles (same_loop st end e) h
  settle_all-Settles allow_rehash (d ∷ l) st end within h e =
      let (mid, turn, rest) =
        then_rest-some (on_row allow_rehash d (find (declares d) st.by_key) st)
          (settle_all allow_rehash l) end e in
      settle_all-Settles allow_rehash l mid end (λ p k. within p (ground arith))
        (turn-Settles allow_rehash d l (find (declares d) st.by_key) st mid within refl h turn) rest

  -- A stranded row is never popped.
  kept_stranded :
      (d : ToolDefinition) (rows : List ToolRegistration)
      → ((p : ToolDefinition → Bool) → p d ≡ true → any p D ≡ true)
      → any (is_stranded D) rows ≡ true
      → any (is_stranded D) (filter (λ r. not (declares d r)) rows) ≡ true
  kept_stranded d [] within h = h
  kept_stranded d (r ∷ rows) within h = elim (Bool-cases (declares d r)) [
    | inl popped ↦
        (let declared = within (λ x. declares x r) popped in
          rw popped (kept_stranded d rows within (ground arith)))
    | inr kept ↦ rw kept (ground (arith, kept_stranded d rows within))
  ]

  with-Strands :
      (o : Option ToolRegistration) (st mid : Loop)
      → Strands st
      → with_settled o st ≡ some mid
      → Strands mid
  with-Strands none st mid h e = cc
  with-Strands (some r) st mid h e = subst Strands (same_loop _ mid e) h

  turn-Strands :
      (allow_rehash : Bool) (d : ToolDefinition) (l : List ToolDefinition)
      (o : Option ToolRegistration) (st mid : Loop)
      → Within (d ∷ l)
      → Strands st
      → on_row allow_rehash d o st ≡ some mid
      → Strands mid
  unfolding on_row
  turn-Strands allow_rehash d l none st mid within h e = subst Strands (same_loop _ mid e) h
  turn-Strands allow_rehash d l (some row) st mid within h e =
      with-Strands (settle_row allow_rehash d row) _ mid
        (kept_stranded d st.by_key (λ p k. within p (first_any p d l k)) h) e

  pub settle_all-Strands :
      (allow_rehash : Bool) (l : List ToolDefinition) (st end : Loop)
      → Within l
      → Strands st
      → settle_all allow_rehash l st ≡ some end
      → Strands end
  unfolding settle_all
  settle_all-Strands allow_rehash [] st end within h e = subst Strands (same_loop st end e) h
  settle_all-Strands allow_rehash (d ∷ l) st end within h e =
      let (mid, turn, rest) =
        then_rest-some (on_row allow_rehash d (find (declares d) st.by_key) st)
          (settle_all allow_rehash l) end e in
      settle_all-Strands allow_rehash l mid end (λ p k. within p (ground arith))
        (turn-Strands allow_rehash d l (find (declares d) st.by_key) st mid within h turn) rest

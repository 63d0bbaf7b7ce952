-- ===== src/Store/Rows.antt =====
-- Reading a row of src/acop/models/tool.py back after an UPDATE.
use cyberwithsteve_acop.Base.{
  ℕ, ◌≡◌, refl, Bool, true, false, Option, none, some, List, [], ◌∷◌, arith, ◌==◌, if◌then◌else◌,
  find-passes, ==_iff, sym, subst, ◌∙◌, inl, inr, Bool-cases,
}
use cyberwithsteve_acop.Store.{ToolInvocation, Assignment, assign, get_invocation, update_where}

abbrev written :
    (ToolInvocation → Bool) → Assignment → Option ToolInvocation → Option ToolInvocation
written p f none = none
written p f (some i) = some (if p i then assign f i else i)

-- The row with the id is written where it passes the test, and no other row is touched.
pub get-update :
    (id j : ℕ) (p : ToolInvocation → Bool) (f : Assignment) (l : List ToolInvocation)
    → get_invocation j (update_where id p f l)
      ≡ (if id == j then written p f (get_invocation j l) else get_invocation j l)
unfolding get_invocation update_where
get-update id j p f [] = ground arith
get-update id j p f (i ∷ l) = ground (arith, get-update id j p f l)

pub get-id :
    (id : ℕ) (l : List ToolInvocation) (i : ToolInvocation)
    → get_invocation id l ≡ some i
    → i.id ≡ id
unfolding get_invocation
get-id id l i h = (==_iff i.id id).0 (find-passes (λ x. x.id == id) l i h)

-- A row is found under its own id.
pub found_self :
    (id : ℕ) (l : List ToolInvocation) (i : ToolInvocation)
    → get_invocation id l ≡ some i
    → get_invocation i.id l ≡ some i
found_self id l i h = subst (λ n. get_invocation n l ≡ some i) (sym (get-id id l i h)) h

same_id : (n : ℕ) → (n == n) ≡ true
same_id n = (==_iff n n).1 refl

pub get-update_self :
    (id : ℕ) (p : ToolInvocation → Bool) (f : Assignment) (l : List ToolInvocation)
    (i : ToolInvocation)
    → get_invocation id l ≡ some i
    → p i ≡ true
    → get_invocation id (update_where id p f l) ≡ some (assign f i)
get-update_self id p f l i found passed = rw get-update (rw (same_id id) (rw found (rw passed)))

pub get-update_ne :
    (id j : ℕ) (p : ToolInvocation → Bool) (f : Assignment) (l : List ToolInvocation)
    → (id == j) ≡ false
    → get_invocation j (update_where id p f l) ≡ get_invocation j l
get-update_ne id j p f l h = rw get-update (rw h)

-- An UPDATE of a row that is not there changes nothing.
pub update_gone :
    (id : ℕ) (p : ToolInvocation → Bool) (f : Assignment) (l : List ToolInvocation)
    → get_invocation id l ≡ none
    → update_where id p f l ≡ l
unfolding get_invocation update_where
update_gone id p f [] h = refl
update_gone id p f (i ∷ l) h = ground (arith, update_gone id p f l)

same_value : (a b : ToolInvocation) → some a ≡ some b → a ≡ b
same_value a b e = cc

-- A property of every row.
abbrev pub EachRow {ℓ} : (ToolInvocation → Type ℓ) → List ToolInvocation → Type ℓ
EachRow P l = (id : ℕ) (i : ToolInvocation) → get_invocation id l ≡ some i → P i

module _ {ℓ} (P : ToolInvocation → Type ℓ) (id : ℕ) (p : ToolInvocation → Bool) (f : Assignment)
    (l : List ToolInvocation) (i : ToolInvocation) (found : get_invocation id l ≡ some i)
    (each : EachRow P l) (new : p i ≡ true → P (assign f i)) where
  either : (b : Bool) → p i ≡ b → P (if b then assign f i else i)
  either true e = new e
  either false e = each id i found

  -- One UPDATE keeps a property of every row, if the new values have it.
  pub update-EachRow : EachRow P (update_where id p f l)
  update-EachRow j x e = elim (Bool-cases (id == j)) [
    | inl same ↦
        let there : get_invocation j l ≡ some i =
          subst (λ k. get_invocation k l ≡ some i) ((==_iff id j).0 same) found in
        let now : some (if p i then assign f i else i) ≡ some x =
          sym (rw get-update (rw same (rw there))) ∙ e in
        subst P (same_value _ x now) (either (p i) refl)
    | inr other ↦ each j x (sym (get-update_ne id j p f l other) ∙ e)
  ]

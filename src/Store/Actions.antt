-- ===== src/Store/Actions.antt =====
-- Laws of the actions on the tables: what sequencing and a transaction do to result and state.
use cyberwithsteve_acop.Base.{
  sym, subst, ℕ, Option, none, some, ◌≡◌, refl, ap, Bool, true, false, if◌then◌else◌,
}
use cyberwithsteve_acop.Store.{
  required, get_invocation, ToolInvocation, refresh, Tables, Result, ok, err, Exec, ◌>>=◌, settle,
  transaction, continue,
}

module _ {A : Type 0} where
  settle-result :
      (before : Tables) (r : Result A) (after : Tables) → (settle before (r, after)).0 ≡ r
  settle-result before (ok a) after = refl
  settle-result before (err e) after = refl

  -- A transaction returns what its block returns.
  pub transaction-result : (m : Exec A) (t : Tables) → (transaction m t).0 ≡ (m t).0
  unfolding transaction
  transaction-result m t = settle-result t (m t).0 (m t).1

  -- One that returns keeps all that was written.
  pub transaction_ok :
      (m : Exec A) (t : Tables) (a : A) → (m t).0 ≡ ok a → transaction m t ≡ (ok a, (m t).1)
  unfolding transaction
  transaction_ok m t a e = ap (λ (r : Result A). settle t (r, (m t).1)) e

  -- A settled result keeps what both of its tables have.
  pub settle-keeps {ℓ} :
      (P : Tables → Type ℓ) (before : Tables) (x : Result A × Tables)
      → P x.1
      → P (record before { denials = x.1.denials; adapter_calls = x.1.adapter_calls })
      → P (settle before x).1
  settle-keeps P before (ok a, u) kept back = kept
  settle-keeps P before (err e, u) kept back = back

  -- It keeps a predicate that the block keeps and that reads only what a rollback restores.
  pub transaction-keeps {ℓ} :
      (P : Tables → Type ℓ) (m : Exec A) (t : Tables)
      → P (m t).1
      → (P (record t { denials = (m t).1.denials; adapter_calls = (m t).1.adapter_calls }))
      → P (transaction m t).1
  unfolding transaction
  transaction-keeps P m t kept back = settle-keeps P t (m t) kept back

module _ {A B : Type 0} where
  -- What a bind that returned has done.
  pub bind_ok :
      (m : Exec A) (f : A → Exec B) (t : Tables) (b : B)
      → ((m >>= f) t).0 ≡ ok b
      → (a : A) × (u : Tables) × (m t ≡ (ok a, u)) × ((f a u).0 ≡ ok b) × ((m >>= f) t ≡ f a u)
  bind_ok m f t b h = by_result (m t).0 (m t).1 refl h
    where
      by_result :
          (r : Result A) (u : Tables)
          → m t ≡ (r, u)
          → (continue r f u).0 ≡ ok b
          → (a : A) × (v : Tables) × (m t ≡ (ok a, v)) × ((f a v).0 ≡ ok b) × ((m >>= f) t ≡ f a v)
      by_result (ok a) u e h = (a, u, e, h, ap (λ (x : Result A × Tables). continue x.0 f x.1) e)
      by_result (err x) u e h = cc

  -- A bind has what its parts lead to: the second is told what the first returned.
  pub bind-after {ℓ} :
      (P : Tables → Type ℓ) (m : Exec A) (f : A → Exec B) (t : Tables)
      → P (m t).1
      → ((a : A) → (m t).0 ≡ ok a → P (f a (m t).1).1)
      → P ((m >>= f) t).1
  bind-after P m f t first rest = by_result (m t).0 first (λ a e. rest a e)
    where
      by_result :
          (r : Result A)
          → P (m t).1
          → ((a : A) → r ≡ ok a → P (f a (m t).1).1)
          → P (continue r f (m t).1).1
      by_result (ok a) h k = k a refl
      by_result (err e) h k = h

  -- A bind keeps what both parts keep.
  pub bind-keeps {ℓ} :
      (P : Tables → Type ℓ) (m : Exec A) (f : A → Exec B) (t : Tables)
      → P (m t).1
      → ((a : A) (u : Tables) → P u → P (f a u).1)
      → P ((m >>= f) t).1
  bind-keeps P m f t first rest = by_result (m t).0 (m t).1 first
    where
      by_result : (r : Result A) (u : Tables) → P u → P (continue r f u).1
      by_result (ok a) u h = rest a u h
      by_result (err e) u h = h

-- Either branch of a test.
pub if-keeps {ℓ} :
    {A : Type 0} (P : Tables → Type ℓ) (b : Bool) (x y : Result A × Tables)
    → P x.1
    → P y.1
    → P (if b then x else y).1
if-keeps P true x y hx hy = hx
if-keeps P false x y hx hy = hy

required-tables : (o : Option ToolInvocation) (t : Tables) → (required o t).1 ≡ t
required-tables none t = refl
required-tables (some i) t = refl

-- A refresh reads.
pub refresh-tables : (id : ℕ) (t : Tables) → (refresh id t).1 ≡ t
unfolding refresh
refresh-tables id t = required-tables (get_invocation id t.invocations) t

-- The same for a test that chooses what to do.
pub branch-keeps {ℓ} :
    {A : Type 0} (P : Tables → Type ℓ) (b : Bool) (m n : Exec A) (t : Tables)
    → P (m t).1
    → P (n t).1
    → P ((if b then m else n) t).1
branch-keeps P true m n t hm hn = hm
branch-keeps P false m n t hm hn = hn

-- A bind whose first part returns goes on with its value.
pub bind_value {ℓ} :
    {A B : Type 0} (P : Result B × Tables → Type ℓ) (m : Exec A) (f : A → Exec B) (t : Tables)
    (a : A)
    → (m t).0 ≡ ok a
    → P (f a (m t).1)
    → P ((m >>= f) t)
bind_value P m f t a e h = subst (λ r. P (continue r f (m t).1)) (sym e) h

-- What follows a refresh starts from the row that is there.
pub refresh-after {ℓ} :
    {A : Type 0} (P : Tables → Type ℓ) (id : ℕ) (f : ToolInvocation → Exec A) (t : Tables)
    → P t
    → ((i : ToolInvocation) → get_invocation id t.invocations ≡ some i → P (f i t).1)
    → P ((refresh id >>= f) t).1
unfolding refresh
refresh-after P id f t h k = by_row (get_invocation id t.invocations) refl
  where
    by_row :
        (o : Option ToolInvocation)
        → get_invocation id t.invocations ≡ o
        → P ((required o >>= f) t).1
    by_row none e = h
    by_row (some i) e = k i e

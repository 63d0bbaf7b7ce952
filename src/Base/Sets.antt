-- ===== src/Base/Sets.antt =====
-- Python's sets of texts, as lists that are read only through membership and inclusion.
use Prim.Native.String.{String}
use mathlib.Core.Path.{◌≡◌, refl}
use mathlib.Core.Bool.{Bool, true, false, ◌||◌}
use mathlib.Core.List.{List, [], ◌∷◌, ◌++◌}
use native.Mathlib.Omega.{arith}
use text.Mathlib.Text.{◌==◌}
use text.Mathlib.TextEquality.{eq_iff}
use cyberwithsteve_acop.Base.Tests.{if◌then◌else◌}
use cyberwithsteve_acop.Base.Lists.{any, all}

-- x in xs
abbrev pub member : String → List String → Bool
member x [] = false
member x (y ∷ ys) = x == y || member x ys

-- xs <= ys, xs.issubset(ys)
abbrev pub subset : List String → List String → Bool
subset xs ys = all (λ x. member x ys) xs

-- bool(xs & ys)
abbrev pub meets : List String → List String → Bool
meets xs ys = any (λ x. member x ys) xs

-- xs - ys
abbrev pub difference : List String → List String → List String
difference [] ys = []
difference (x ∷ xs) ys = let rest = difference xs ys in if member x ys then rest else x ∷ rest

-- bool(xs)
abbrev pub nonempty {ℓ} : {A : Type ℓ} → List A → Bool
nonempty [] = false
nonempty (x ∷ xs) = true

pub member-append :
    (x : String) (xs ys : List String) → member x (xs ++ ys) ≡ (member x xs || member x ys)
member-append x [] ys = refl
member-append x (z ∷ xs) ys = ground (arith, member-append x xs ys)

pub subset-member :
    (x : String) (xs ys : List String)
    → subset xs ys ≡ true
    → member x xs ≡ true
    → member x ys ≡ true
subset-member x [] ys h m = cc
subset-member x (z ∷ xs) ys h m = ground (arith, eq_iff x z, subset-member x xs ys)

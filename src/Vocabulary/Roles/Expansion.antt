-- ===== src/Vocabulary/Roles/Expansion.antt =====
-- What `effective_roles` gives a principal.
use cyberwithsteve_acop.Base.{
  String, ◌≡◌, refl, ◌||◌, List, [], ◌∷◌, ◌++◌, map, arith, eq_iff, member, member-append, meets,
  sym,
}
use cyberwithsteve_acop.Vocabulary.Roles.{
  Role, admin, approver, operator, viewer, role_value, role_of, role_implications, implied,
  effective_roles, held_roles,
}

map_value-append :
    (xs ys : List Role) → map role_value (xs ++ ys) ≡ map role_value xs ++ map role_value ys
map_value-append [] ys = refl
map_value-append (x ∷ xs) ys = ground (arith, map_value-append xs ys)

held_roles-cons :
    (r : String) (name : String) (roles : List String)
    → member r (held_roles (name ∷ roles))
      ≡ (member r (map role_value (implied (role_of name))) || member r (held_roles roles))
unfolding held_roles
held_roles-cons r name roles =
    rw map_value-append (member-append r (map role_value (implied (role_of name))) _)

-- Which role names give a principal the role.
abbrev pub granting : Role → List String
granting admin = "admin" ∷ []
granting approver = "admin" ∷ "approver" ∷ []
granting operator = "admin" ∷ "operator" ∷ []
granting viewer = "admin" ∷ "approver" ∷ "operator" ∷ "viewer" ∷ []

implied-granting :
    (role : Role) (name : String)
    → member (role_value role) (map role_value (implied (role_of name)))
      ≡ member name (granting role)
unfolding role_of role_implications
implied-granting admin name = ground (
  arith,
  eq_iff name "admin",
  eq_iff name "approver",
  eq_iff name "operator",
  eq_iff "approver" "operator",
)
implied-granting _ name = ground (
  arith,
  eq_iff name "admin",
  eq_iff name "approver",
  eq_iff name "operator",
  eq_iff name "viewer",
  eq_iff "approver" "operator",
)

member-cons :
    (x y : String) (ys : List String) → member x (y ∷ ys) ≡ (member y (x ∷ []) || member x ys)
member-cons x y ys = ground (arith, eq_iff x y, eq_iff y x)

meets-cons : (xs ys : List String) (y : String) → meets xs (y ∷ ys) ≡ (member y xs || meets xs ys)
meets-cons [] ys y = refl
meets-cons (x ∷ xs) ys y = ground (arith, meets-cons xs ys y, eq_iff x y, eq_iff y x)

none_held : (role : Role) → member (role_value role) (held_roles []) ≡ meets (granting role) []
unfolding held_roles effective_roles
none_held admin = refl
none_held _ = refl

-- A principal holds a role exactly when one of its role names grants it: `admin` grants every
-- role, `approver` and `operator` themselves and `viewer`, and a name that is no role grants none.
pub held_roles-granting :
    (role : Role) (roles : List String)
    → member (role_value role) (held_roles roles) ≡ meets (granting role) roles
held_roles-granting role [] = none_held role
held_roles-granting role (name ∷ roles) = rw held_roles-cons (
    rw (implied-granting role name, held_roles-granting role roles)
      (sym (meets-cons (granting role) roles name)))

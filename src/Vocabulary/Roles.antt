-- ===== src/Vocabulary/Roles.antt =====
-- Principals and roles: src/acop/auth/principal.py, and the roles part of
-- src/acop/models/tool_vocabulary.py.
pub mod Expansion
use cyberwithsteve_acop.Base.{
  String, Bool, Option, none, some, List, [], ◌∷◌, ◌++◌, map, str_eq, any, member, if◌then◌else◌,
}

pub data Role : Type 0 where
  admin approver operator viewer : Role

-- Role.value
abbrev pub role_value : Role → String
role_value admin = "admin"
role_value approver = "approver"
role_value operator = "operator"
role_value viewer = "viewer"

-- Role(name); `none` is the `ValueError`.
pub role_of : String → Option Role
role_of name =
    if str_eq name "admin"
    then some admin
    else if str_eq name "approver"
    then some approver
    else if str_eq name "operator"
    then some operator
    else if str_eq name "viewer"
    then some viewer
    else none

pub data PrincipalType : Type 0 where
  human service agent system : PrincipalType

pub data AuthMethod : Type 0 where
  api_key oidc mtls system : AuthMethod

-- `display_name`, `authenticated_at` and the quarantined `claims` decide nothing here.
pub record Principal : Type 0 where
  pub subject : String
  pub principal_type : PrincipalType
  pub issuer : String
  pub auth_method : AuthMethod
  pub roles : List String

has_role : Principal → Role → Bool
has_role p role = member (role_value role) p.roles

has_any_role : Principal → List Role → Bool
unfolding has_role
has_any_role p = any (has_role p)

-- The four neutral fields, and nothing else of a principal, go into a record.
pub record AuditFields : Type 0 where
  pub principal_subject : String
  pub principal_type : PrincipalType
  pub principal_issuer : String
  pub auth_method : AuthMethod

unfoldable pub to_audit_fields : Principal → AuditFields
to_audit_fields p = record {
  principal_subject = p.subject;
  principal_type = p.principal_type;
  principal_issuer = p.issuer;
  auth_method = p.auth_method;
}

abbrev pub system_principal : Principal
system_principal = record {
  subject = "acop:system";
  principal_type = PrincipalType.system;
  issuer = "acop:internal";
  auth_method = AuthMethod.system;
  roles = "operator" ∷ [];
}

abbrev approval_authority_roles : List Role
approval_authority_roles = approver ∷ admin ∷ []

pub role_implications : Role → List Role
role_implications admin = admin ∷ approver ∷ operator ∷ viewer ∷ []
role_implications approver = approver ∷ viewer ∷ []
role_implications operator = operator ∷ viewer ∷ []
role_implications viewer = viewer ∷ []

-- One turn of the loop; a name that is no role adds nothing.
abbrev pub implied : Option Role → List Role
unfolding role_implications
implied none = []
implied (some role) = role_implications role

pub effective_roles : List String → List Role
unfolding role_of role_implications
effective_roles [] = []
effective_roles (name ∷ roles) = implied (role_of name) ++ effective_roles roles

-- {role.value for role in effective_roles(roles)}
unfoldable pub held_roles : List String → List String
unfolding effective_roles
held_roles roles = map role_value (effective_roles roles)

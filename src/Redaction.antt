-- ===== src/Redaction.antt =====
-- Secret redaction: src/acop/core/redaction.py. Keys are matched on their lower-cased code points.
pub mod Clean
use Prim.Native.Nat.{◌<◌}
use cyberwithsteve_acop.Base.{
  ℕ, zero, suc, ◌+◌, String, Bool, true, false, ◌&&◌, ◌||◌, List, [], ◌∷◌, ◌++◌, any, ◌==◌, leb,
  if◌then◌else◌,
}
use cyberwithsteve_acop.Json.{
  Value, Items, Fields, null, bool, number, str, arr, obj, nil, cons, end, field, codes,
}

abbrev sensitive_key_fragments : List String
sensitive_key_fragments =
    "password" ∷ "passwd" ∷ "secret" ∷ "token" ∷ "api_key" ∷ "apikey" ∷ "authorization"
    ∷ "auth_header" ∷ "credential" ∷ "private_key" ∷ "privatekey" ∷ "ssh_key" ∷ "community"
    ∷ "enable_secret" ∷ "session_key" ∷ "cookie" ∷ []

abbrev max_depth : ℕ
max_depth = 12

abbrev kelvin_sign : ℕ
kelvin_sign = 8490

abbrev dotted_capital_i : ℕ
dotted_capital_i = 304

lower_char : ℕ → List ℕ
lower_char c =
    if leb 65 c && leb c 90
    then (c + 32) ∷ []
    else if c == kelvin_sign
    then 107 ∷ []
    else if c == dotted_capital_i
    then 105 ∷ 775 ∷ []
    else c ∷ []

-- `str.lower`. Outside ASCII, only these two give letters of ASCII; what else becomes another
-- character outside ASCII is left, since it is compared with texts of ASCII only.
pub lower : List ℕ → List ℕ
unfolding lower_char
lower [] = []
lower (c ∷ cs) = lower_char c ++ lower cs

starts_with : List ℕ → List ℕ → Bool
starts_with [] text = true
starts_with (c ∷ cs) [] = false
starts_with (c ∷ cs) (d ∷ ds) = c == d && starts_with cs ds

-- fragment in text
contains : List ℕ → List ℕ → Bool
unfolding starts_with
contains fragment [] = starts_with fragment []
contains fragment (c ∷ cs) = starts_with fragment (c ∷ cs) || contains fragment cs

unfoldable pub is_sensitive_key : String → Bool
unfolding contains lower
is_sensitive_key key =
    any (λ fragment. contains (codes fragment) (lower (codes key))) sensitive_key_fragments

-- `left` is `MAX_DEPTH - _depth`: how many levels may still be entered.
unfoldable mutual
  pub redact_from : ℕ → Value → Value
  redact_from zero v = str "***TRUNCATED***"
  redact_from (suc left) (obj fs) = obj (redact_fields left fs)
  redact_from (suc left) (arr xs) = arr (redact_items left xs)
  redact_from (suc left) v = v

  pub redact_items : ℕ → Items → Items
  redact_items left nil = nil
  redact_items left (cons x xs) = cons (redact_from left x) (redact_items left xs)

  pub redact_fields : ℕ → Fields → Fields
  redact_fields left end = end
  redact_fields left (field k v fs) =
      field k (if is_sensitive_key k then str "***REDACTED***" else redact_from left v)
        (redact_fields left fs)

pub redact : Value → Value
unfolding redact_from
redact v = redact_from max_depth v

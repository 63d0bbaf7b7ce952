-- ===== src/Sanitize/Published.antt =====
-- What src/acop/services/tools/sanitize.py publishes.
use cyberwithsteve_acop.Base.{
  ℕ, ◌≡◌, refl, String, true, Option, none, some, List, [], ◌∷◌, arith, subset, eq_iff,
}
use cyberwithsteve_acop.Json.{Value, Fields, end, field}
use cyberwithsteve_acop.Redaction.{redact_fields, redact_from}
use cyberwithsteve_acop.Redaction.Clean.{is_clean_fields, redacted-clean}
use cyberwithsteve_acop.Contract.{ToolDefinition, effective_output_fields}
use cyberwithsteve_acop.Sanitize.{get_field, put_field, pick, clean_fields, sanitize_output}

abbrev pub keys : Fields → List String
keys end = []
keys (field k v rest) = k ∷ keys rest

keys-redact : (left : ℕ) (fs : Fields) → keys (redact_fields left fs) ≡ keys fs
unfolding redact_from
keys-redact left end = refl
keys-redact left (field k v fs) = rw (keys-redact left fs) refl

subset-more : (x : String) (xs ys : List String) → subset xs ys ≡ true → subset xs (x ∷ ys) ≡ true
subset-more x [] ys h = refl
subset-more x (z ∷ xs) ys h = ground (arith, subset-more x xs ys)

keys-put :
    (name : String) (o : Option Value) (rest : Fields) (names : List String)
    → subset (keys rest) names ≡ true
    → subset (keys (put_field name o rest)) (name ∷ names) ≡ true
keys-put name none rest names h = subset-more name (keys rest) names h
keys-put name (some v) rest names h =
    ground (arith, eq_iff name name, subset-more name (keys rest) names h)

keys-pick :
    (names : List String) (payload : Fields) → subset (keys (pick names payload)) names ≡ true
unfolding pick
keys-pick [] payload = refl
keys-pick (name ∷ names) payload =
    keys-put name (get_field name payload) (pick names payload) names (keys-pick names payload)

-- Everything published is a declared output field of the tool, and carries nothing under a sensitive
-- key, whatever the adapter reported.
pub sanitize_output_published :
    (sha256 : List ℕ → String) (d : ToolDefinition) (payload : Fields)
    → let (summary, digest) = sanitize_output sha256 d payload in
      (subset (keys summary) (effective_output_fields d) ≡ true) × (is_clean_fields summary ≡ true)
unfolding sanitize_output clean_fields
sanitize_output_published sha256 d payload =
    let kept = pick (effective_output_fields d) payload in
    (
      rw (keys-redact 11 kept) (keys-pick (effective_output_fields d) payload),
      redacted-clean 11 kept,
    )

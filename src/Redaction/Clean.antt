-- ===== src/Redaction/Clean.antt =====
-- What src/acop/core/redaction.py leaves in a value.
use cyberwithsteve_acop.Base.{
  ℕ, zero, suc, ◌≡◌, refl, sym, ap, ◌∙◌, String, Bool, true, false, ◌&&◌, str_eq, if◌then◌else◌,
  Bool-cases, inl, inr,
}
use cyberwithsteve_acop.Json.{
  Value, Items, Fields, null, bool, number, str, arr, obj, nil, cons, end, field,
}
use cyberwithsteve_acop.Redaction.{
  is_sensitive_key, redact_from, redact_items, redact_fields, redact,
}

abbrev is_placeholder : Value → Bool
is_placeholder (str s) = str_eq s "***REDACTED***"
is_placeholder _ = false

-- At every depth, a sensitive key has the placeholder for its value.
unfoldable mutual
  pub is_clean : Value → Bool
  is_clean (obj fs) = is_clean_fields fs
  is_clean (arr xs) = is_clean_items xs
  is_clean _ = true

  is_clean_items : Items → Bool
  is_clean_items nil = true
  is_clean_items (cons x xs) = is_clean x && is_clean_items xs

  pub is_clean_fields : Fields → Bool
  is_clean_fields end = true
  is_clean_fields (field k v fs) =
      (if is_sensitive_key k then is_placeholder v else is_clean v) && is_clean_fields fs

mutual
  unfolding redact_from is_clean

  clean_from : (left : ℕ) (v : Value) → is_clean (redact_from left v) ≡ true
  clean_from zero v = refl
  clean_from (suc left) (obj fs) = redacted-clean left fs
  clean_from (suc left) (arr xs) = clean_items left xs
  clean_from (suc left) null = refl
  clean_from (suc left) (bool b) = refl
  clean_from (suc left) (number n) = refl
  clean_from (suc left) (str s) = refl

  clean_items : (left : ℕ) (xs : Items) → is_clean_items (redact_items left xs) ≡ true
  clean_items left nil = refl
  clean_items left (cons x xs) = rw (clean_from left x, clean_items left xs) refl

  pub redacted-clean : (left : ℕ) (fs : Fields) → is_clean_fields (redact_fields left fs) ≡ true
  redacted-clean left end = refl
  redacted-clean left (field k v fs) = elim (Bool-cases (is_sensitive_key k)) [
    | inl sensitive ↦ rw (sensitive, redacted-clean left fs) refl
    | inr plain ↦ rw (plain, clean_from left v, redacted-clean left fs) refl
  ]

module _ (left : ℕ) (k : String) (v : Value) (fs : Fields) where
  hidden :
      is_sensitive_key k ≡ true
      → redact_fields left (field k v fs) ≡ field k (str "***REDACTED***") (redact_fields left fs)
  unfolding redact_fields
  hidden sensitive = rw sensitive refl

  shown :
      is_sensitive_key k ≡ false
      → redact_fields left (field k v fs) ≡ field k (redact_from left v) (redact_fields left fs)
  unfolding redact_fields
  shown plain = rw plain refl

mutual
  unfolding redact_from

  again_from : (left : ℕ) (v : Value) → redact_from left (redact_from left v) ≡ redact_from left v
  again_from zero v = refl
  again_from (suc left) (obj fs) = rw (again_fields left fs) refl
  again_from (suc left) (arr xs) = rw (again_items left xs) refl
  again_from (suc left) null = refl
  again_from (suc left) (bool b) = refl
  again_from (suc left) (number n) = refl
  again_from (suc left) (str s) = refl

  again_items :
      (left : ℕ) (xs : Items) → redact_items left (redact_items left xs) ≡ redact_items left xs
  again_items left nil = refl
  again_items left (cons x xs) = rw (again_from left x, again_items left xs) refl

  again_fields :
      (left : ℕ) (fs : Fields) → redact_fields left (redact_fields left fs) ≡ redact_fields left fs
  again_fields left end = refl
  again_fields left (field k v fs) = elim (Bool-cases (is_sensitive_key k)) [
    | inl sensitive ↦
        ap (redact_fields left) (hidden left k v fs sensitive)
        ∙ hidden left k (str "***REDACTED***") (redact_fields left fs) sensitive
        ∙ ap (field k (str "***REDACTED***")) (again_fields left fs)
        ∙ sym (hidden left k v fs sensitive)
    | inr plain ↦
        ap (redact_fields left) (shown left k v fs plain)
        ∙ shown left k (redact_from left v) (redact_fields left fs) plain
        ∙ ap (λ x. field k x (redact_fields left (redact_fields left fs))) (again_from left v)
        ∙ ap (field k (redact_from left v)) (again_fields left fs)
        ∙ sym (shown left k v fs plain)
  ]

-- Whatever the value, no sensitive key of its redaction keeps a value, at any depth, and redacting
-- once more changes nothing.
pub redact_clean : (v : Value) → (is_clean (redact v) ≡ true) × (redact (redact v) ≡ redact v)
unfolding redact
redact_clean v = (clean_from 12 v, again_from 12 v)

-- ===== src/Sanitize.antt =====
-- What of an adapter's output is kept: src/acop/services/tools/sanitize.py. The names stand sorted.
pub mod Published
use cyberwithsteve_acop.Base.{
  ℕ, String, Bool, Option, none, some, List, [], ◌∷◌, str_eq, if◌then◌else◌,
}
use cyberwithsteve_acop.Json.{Value, Fields, obj, end, field}
use cyberwithsteve_acop.Redaction.{redact_fields}
use cyberwithsteve_acop.Contract.{ToolDefinition, effective_output_fields}
use cyberwithsteve_acop.Envelope.{digest_of}

-- payload[name]
pub get_field : String → Fields → Option Value
get_field name end = none
get_field name (field k v rest) = if str_eq k name then some v else get_field name rest

abbrev put_field : String → Option Value → Fields → Fields
put_field name none rest = rest
put_field name (some v) rest = field name v rest

-- {name: payload[name] for name in names if name in payload}
pub pick : List String → Fields → Fields
unfolding get_field
pick [] payload = end
pick (name ∷ names) payload = put_field name (get_field name payload) (pick names payload)

-- `redact` of an object, one level of its depth spent.
pub clean_fields : ToolDefinition → Fields → Fields
unfolding pick effective_output_fields redact_fields
clean_fields d payload = redact_fields 11 (pick (effective_output_fields d) payload)

pub sanitize_output : (List ℕ → String) → ToolDefinition → Fields → Fields × String
unfolding clean_fields
sanitize_output sha256 d payload =
    (clean_fields d payload, digest_of sha256 (obj (clean_fields d payload)))

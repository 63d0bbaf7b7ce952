-- ===== src/Examples/Policies.antt =====
-- Runs of the gates, of the roles, and of what may be published.
use cyberwithsteve_acop.Base.{◌≡◌, refl, ◌↔◌, true, false, some, [], ◌∷◌, meets, member, subset}
use cyberwithsteve_acop.Json.{Fields, end, field, str, obj}
use cyberwithsteve_acop.Vocabulary.Roles.{Role, held_roles}
use cyberwithsteve_acop.Vocabulary.Roles.Expansion.{granting, held_roles-granting}
use cyberwithsteve_acop.Vocabulary.Reasons.{retired, PolicyReason}
use cyberwithsteve_acop.Contract.{ToolDefinition, effective_output_fields}
use cyberwithsteve_acop.Policy.{PolicyContext, evaluate, evaluate_prerequisites, deny_context}
use cyberwithsteve_acop.Policy.Gates.{Admissible, evaluate_allows_iff, prerequisites_decide}
use cyberwithsteve_acop.Redaction.{redact}
use cyberwithsteve_acop.Redaction.Clean.{is_clean, is_clean_fields, redact_clean}
use cyberwithsteve_acop.Sanitize.{sanitize_output}
use cyberwithsteve_acop.Sanitize.Published.{keys, sanitize_output_published}
use cyberwithsteve_acop.Examples.{approver, restart, restart_request, flat_digest}

evaluate_allows_iff_example : ((evaluate restart_request).allowed ≡ true) ↔ (
    (d : ToolDefinition) × Admissible restart_request d (evaluate restart_request).canonical_input)
evaluate_allows_iff_example = evaluate_allows_iff restart_request

-- The request of a retired tool.
abbrev retired_request : PolicyContext
retired_request = record restart_request { lifecycle_state = retired }

retired_denial :
    evaluate_prerequisites retired_request
    ≡ some (deny_context retired_request PolicyReason.tool_retired)
unfolding evaluate_prerequisites
retired_denial = refl

prerequisites_decide_example :
    evaluate (record retired_request {
      principal = approver;
      target = restart_request.target;
      environment = "production";
    })
    ≡ deny_context retired_request PolicyReason.tool_retired
prerequisites_decide_example =
    prerequisites_decide retired_request approver restart_request.target "production" retired_denial

-- A request where the tool may not run.
abbrev misplaced_request : PolicyContext
misplaced_request = record restart_request { environment = "production" }

misplaced_denied : (evaluate misplaced_request).allowed ≡ false
unfolding evaluate held_roles
misplaced_denied = refl

held_roles-granting_example :
    member "viewer" (held_roles ("operator" ∷ "guest" ∷ []))
    ≡ meets (granting Role.viewer) ("operator" ∷ "guest" ∷ [])
held_roles-granting_example = held_roles-granting Role.viewer ("operator" ∷ "guest" ∷ [])

abbrev report : Fields
report = field "status" (str "done") (field "api_token" (str "x") end)

redact_clean_example :
    (is_clean (redact (obj report)) ≡ true) × (redact (redact (obj report)) ≡ redact (obj report))
redact_clean_example = redact_clean (obj report)

sanitize_output_published_example :
    let (summary, digest) = sanitize_output flat_digest restart report in
    (subset (keys summary) (effective_output_fields restart) ≡ true)
    × (is_clean_fields summary ≡ true)
sanitize_output_published_example = sanitize_output_published flat_digest restart report

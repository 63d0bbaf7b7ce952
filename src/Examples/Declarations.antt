-- ===== src/Examples/Declarations.antt =====
-- A declaration that the import rules admit, its execution, and a request for it.
use cyberwithsteve_acop.Base.{◌+◌, ◌≤◌, ◌≡◌, refl, ◌&&◌, true, none, some, [], ◌∷◌, length, leb}
use cyberwithsteve_acop.Redaction.{is_sensitive_key}
use cyberwithsteve_acop.Vocabulary.Roles.{held_roles}
use cyberwithsteve_acop.Vocabulary.Reasons.{TargetKind, non_idempotent}
use cyberwithsteve_acop.Contract.{ToolDefinition}
use cyberwithsteve_acop.Contract.Rules.{Environment, validate_declaration}
use cyberwithsteve_acop.Policy.{PolicyContext, TargetFacts, evaluate}
use cyberwithsteve_acop.Dispatcher.Execution.{Adapter, timed_out, not_checked, execute}
use cyberwithsteve_acop.Dispatcher.Execution.Declared.{declared_once}
use cyberwithsteve_acop.Invocation.Rows.{persisted_row, policy_fits, class_fits}
use cyberwithsteve_acop.Invocation.Create.Admitted.{admitted_change_fits}
use cyberwithsteve_acop.Examples.{
  restart, restart_request, operator, flat_digest, leased, leased_tables,
}
use cyberwithsteve_acop.Examples.Invocations.{restart_dns, registration}

abbrev import_time : Environment
import_time = record {
  schema_field_names = λ m. m.model_fields;
  forbids_additional_properties = λ m. true;
  is_decimal = λ c. leb 48 c && leb c 57;
  is_registered = λ id. true;
}

abbrev reboot : ToolDefinition
reboot = record restart {
  tool_name = "compute.server.reboot";
  tool_version = "1.0";
  target_type = TargetKind.asset;
  target_asset_types = "server" ∷ [];
  validation_required = true;
  idempotency = non_idempotent;
  retry_policy = record { max_attempts = 1; backoff_seconds = 0; retry_on = [] };
}

reboot_admitted : validate_declaration import_time reboot ≡ none
unfolding validate_declaration is_sensitive_key
reboot_admitted = refl

abbrev silent : Adapter
silent = record { execute = λ n r. timed_out; validate = λ n r. not_checked }

declared_once_example :
    length (execute flat_digest (λ id. some silent) leased reboot 500 leased_tables).1.adapter_calls
    ≤ length leased_tables.adapter_calls + 1
declared_once_example =
    declared_once import_time flat_digest silent leased reboot 500 (λ id. some silent) leased_tables
      reboot_admitted refl refl

abbrev web_server : TargetFacts
web_server = record {
  kind = TargetKind.asset;
  is_there = true;
  asset_id = some 3;
  asset_type = "server";
  lifecycle_state = "ACTIVE";
  external_ref = none;
}

abbrev reboot_request : PolicyContext
reboot_request = record restart_request { definition = some reboot; target = web_server }

reboot_allowed : (evaluate reboot_request).allowed ≡ true
unfolding evaluate held_roles
reboot_allowed = refl

admitted_change_fits_example :
    let row =
      (persisted_row flat_digest 10 restart_dns operator registration
        (evaluate reboot_request)
        web_server
        "e1").row in
    (policy_fits row ≡ true) × (class_fits row ≡ true)
admitted_change_fits_example =
    admitted_change_fits import_time reboot reboot_request flat_digest 10 restart_dns operator
      registration web_server "e1" reboot_admitted refl refl reboot_allowed refl

-- ===== src/Examples/Invocations.antt =====
-- Runs of requests for an invocation: accepted, repeated, refused, and refused for an asset that is
-- not there.
use cyberwithsteve_acop.Base.{◌≡◌, refl, true, false, none, some, [], ◌∷◌, ◌++◌, find}
use cyberwithsteve_acop.Json.{field, end, str}
use cyberwithsteve_acop.Vocabulary.States.{ready}
use cyberwithsteve_acop.Contract.{ToolDefinition}
use cyberwithsteve_acop.Registry.{get_definition}
use cyberwithsteve_acop.Vocabulary.Roles.{held_roles}
use cyberwithsteve_acop.Policy.{evaluate}
use cyberwithsteve_acop.Store.{
  ToolInvocation, ToolRegistration, Tables, err, unexpected, get_invocation,
}
use cyberwithsteve_acop.State.Sound.{IsSound}
use cyberwithsteve_acop.Invocation.{
  refusal_error, resolve_target, InvocationRequest, Service, find_registration, holds_key,
  get_asset,
}
use cyberwithsteve_acop.Invocation.Rows.{accepts_row, rejected_row}
use cyberwithsteve_acop.Invocation.Create.{create, decide_request, full_context, request_digest}
use cyberwithsteve_acop.Invocation.Create.Sound.{create-IsSound}
use cyberwithsteve_acop.Invocation.Create.Replay.{replayed, create_replay}
use cyberwithsteve_acop.Invocation.Create.Refusal.{decide_request-evaluate, create_missing_asset}
use cyberwithsteve_acop.Invocation.Create.Recorded.{recorded, create_refused}
use cyberwithsteve_acop.Examples.{
  active, operator, approver, restart, flat_digest, ready_tables, ready_events, restart_row,
  in_state, tables_of,
}
use cyberwithsteve_acop.Examples.Histories.{ready-HasHistory, ready-AllChecked}

-- The tool in force, validated after its execution as its class demands.
abbrev checked_restart : ToolDefinition
checked_restart = record restart { validation_required = true }

abbrev pub lab : Service
lab = record {
  sha256 = flat_digest;
  registry = checked_restart ∷ [];
  assets = [];
  environment = "lab";
}

abbrev pub restart_dns : InvocationRequest
restart_dns = record {
  tool_name = "service.restart";
  tool_version = "1.0.0";
  arguments = field "service" (str "dns") end;
  target_asset_id = none;
  target_ref = none;
  idempotency_key = some "k1";
  request_id = none;
}

abbrev pub registration : ToolRegistration
registration = record {
  id = 7;
  tool_name = "service.restart";
  tool_version = "1.0.0";
  contract_hash = "c1";
  lifecycle_state = active;
  disabled_at = none;
  disabled_by_subject = none;
  disabled_reason = none;
  retired_at = none;
  retired_reason = none;
}

registered :
    find_registration restart_dns.tool_name restart_dns.tool_version ready_tables.registrations
    ≡ some registration
unfolding find_registration
registered = refl

pub ready-IsSound : IsSound ready_tables
ready-IsSound = record { has_history = ready-HasHistory; all_checked = ready-AllChecked }

create-IsSound_example : IsSound (create lab restart_dns operator 100 ready_tables).1
create-IsSound_example = create-IsSound lab restart_dns operator 100 ready_tables ready-IsSound

decide_request-evaluate_example :
    decide_request lab restart_dns operator registration 100
    ≡ evaluate (full_context lab restart_dns operator registration 100)
decide_request-evaluate_example = decide_request-evaluate lab restart_dns operator registration 100

-- The same row, under the key of the request.
abbrev keyed : ToolInvocation
keyed = record (in_state ready) {
  row = record (in_state ready).row { idempotency_key = some "k1" };
}

abbrev keyed_tables : Tables
keyed_tables = tables_of keyed ready_events []

keyed_found : find (holds_key "k1") keyed_tables.invocations ≡ some keyed
unfolding holds_key restart_row
keyed_found = refl

defined : get_definition lab.registry "service.restart" "1.0.0" ≡ some checked_restart
unfolding get_definition
defined = refl

granted : (decide_request lab restart_dns operator registration 100).allowed ≡ true
unfolding full_context get_definition evaluate resolve_target held_roles
granted = rw (decide_request-evaluate lab restart_dns operator registration 100) refl

create_replay_example : create lab restart_dns operator 100 keyed_tables ≡ (
  replayed keyed (
      request_digest lab restart_dns operator checked_restart
        (decide_request lab restart_dns operator registration 100)
        (resolve_target [] restart_dns)),
  keyed_tables,
)
create_replay_example =
    create_replay lab restart_dns operator "k1" keyed keyed_tables refl refl keyed_found
      registration checked_restart 100 defined granted registered

-- The approver may not ask for a restart.
pub denied : (decide_request lab restart_dns approver registration 100).allowed ≡ false
unfolding full_context get_definition evaluate held_roles resolve_target
denied = rw (decide_request-evaluate lab restart_dns approver registration 100) refl

admitted :
    accepts_row []
      (rejected_row 10 restart_dns approver registration
        (decide_request lab restart_dns approver registration 100))
      ready_tables.invocations
    ≡ true
unfolding accepts_row rejected_row full_context get_definition evaluate held_roles resolve_target
admitted = rw (decide_request-evaluate lab restart_dns approver registration 100) refl

free_id : get_invocation 10 ready_tables.invocations ≡ none
unfolding get_invocation restart_row
free_id = refl

create_refused_example :
    ((create lab restart_dns approver 100 ready_tables).0
      ≡ err (refusal_error (decide_request lab restart_dns approver registration 100).reason))
    × ((create lab restart_dns approver 100 ready_tables).1.invocations
        ≡ ready_tables.invocations
          ++ recorded lab restart_dns approver registration 100 ready_tables ∷ [])
create_refused_example =
    create_refused lab restart_dns approver registration 100 ready_tables admitted free_id denied
      registered

abbrev stray_request : InvocationRequest
stray_request = record restart_dns { target_asset_id = some 9 }

no_asset : get_asset 9 lab.assets ≡ none
unfolding get_asset
no_asset = refl

create_missing_asset_example :
    create lab stray_request operator 100 ready_tables ≡ (err unexpected, ready_tables)
create_missing_asset_example =
    create_missing_asset lab stray_request operator 9 refl no_asset registration 100 ready_tables
      registered

-- ===== src/Invocation/Create/Ready.antt =====
-- A request for a tool that needs no approval, which is ready at once: a run of
-- src/acop/services/tools/invocation.py.
use cyberwithsteve_acop.Base.{Option, ◌≡◌, refl, false, none, some, [], ◌∷◌}
use cyberwithsteve_acop.Contract.{ToolDefinition}
use cyberwithsteve_acop.Vocabulary.Reasons.{class_1_read_only}
use cyberwithsteve_acop.Vocabulary.States.{requested, ready, is_legal_transition}
use cyberwithsteve_acop.Vocabulary.Roles.{held_roles}
use cyberwithsteve_acop.Policy.{evaluate, evaluate_prerequisites}
use cyberwithsteve_acop.Registry.{get_definition}
use cyberwithsteve_acop.State.{append_event, transition}
use cyberwithsteve_acop.Store.{
  ToolInvocation, Tables, get_invocation, transaction, refresh, update_where,
}
use cyberwithsteve_acop.Invocation.{Service, find_registration, resolve_target}
use cyberwithsteve_acop.Invocation.Rows.{insert_invocation, persisted_row}
use cyberwithsteve_acop.Invocation.Create.{create, decide_request}
use cyberwithsteve_acop.Examples.{operator, restart, ready_tables, in_state}
use cyberwithsteve_acop.Examples.Invocations.{lab, restart_dns}

-- The registry alone.
abbrev pub bare_tables : Tables
bare_tables = record ready_tables { invocations = []; events = []; approvals = [] }

abbrev pub inspect : ToolDefinition
inspect = record restart {
  permission_class = class_1_read_only;
  approval_policy = record restart.approval_policy { approval_required = false };
}

abbrev pub open_lab : Service
open_lab = record lab { registry = inspect ∷ [] }

abbrev pub ready_at_once : Tables
ready_at_once = (create open_lab restart_dns operator 100 bare_tables).1

abbrev found_or : Option ToolInvocation → ToolInvocation
found_or none = in_state requested
found_or (some i) = i

abbrev pub ready_row : ToolInvocation
ready_row = found_or (get_invocation 10 ready_at_once.invocations)

pub ready_row_found : get_invocation 10 ready_at_once.invocations ≡ some ready_row
unfolding create get_invocation transaction find_registration decide_request evaluate_prerequisites
    get_definition evaluate resolve_target held_roles insert_invocation persisted_row append_event
    transition is_legal_transition refresh update_where
ready_row_found = refl

pub ready_row_state : ready_row.state ≡ ready
unfolding create get_invocation transaction find_registration decide_request evaluate_prerequisites
    get_definition evaluate resolve_target held_roles insert_invocation persisted_row append_event
    transition is_legal_transition refresh update_where
ready_row_state = refl

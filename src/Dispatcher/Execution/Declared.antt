-- ===== src/Dispatcher/Execution/Declared.antt =====
-- How often src/acop/services/tools/dispatcher.py executes a tool that its declaration calls not idempotent.
use cyberwithsteve_acop.Base.{ℕ, ◌+◌, ◌≤◌, ◌≡◌, String, Option, none, some, List, length, arith}
use cyberwithsteve_acop.Vocabulary.Reasons.{non_idempotent}
use cyberwithsteve_acop.Contract.{ToolDefinition}
use cyberwithsteve_acop.Contract.Rules.{Environment, validate_declaration}
use cyberwithsteve_acop.Contract.Rules.Passed.{one_attempt}
use cyberwithsteve_acop.Store.{ToolInvocation, Tables}
use cyberwithsteve_acop.Dispatcher.Execution.{Adapter, execute}
use cyberwithsteve_acop.Dispatcher.Execution.Attempts.{execute_bounded}

-- A tool that the import rules admit and that is declared NON_IDEMPOTENT is executed at most once by
-- one dispatch, whatever its adapter answers.
pub declared_once :
    (env : Environment) (sha256 : List ℕ → String) (adapter : Adapter) (i : ToolInvocation)
    (d : ToolDefinition) (now : ℕ) (resolve_adapter : String → Option Adapter) (t : Tables)
    → validate_declaration env d ≡ none
    → d.idempotency ≡ non_idempotent
    → resolve_adapter d.adapter_id ≡ some adapter
    → length (execute sha256 resolve_adapter i d now t).1.adapter_calls ≤ length t.adapter_calls + 1
declared_once env sha256 adapter i d now resolve_adapter t passed kind bound =
    let (few, single) = execute_bounded sha256 adapter i d now resolve_adapter t bound in
    omega (arith, few, one_attempt env d passed kind)

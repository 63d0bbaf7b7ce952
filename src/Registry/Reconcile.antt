-- ===== src/Registry/Reconcile.antt =====
-- `ToolRegistryReconciler` of src/acop/tools/registry.py. The rows of the table are those that the loop has
-- settled and those that are left in `by_key`; a row is one object, so a write to it is a write to the table.
-- What was registered, rehashed and retired is read off the rows; the report repeats it and is left out.
pub mod Current
pub mod Outcome
use Prim.Native.String.{compare}
use text.Mathlib.Text.{is_lt}
use cyberwithsteve_acop.Base.{
  ℕ, suc, String, Bool, true, false, not, ◌&&◌, ◌||◌, Option, none, some, List, [], ◌∷◌, ◌++◌, map,
  find, filter, all, is_some, str_eq, if◌then◌else◌,
}
use cyberwithsteve_acop.Vocabulary.Reasons.{ToolLifecycle, active, disabled, retired}
use cyberwithsteve_acop.Contract.{ToolDefinition}
use cyberwithsteve_acop.Store.{ToolRegistration}

abbrev pub declares : ToolDefinition → ToolRegistration → Bool
declares d row = str_eq d.tool_name row.tool_name && str_eq d.tool_version row.tool_version

-- The order of the keys: by name, then by version.
abbrev comes_before : ToolDefinition → ToolDefinition → Bool
comes_before d e =
    is_lt (compare d.tool_name e.tool_name)
    || (str_eq d.tool_name e.tool_name && is_lt (compare d.tool_version e.tool_version))

pub insert_definition : ToolDefinition → List ToolDefinition → List ToolDefinition
insert_definition d [] = d ∷ []
insert_definition d (e ∷ l) =
    let rest = insert_definition d l in if comes_before e d then e ∷ rest else d ∷ e ∷ l

-- `all_definitions`
pub all_definitions : List ToolDefinition → List ToolDefinition
unfolding insert_definition
all_definitions [] = []
all_definitions (d ∷ l) = insert_definition d (all_definitions l)

-- The state of the loop: the rows that are settled, those that are left, and the next id.
pub record Loop : Type 0 where
  pub settled : List ToolRegistration
  pub by_key : List ToolRegistration
  pub next_id : ℕ

abbrev new_registration : ℕ → ToolDefinition → ToolRegistration
new_registration id d = record {
  id = id;
  tool_name = d.tool_name;
  tool_version = d.tool_version;
  contract_hash = d.contract_hash;
  lifecycle_state = d.lifecycle_default;
  disabled_at = none;
  disabled_by_subject = none;
  disabled_reason = none;
  retired_at = none;
  retired_reason = none;
}

-- The row that was popped: kept, rehashed, or the error.
pub settle_row : Bool → ToolDefinition → ToolRegistration → Option ToolRegistration
settle_row allow_rehash d row =
    if str_eq row.contract_hash d.contract_hash
    then some row
    else if allow_rehash
    then some (record row { contract_hash = d.contract_hash })
    else none

abbrev pub with_settled : Option ToolRegistration → Loop → Option Loop
with_settled none st = none
with_settled (some row) st = some (record st { settled = st.settled ++ row ∷ [] })

-- One turn of the loop, on the row that has the key.
abbrev pub on_row : Bool → ToolDefinition → Option ToolRegistration → Loop → Option Loop
unfolding settle_row
on_row allow_rehash d none st = some (record st {
  settled = st.settled ++ new_registration st.next_id d ∷ [];
  next_id = suc st.next_id;
})
on_row allow_rehash d (some row) st =
    with_settled (settle_row allow_rehash d row)
      (record st { by_key = filter (λ r. not (declares d r)) st.by_key })

abbrev pub then_rest : Option Loop → (Loop → Option Loop) → Option Loop
then_rest none f = none
then_rest (some st) f = f st

-- The loop; `none` is the ConfigurationError.
pub settle_all : Bool → List ToolDefinition → Loop → Option Loop
unfolding on_row
settle_all allow_rehash [] st = some st
settle_all allow_rehash (d ∷ l) st =
    then_rest (on_row allow_rehash d (find (declares d) st.by_key) st) (settle_all allow_rehash l)

abbrev pub is_retired : ToolLifecycle → Bool
is_retired retired = true
is_retired _ = false

abbrev pub is_disabled : ToolLifecycle → Bool
is_disabled disabled = true
is_disabled _ = false

-- The loop over what is left.
pub retire : ℕ → ToolRegistration → ToolRegistration
retire now row = if is_retired row.lifecycle_state then row else record row {
  lifecycle_state = retired;
  retired_at = some now;
  retired_reason = some "No code declaration for this tool version.";
}

abbrev same_bool : Bool → Bool → Bool
same_bool true b = b
same_bool false b = not b

-- The CHECK constraints of a registration.
pub registration_fits : ToolRegistration → Bool
registration_fits r =
    same_bool (is_disabled r.lifecycle_state) (is_some r.disabled_at)
    && same_bool (is_retired r.lifecycle_state) (is_some r.retired_at)
    && same_bool (is_some r.disabled_at) (is_some r.disabled_by_subject)
    && same_bool (is_some r.disabled_at) (is_some r.disabled_reason)

pub data Reconciled : Type 0 where
  reconciled : List ToolRegistration → Reconciled
  configuration_error integrity_error : Reconciled

-- `flush`: the constraints are checked, and the transaction fails where one is violated.
pub flushed : List ToolRegistration → Reconciled
unfolding registration_fits
flushed rows = if all registration_fits rows then reconciled rows else integrity_error

pub finished : ℕ → Option Loop → Reconciled
unfolding flushed retire
finished now none = configuration_error
finished now (some st) = flushed (st.settled ++ map (retire now) st.by_key)

-- `reconcile`
unfoldable pub reconcile : List ToolDefinition → Bool → ℕ → ℕ → List ToolRegistration → Reconciled
unfolding finished settle_all all_definitions
reconcile registry allow_rehash next_id now rows = finished now (
    settle_all allow_rehash (all_definitions registry)
      (record { settled = []; by_key = rows; next_id = next_id }))

-- ===== src/Lib.antt =====
-- The tool framework of ACOP: how a request to run a tool is admitted, approved, executed once and
-- recorded.
--
-- A tool is declared in code (`ToolDefinition`, src/acop/tools/contract.py) and bound to a row of the
-- registry. The policy engine (src/acop/tools/policy.py) decides on a request by eight gates. What is
-- authorised is an envelope (src/acop/tools/envelope.py) whose digest an approver states and the
-- final gate recomputes. An invocation is a row that moves along a table of legal transitions
-- (src/acop/models/tool_vocabulary.py); every move is a compare-and-set with an event
-- (src/acop/services/tools/state.py). A worker claims a ready row under a lease, runs the final gate,
-- calls the adapter and validates (src/acop/services/tools/dispatcher.py); the reaper closes what a
-- worker left behind, and the sweeper what nobody approved (src/acop/services/tools/reaper.py).
--
-- Which file models what:
--   Base                lists, sets of texts, tests
--   Json                JSON values and their canonical text
--   Vocabulary          the state machine, roles, reasons (src/acop/models/tool_vocabulary.py,
--                       src/acop/auth/principal.py)
--   Redaction           src/acop/core/redaction.py
--   Contract, Registry  src/acop/tools/contract.py, src/acop/tools/registry.py
--   Policy              src/acop/tools/policy.py
--   Envelope            src/acop/tools/envelope.py
--   Store               the tables of src/acop/models/tool.py and src/acop/models/audit.py, the errors
--                       of src/acop/tools/errors.py, and a session of src/acop/db/session.py
--   State               src/acop/services/tools/state.py
--   Invocation          src/acop/services/tools/invocation.py, and the constraints of
--                       src/acop/models/tool.py on a row that is inserted
--   Approval            src/acop/services/tools/approval.py
--   Reaper              src/acop/services/tools/reaper.py
--   Sanitize, Phrases   src/acop/services/tools/sanitize.py and the error phrases
--   Dispatcher          src/acop/services/tools/dispatcher.py
--   Reconciliation      src/acop/services/tools/reconciliation.py
--   System              all services of src/acop/services/tools on one database, as sequences of
--                       steps
--   Text                Python's `str` as a list of code points
--   Chunking            src/acop/services/knowledge/chunking.py
--   Examples            concrete runs
--
-- The database is a record of tables that is passed along (`Tables`), an operation a function from
-- tables to a result and tables (`Exec`), and a session a transaction that restores the tables when
-- an error leaves it, but for denials, which are written on a connection of their own, and the calls
-- of adapters. The operations take a row as the caller read it, which may be older than the row in
-- the tables; where other sessions may commit between two steps, a function on the tables stands for
-- them: before a worker's gate and before its decision is written, where they see the worker's event,
-- which the database would still hide, and not while an adapter is called. That events of one
-- invocation have different numbers is left to `append_event` and not a constraint. The id of an asset
-- is a number in a target block, where the code has its text. Clocks, fresh ids of leases, adapters,
-- pydantic models and SHA-256 are parameters. Durations and times are microseconds; counts are
-- unbounded, as Python's are. The attempt loop recurs on the
-- attempts that are left; nothing needs fuel.
--
-- Unicode's decimal digits and NFC are parameters too. The loop that splits a span over the ceiling has
-- as many rounds as the span has characters, which is enough where the ceiling is not 0.
--
-- Not modelled: messages, log lines and HTTP codes; the resolved target that only an adapter reads;
-- the contract's own hash; the worker's polling loop; the API routes, schemas and settings; the knowledge
-- services other than chunking, and the CMDB and audit services, which lie outside the tool framework;
-- the migrations and the scripts that check a deployment.
pub mod Base
pub mod Vocabulary
pub mod Json
pub mod Redaction
pub mod Contract
pub mod Policy
pub mod Store
pub mod State
pub mod Approval
pub mod Reaper
pub mod Envelope
pub mod Sanitize
pub mod Phrases
pub mod Registry
pub mod Invocation
pub mod Text
pub mod Reconciliation
pub mod Chunking
pub mod System
pub mod Dispatcher
pub mod Examples

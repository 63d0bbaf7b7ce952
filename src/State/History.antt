-- ===== src/State/History.antt =====
-- The event history of src/acop/services/tools/state.py, read back: the numbering of an
-- invocation's events has no gap, replaying its moves gives the state of its row, and its moves into
-- a state can be counted.
pub mod Numbering
pub mod Replay
pub mod Operations
pub mod Claims
pub mod Single

-- ===== src/Dispatcher.antt =====
-- The only path to an adapter: src/acop/services/tools/dispatcher.py. Each stage of a claimed run
-- is a module below; this one composes them.
-- The transactions of other workers are functions on the tables: one between this worker's read
-- and its claim, one between the claim's commit and the next transaction, and one between that
-- transaction's read and the compare-and-set of the final gate. From there on the row's lock is
-- held, and nobody else writes the row.
pub mod Gate
pub mod Execution
pub mod Validation
pub mod Run

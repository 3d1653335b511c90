-- ===== src/Store.antt =====
-- app/store.py: the durable pool. The tables are records, a query is a function on their rows, and
-- a transaction is a function that gives the new tables or the exception that rolls it back.
pub mod Schema
pub mod Errors
pub mod Sanitize
pub mod Queries
pub mod Recovery
pub mod Lifecycle
pub mod Claim
pub mod Checkpoints
pub mod Admission
pub mod Calls
pub mod Moves
pub mod Traces
pub mod Histories
pub mod Operations
pub mod Views

-- ===== src/Executor.antt =====
-- app/native_one_shot.py: the executor that runs one task for a worker, a client of the store. A run
-- is a sequence of calls of what lies outside (the worker interface, the working tree, the adapter,
-- the artifact transport), each of which may answer or raise; every site calls once at most, so the
-- answers are a record with a field for each site.
pub mod Run
pub mod Manifest
pub mod Recovery
pub mod Calls
pub mod Work
pub mod Receipts
pub mod OneShot
pub mod Protocol
pub mod Rules
pub mod Quiet
pub mod Conformance
pub mod Validation
pub mod Claiming
pub mod Replaying
pub mod Whole
pub mod Order
pub mod Steps
pub mod Paths
pub mod Refinement
pub mod Refusals
pub mod Readiness

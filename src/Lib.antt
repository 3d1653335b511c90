-- ===== src/Lib.antt =====
-- The engineering worker pool: a queue of coding tasks that workers claim, build, validate and
-- complete under fenced leases, with the records of evidence and merges beside it.
--
-- Parts. app/store.py keeps the tables of the pool and is modelled by Store and its children;
-- app/work.py binds a task to its evidence and its merge, and is modelled by Work; app/reconcile.py
-- calls the recovery of the store in a loop, and is modelled by Reconciler. The workers reach the
-- store over app/main.py, whose handlers pass their arguments on. app/native_one_shot.py is such a
-- worker: it runs one task of the pool from its manifest to its receipt, and is modelled by Executor.
-- app/task_diagnostics.py reads the tables of the store for a report, modelled by Diagnostics;
-- scripts/evaluate_cutover_readiness.py judges whether the old pool may go, modelled by Cutover.
--
-- Files.
--   Base          tests, texts as code points, finite sequences, instants and integers
--   Store.Schema  the tables of `_init`, a record for a row of each, and the settings
--   Store.Errors  the exceptions, one constructor for each `raise`, and transactions that roll back
--   Store.Sanitize      `sanitize` and the patterns of identifiers, commits and branches
--   Store.Queries       the row lookups, `_has_unresolved_effect`, `_lease`, `_end_attempt`
--   Store.Recovery      `_recover`, `_recover_stalled`, `_worker_is_alternative`, `reconcile`
--   Store.Lifecycle     `renew_lease` to `block_task`, and `requeue_blocked`
--   Store.Claim         `_ready` and `claim_task` with both of its queries and their order
--   Store.Checkpoints   `record_checkpoint`, `reconcile_effect`, the latest checkpoint, the context
--   Store.Admission     workers, lanes, affinities, `enable_fenced_cutover`, `enqueue_task`
--   Store.Calls         the writing operations as one type of calls, and a history of them
--   Store.Moves         the life of a row of `tasks` as a step relation
--   Store.Traces        each operation makes only such steps
--   Store.Histories, Store.Operations   the properties of histories and of single operations
--   Store.Views         `snapshot`, `list_quarantine`, `fenced_cutover_status`
--   Work, Work.Runs, Work.Deeds         app/work.py, its rows, and its calls among the store's
--   Reconciler          app/reconcile.py
--   Executor.Run        programs that call outside, return or raise, and the failure codes
--   Executor.Manifest   `_safe_path`, the boundary, the contract of an adapter, the manifest
--   Executor.Recovery   `_validate_checkpoint_shape`, `_recovery_context`, the recovery effects
--   Executor.Calls      what a run is given, the checks of the tree, and the answers at each site
--   Executor.Work       `run` from the lease on, for a builder and for a validator
--   Executor.Receipts   `run` where a receipt is there already
--   Executor.OneShot    `run` as a whole
--   Executor.Protocol, Executor.Order   the stages of a run, and readings of the order of its calls
--   Executor.Rules      reasoning about a program from the stage in which it starts
--   Executor.Quiet, Executor.Conformance, Executor.Validation, Executor.Claiming, Executor.Replaying,
--   Executor.Whole      the run by stages
--   Executor.Refusals, Executor.Readiness, Executor.Paths   runs that end early, what a run has checked
--                       when it claims, and the paths of a manifest
--   Executor.Steps, Executor.Refinement   the stages in terms of the calls, and the run's properties
--   Diagnostics         app/task_diagnostics.py, the report on a task, and beside it the claim
--   Cutover             scripts/evaluate_cutover_readiness.py, the evidence against its policy
--   Examples            a small pool on which the theorems run
--
-- The model. An operation takes the tables and gives its result and the tables after it: an
-- exception inside a transaction gives the tables before it. Every transaction of the store takes
-- the write lock first (BEGIN IMMEDIATE), so that threads and processes interleave as a history of
-- calls. The clock that the store is given is an argument: one instant for a transaction, also where
-- the code reads the clock more than once in it. An instant is a number of microseconds since the
-- epoch; a column of ISO text holds the instant it denotes, and the order that SQL finds among such
-- texts is `iso_le`; Store.Operations.Expiry has the texts themselves. The calls of app/work.py are taken one after another: what they check before
-- their transaction and what they write in it is one step. So is `heartbeat_worker`, which reads the
-- worker before its transaction.
--
-- Texts are lists of code points; case is mapped for ASCII letters. SHA-256 and the JSON of a digest
-- are parameters (`Encoding`), and the draws of `uuid4` are arguments of a claim. The numbers that
-- the interface bounds below by zero (priorities, issue numbers, limits of lanes) are naturals;
-- the lease seconds and the attempts that a caller may give are integers. The percentages of a
-- heartbeat are stored and never compared: numbers. A statement that updates a row by its primary
-- key updates the first row that has it; rows stand in the order of `rowid`. The unique indexes and
-- the triggers that a claim, a requeue or an enqueue may meet are modelled (`constraint_failed`).
--
-- A run of the executor is a program: calls of the worker interface, the adapter, the transport and
-- the lock, in order, and a value or a failure at the end. `run` makes each call at one site and at
-- most once, so that the answers are a record with a field for each site (`Replies`), an answer or
-- an exception of any kind, also where the code passes over it. The log of a run has the calls in
-- order, and of each whether it answered (`done`) or raised (`lost`). What is read of the working tree, the lease clock and the receipt file
-- is in the same record, and calls nothing that the pool may see. JSON values are typed: a key that
-- is absent or of another type is none, and the code of a malformed manifest (`manifest_schema`) does
-- not arise. Digests and the SHA-256 parts of identifiers are parameters. A call carries those of
-- its arguments that differ between sites; the fence that goes with each is the one of the lease.
--
-- Bounds. Every loop is structural recursion over a list of rows; there is no fuel.
--
-- Not modelled: the migrations of `_init`, foreign keys, pragmas and the second database backend
-- (app/postgres_authority.py); the event loop and the logging of app/reconcile.py; the read-only
-- connection of app/task_diagnostics.py; the HTTP interface, the rest of the native runtime, the
-- structured workers, the issue pipeline, GitHub, S3 and the other scripts, which are input
-- and output around the pool.
pub mod Base
pub mod Cutover
pub mod Diagnostics
pub mod Examples
pub mod Executor
pub mod Reconciler
pub mod Store
pub mod Work

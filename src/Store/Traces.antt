-- ===== src/Store/Traces.antt =====
-- Every call of app/store.py moves the rows of `tasks` along the step relation, and nothing else.
pub mod Workers
pub mod Watchdog
pub mod Claims
pub mod Effects
pub mod Admission
pub mod Calls

-- ===== src/Store/Histories.antt =====
-- What holds of the tasks after every history of calls of app/store.py.
pub mod Rows
pub mod Fencing

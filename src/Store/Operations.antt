-- ===== src/Store/Operations.antt =====
-- What the single operations of app/store.py guarantee.
pub mod Leases
pub mod Watchdog
pub mod Order
pub mod Claims
pub mod Replays
pub mod Effects
pub mod Expiry
pub mod Availability

-- ===== src/Control.antt =====
-- The control-plane store (api/store.py): its tables, and the operations on them. An operation
-- takes what it draws from the clock, from `uuid4` and from `secrets`, and gives the new state; an
-- exception leaves the state as it was, since the transaction is not committed.
pub mod Schema
pub mod Enrollment
pub mod Credentials
pub mod Evidence
pub mod Events
pub mod Alerts
pub mod Tasks
pub mod Config
pub mod Cases
pub mod Hunts
pub mod Listings

-- ===== src/Client.antt =====
-- ttlock_ble/client.py: `TTLockClient`, one command at a time under its command lock.
pub mod Act
pub mod Core
pub mod Lifecycle
pub mod Contract
pub mod Control
pub mod Settings
pub mod Clock
pub mod Info
pub mod Lists
pub mod Log
pub mod Events

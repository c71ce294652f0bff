-- ===== src/Models.antt =====
-- ttlock_ble/models: the records that several components share.
pub mod LockVersion
pub mod VirtualKey
pub mod LockFeature
pub mod LogOperate
pub mod LockEvent
pub mod Advertisement

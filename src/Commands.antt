-- ===== src/Commands.antt =====
-- ttlock_ble/commands: one module for each command family, and what their parsers may raise.
pub mod Raises
pub mod Parsers
pub mod Session
pub mod Control
pub mod Clock
pub mod AutoLock
pub mod Passcode
pub mod PasscodeList
pub mod Card
pub mod Fingerprint
pub mod LockSound
pub mod DeviceFeature
pub mod DeviceProperty
pub mod LogRecord
pub mod OperateLog

-- ===== src/Logging.antt =====
-- src/logging: redaction and the traffic log.
pub mod Mask
pub mod Messages
pub mod LogId
pub mod AppLog
pub mod TrafficLog
pub mod Filter
pub mod Tests

-- ===== src/Device.antt =====
-- device-management-service/src
pub mod Error
pub mod Store
pub mod Enrollment
pub mod Provisioning
pub mod Heartbeat
pub mod Telemetry
pub mod Server
pub mod Startup
pub mod Joining

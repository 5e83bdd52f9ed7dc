-- ===== src/Agent.antt =====
-- robot-agent: the program on a robot.
pub mod Error
pub mod Disk
pub mod Enrollment
pub mod Startup
pub mod Update
pub mod Backoff
pub mod Frame
pub mod Socket
pub mod Telemetry
pub mod Heartbeat

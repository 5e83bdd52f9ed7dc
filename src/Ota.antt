-- ===== src/Ota.antt =====
-- ota-service: update jobs and their dispatch to the robots that listen.
pub mod Error
pub mod Store
pub mod Dispatcher
pub mod Server
pub mod Startup

-- ===== src/Artifact.antt =====
-- artifact-store: the registry of firmware versions.
pub mod Error
pub mod Registry
pub mod Server
pub mod Storage
pub mod Startup

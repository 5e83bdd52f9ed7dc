-- ===== src/Tests.antt =====
-- The results at concrete inputs.
mod Fixtures
mod StoreTests
mod EnrollmentTests
mod DeviceTests
mod OtaTests
mod ArtifactTests
mod StorageTests
mod RegistryTests
mod AgentTests
mod RobotTests
mod RobotStartTests
mod StartupTests
mod JoiningTests
mod DispatchTests
mod CycleTests
mod ConcurrencyTests

-- ===== src/Lib.antt =====
-- robot-fleet: the services of a fleet of robots. A device is provisioned in the factory with a
-- certificate of the Device CA, enrolls once with it for a certificate of the Fleet CA, and then sends
-- heartbeats and telemetry and listens for updates, whose artifacts a third service registers.
--
-- Parts, and the files that model them:
--   Sql, Sql/*            what rusqlite and SQLite do for the stores: tables as lists of rows, single
--                         statements, BEGIN IMMEDIATE, COMMIT and ROLLBACK on one shared connection.
--                         A list of faults says which statements the engine fails and whether SQLite
--                         then rolls an open transaction back by itself; the theorems hold
--                         for every list unless they say that nothing fails.
--   Grpc                  the codes and statuses of tonic.
--   Pki, Pki/*            pki/src: `sign_csr`, `extract_serial`, `verify_signed_by` and the TLS
--                         configurations; rcgen, x509_parser, rustls_pemfile and rustls are the records
--                         of functions Rcgen, X509 and Rustls.
--   Device/Store, Device/Store/*    device-management-service/src/store: the tables and their
--                         statements (Rows), the methods of `SqliteDeviceStore`, one definition each,
--                         any sequence of calls of them, the machine of phases that they follow
--                         (Phases), and a COMMIT that fails (Stuck).
--   Device/Enrollment     device-management-service/src/enrollment: `bootstrap_enroll`, `renew_cert`.
--   Device/Enrollment/Concurrent    the same flow as a step relation in which the store calls of many
--                         handlers interleave.
--   Device/Provisioning   device-management-service/src/provisioning: `provision_device`.
--   Device/Heartbeat      device-management-service/src/heartbeat: `handle`.
--   Device/Telemetry      device-management-service/src/telemetry.rs: `stream_telemetry`.
--   Device/Startup        the factory manifest in device-management-service/src/main.rs.
--   Device/Joining        from a start of the service to a robot's heartbeats, through all its handlers.
--   Device/Store/Registry the devices without the order of their rows, a quotient.
--   Device/Server         device-management-service/src/server: the gRPC handlers.
--   Ota/Store             ota-service/src/store: `SqliteJobStore`.
--   Ota/Dispatcher        ota-service/src/dispatcher; tokio's broadcast channel is the record Broadcast.
--   Ota/Server            ota-service/src/server: the gRPC handlers on the store and the dispatcher.
--   Ota/Server/Concurrent           dispatches that overlap, as a step relation.
--   Artifact/Registry     artifact-store/src/registry: `SqliteRegistry`.
--   Artifact/Server       artifact-store/src/server: the gRPC handlers; presigning is a parameter.
--   Artifact/Storage      artifact-store/src/storage: `MinioStore`; the S3 client is the record S3.
--   Service               what the three `main.rs` have in common; the operating system and tonic are the
--                         record Host. Device/Startup/Ports, Ota/Startup and Artifact/Startup are
--                         their `main`, up to the point from which the servers run.
--   Agent/Enrollment      robot-agent/src/enrollment.rs, provisioning.rs and the phases of main.rs, on
--                         the directory of Agent/Disk; `generate_csr` of pki/src/csr.rs.
--   Agent/Startup         `main` of robot-agent/src/main.rs: the environment, the connections and what
--                         the three tasks are given.
--   Agent/Update          robot-agent/src/ota.rs: `apply_update`, `run_stream`; download, digest, tar
--                         and bash are the record Machine. Agent/Update/Cycle joins it with Ota/Server.
--   Agent/Backoff         the loops `run` of the robot's clients, which connect again with growing waits.
--   Agent/Heartbeat       robot-agent/src/heartbeat.rs: the readings from /proc, the directives.
--   Agent/Frame           `parse_frame` of robot-agent/src/telemetry.rs and its counterpart
--                         `_encode_frame` of simulator/controller/robot_controller.py.
--   Agent/Socket          the loop of robot-agent/src/telemetry.rs that reads the simulator's socket.
--   Agent/Telemetry       the rest of robot-agent/src/telemetry.rs; sine and cosine are a parameter.
--   Prelude/Bytes, Prelude/Split    big-endian numbers, and what Rust's `str` methods do.
--   Tests                 every result at a concrete input.
--
-- How the code is rendered: a method of a store holds the connection's mutex from its start to its end,
-- so that concurrent calls are a sequence of calls, and a method is a function from the connection to a
-- result and the connection after it. What a clock or a random generator returns is an argument. A
-- stream is the list of what it yields, and `room` bounds how many messages the other end takes. The
-- enrollment flow calls the store several times: Device/Enrollment has the flow of one handler, with
-- what others do before and after it, and Device/Enrollment/Concurrent has any interleaving; so has
-- Ota/Server/Concurrent for dispatches, which hold one lock for the job and one for the command. Texts
-- compare as SQLite's BINARY collation does. A float is its bit pattern, or the integers that it is
-- computed from; integers of 64 bits wrap around as in a release build.
--
-- Fuel: a client that walks the pages of `list_devices` or of a robot's jobs needs one page more than
-- there are rows; the loop that reads the socket needs one round more than there are bytes on it, since
-- each round that does not end the loop reads at least four.
--
-- Not modelled: the opening of the databases, the generated protocol code, the binding of the servers'
-- sockets, the spawning of the robot's tasks, the simulator's backends and the demo.
pub mod Prelude
pub mod Sql
pub mod Grpc
pub mod Service
pub mod Pki
pub mod Device
pub mod Ota
pub mod Artifact
pub mod Agent
pub mod Tests

-- ===== src/Daemon.antt =====
-- daemon/api/grpc: the services of the daemon, which let other programs use the client.
pub mod Types
pub mod Streams
pub mod FileService
pub mod DataService
pub mod Loss

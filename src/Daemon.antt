-- ===== src/Daemon.antt =====
-- apps/kittd/src/main.rs: the daemon.
pub mod Broadcaster
pub mod Conversions
pub mod Runtime
pub mod Access
pub mod Connections
pub mod Dispatch
pub mod Protocol
pub mod Serving
pub mod Requests

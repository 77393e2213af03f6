-- ===== src/Server.antt =====
-- The server of src/ptrim-server.cc: its table of devices, and what a client can do with them.
pub mod State
pub mod Run
pub mod Denied
pub mod Step
pub mod Handlers
pub mod Notified
pub mod Command
pub mod Info
pub mod Find
pub mod Shared
pub mod Threads
pub mod Connection
pub mod Told
pub mod Monitor
pub mod Removed
pub mod Announced
pub mod Added
pub mod Long
pub mod Talk
pub mod Session
pub mod Accept
pub mod Places
pub mod Denial
pub mod Farewell
pub mod Sound
pub mod Paths
pub mod Monitored
pub mod Dialogue

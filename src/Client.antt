-- ===== src/Client.antt =====
-- The session with one client (src/roq/proxy/fix/client/session.{hpp,cpp}), by its session id.
pub mod Connection
pub mod Deliver
pub mod Logon
pub mod Inbound
pub mod Read
pub mod Gate
pub mod Admission

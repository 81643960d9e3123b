-- ===== src/Server.antt =====
-- The session with the upstream fix-bridge (src/roq/proxy/fix/server/session.{hpp,cpp}).
pub mod Send
pub mod Inbound
pub mod Answers
pub mod Rejected
pub mod Delivered

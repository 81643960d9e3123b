-- ===== src/Auth.antt =====
-- The authentication service, which tells the proxy of users (src/roq/proxy/fix/auth/session.cpp).
pub mod Json
pub mod Session
pub mod Updates

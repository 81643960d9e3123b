-- ===== src/Message.antt =====
-- The FIX messages that the proxy takes apart or builds (roq::codec::fix). A record has the fields
-- that the proxy reads or sets; the others, which it passes on as they are, are `fields`.
pub mod Enums
pub mod Request
pub mod Response
pub mod Types

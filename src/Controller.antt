-- ===== src/Controller.antt =====
-- The controller (src/roq/proxy/fix/controller.cpp): what it does for the two kinds of session.
pub mod Disconnect
pub mod Utilities
pub mod Responses
pub mod Reports
pub mod Requests
pub mod Positions
pub mod OrderRequests
pub mod MassRequests
pub mod Subscribe
pub mod Ids
pub mod Delivery
pub mod Orders
pub mod Accepted
pub mod Forwarding
pub mod Unsubscribing
pub mod RoundTrip

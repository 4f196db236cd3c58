-- ===== src/Transport.antt =====
-- The transport package: internal/voip/transport.
pub mod Stun
pub mod Subscriptions

-- ===== src/Transport/Stun.antt =====
-- internal/voip/transport/stun.go: the STUN messages that the relays take.
pub mod Message
pub mod Parse
pub mod Classes
pub mod RoundTrip
pub mod Built

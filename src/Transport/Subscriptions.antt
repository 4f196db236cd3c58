-- ===== src/Transport/Subscriptions.antt =====
-- internal/voip/transport/subscriptions.go: the protobuf messages that tell a relay what is sent.
pub mod Encode
pub mod ReadBack

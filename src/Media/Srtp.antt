-- ===== src/Media/Srtp.antt =====
-- internal/voip/media/srtp.go: SRTP contexts.
pub mod Context
pub mod Replay
pub mod Window
pub mod Rollover
pub mod Protect
pub mod Datagram
pub mod RoundTrip
pub mod Session
pub mod Stream
pub mod Audio
pub mod Receive

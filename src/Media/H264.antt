-- ===== src/Media/H264.antt =====
-- internal/voip/media/h264.go: the H.264 payload format of RFC 6184.
pub mod Annexb
pub mod Packetize
pub mod Depacketize
pub mod Fields
pub mod RoundTrip
pub mod Unit
pub mod Split

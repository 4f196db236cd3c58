-- ===== src/Media.antt =====
-- The media package: internal/voip/media.
pub mod Rtp
pub mod Srtp
pub mod Rtcp
pub mod Srtcp
pub mod H264
pub mod Wav

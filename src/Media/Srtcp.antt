-- ===== src/Media/Srtcp.antt =====
-- internal/voip/media/srtcp.go: RTCP protected with the SRTCP keys of a call.
pub mod Context
pub mod RoundTrip

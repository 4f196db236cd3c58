-- ===== src/Media/Rtcp.antt =====
-- internal/voip/media/rtcp.go and rtcp_receiver.go: the RTCP reports of a call.
pub mod Build
pub mod Parse
pub mod RoundTrip
pub mod Receiver
pub mod Tracking

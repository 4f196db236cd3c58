-- ===== src/Media/Rtp.antt =====
-- internal/voip/media/rtp.go: RTP headers, packets and the sending session.
pub mod Header
pub mod Packet
pub mod HeaderTrip
pub mod PacketTrip
pub mod Session

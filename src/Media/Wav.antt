-- ===== src/Media/Wav.antt =====
-- internal/voip/media/wavparse.go and wavrecorder.go: WAV files of 16-bit samples.
pub mod Parse
pub mod Header
pub mod Walk
pub mod RoundTrip
pub mod Recorder
pub mod Recording

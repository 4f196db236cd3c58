-- ===== src/Codec/Red.antt =====
-- internal/voip/codec/mlow/red.go: the frames of a SplitRed payload.
pub mod Depack
pub mod Tiling

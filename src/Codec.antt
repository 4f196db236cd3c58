-- ===== src/Codec.antt =====
-- The codec packages: internal/voip/codec.
pub mod Red
pub mod Range
pub mod Toc

-- ===== src/Codec/Range.antt =====
-- The range coder of internal/voip/codec/mlow/rangecoder.go. A uint32 is a number below 2 ^ 32 and
-- an int32 its pattern of bits. A loop is given a number of rounds; `none` stands for a loop that
-- does not end in them, or for an index out of range.
pub mod Decoder
pub mod Normalize
pub mod Symbols
pub mod Invariant
pub mod Table
pub mod Encoder
pub mod RawBits
pub mod InStep
pub mod Uniform

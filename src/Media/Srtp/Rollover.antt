-- ===== src/Media/Srtp/Rollover.antt =====
-- The rollover counter of srtp.go: what the sender counts and what the receiver estimates.
use Prim.Native.Nat.{max}
use wa_calls.Base.{ℕ, ◌+◌, ◌*◌, ◌/◌, ◌^◌, ◌%◌, ◌<◌, ◌≡◌, ◌∙◌, true, arith}
use wa_calls.Base.Bits.{bit_or_fields}
use wa_calls.Bytes.{u16, u32, u64, IsU16, IsU32}
use wa_calls.Media.Srtp.Context.{
  SrtpContext, update_roc, estimate_roc, commit_roc, packet_index, index_of,
}

-- The 48-bit index that the rollover counter and a sequence number make.
pub index_of_lem : (roc seq : ℕ) → IsU32 roc → IsU16 seq → index_of roc seq ≡ roc * 65536 + seq
index_of_lem roc seq hr hs =
    let cut : u64 (roc * 2 ^ 16) ≡ roc * 2 ^ 16 = omega arith in
    rw cut (bit_or_fields 16 roc seq hs)

-- The index of the last packet that a context counted.
abbrev pub last_index : SrtpContext → ℕ
last_index c = c.roc * 65536 + c.last_seq

-- The sender's index of the next packet, whose sequence number is one more modulo 2^16, is one more
-- than the last packet's, also across the wrap, until the rollover counter is used up.
pub next_index :
    (c : SrtpContext)
    → c.initialized ≡ true
    → IsU16 c.last_seq
    → c.roc < 4294967295
    → let seq = u16 (c.last_seq + 1) in
      let c' = update_roc c seq in
      (packet_index c' seq ≡ last_index c + 1) × (last_index c' ≡ last_index c + 1)
unfolding update_roc packet_index
next_index c init hs hr = ground (
  arith,
  index_of_lem c.roc (u16 (c.last_seq + 1)),
  index_of_lem (u32 (c.roc + 1)) (u16 (c.last_seq + 1)),
)

-- A packet whose true index lies within 2^15 of the receiver's last index on either side is given
-- its true rollover counter, and so its true index.
estimate_roc_lem :
    (c : SrtpContext) (index : ℕ)
    → c.initialized ≡ true
    → IsU16 c.last_seq
    → c.roc < 4294967295
    → last_index c < index + 32768
    → index < last_index c + 32768
    → (estimate_roc c (index % 65536) ≡ index / 65536)
      × (index_of (estimate_roc c (index % 65536)) (index % 65536) ≡ index)
unfolding estimate_roc
estimate_roc_lem c index init hs hr low high = (roc_true, rw roc_true whole)
  where
    roc_true : estimate_roc c (index % 65536) ≡ index / 65536
    roc_true = ground arith

    whole : index_of (index / 65536) (index % 65536) ≡ index
    whole = index_of_lem (index / 65536) (index % 65536) (omega arith) (omega arith) ∙ omega arith

-- Committing such a packet makes the receiver's last index the larger of the two.
commit_roc_lem :
    (c : SrtpContext) (index : ℕ)
    → c.initialized ≡ true
    → IsU16 c.last_seq
    → c.roc < 4294967295
    → last_index c < index + 32768
    → index < last_index c + 32768
    → last_index (commit_roc c (estimate_roc c (index % 65536)) (index % 65536))
      ≡ max (last_index c) index
unfolding commit_roc
commit_roc_lem c index init hs hr low high =
    rw ((estimate_roc_lem c index init hs hr low high).0) (ground arith)

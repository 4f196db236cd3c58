-- ===== src/Media/Rtcp/Tracking.antt =====
-- What the receiver statistics count, against the packets' indices, of which the sequence numbers are
-- the low 16 bits.
use Prim.Native.Nat.{max}
use wa_calls.Base.{
  ℕ, ◌+◌, ◌-◌, ◌*◌, ◌/◌, ◌%◌, ◌≤◌, ◌<◌, ◌≡◌, ◌∙◌, ◌≢◌, ◌⊎◌, true, List, [], ◌∷◌, arith, length,
}
use wa_calls.Base.Bits.{bit_or_fields, bit_and_mask}
use wa_calls.Bytes.{u32, sub_u32}
use wa_calls.Media.Rtcp.Receiver.{
  RtcpReceiverStats, new_rtcp_receiver_stats, note_rtp, ext_high, expected_packets, report_block_of,
}

-- The receiver began with the index `first` and the highest since is `high`.
pub record IsTracking (r : RtcpReceiverStats) (first high : ℕ) : Type 0 where
  pub started : r.init_seq ≡ true
  pub base : r.base_seq ≡ first
  pub cycle : r.cycles ≡ high / 65536 * 65536
  pub low : r.max_seq ≡ high % 65536
  pub above : first ≤ high
  pub fits : high < 4294967296

-- A packet ahead by 2^15 at most, or behind by less and in the cycle of the highest.
abbrev IsTimely : ℕ → ℕ → Type 0
IsTimely high i =
    (i < 4294967296)
    × (((high < i) × (i ≤ high + 32768))
        ⊎ ((i ≤ high) × (high < i + 32768) × (i / 65536 ≡ high / 65536)))

note_rtp-IsTracking :
    (r : RtcpReceiverStats) (first high i : ℕ)
    → IsTracking r first high
    → IsTimely high i
    → IsTracking (note_rtp r (i % 65536)) first (max high i)
unfolding note_rtp
note_rtp-IsTracking r first high i t h = ground (arith, t)

pub note_all : RtcpReceiverStats → List ℕ → RtcpReceiverStats
note_all r [] = r
note_all r (i ∷ is) = note_all (note_rtp r (i % 65536)) is

abbrev pub highest : ℕ → List ℕ → ℕ
highest high [] = high
highest high (i ∷ is) = highest (max high i) is

abbrev pub AreTimely : ℕ → List ℕ → Type 0
AreTimely high [] = Unit
AreTimely high (i ∷ is) = IsTimely high i × AreTimely (max high i) is

note_all-IsTracking :
    (r : RtcpReceiverStats) (first high : ℕ) (is : List ℕ)
    → IsTracking r first high
    → AreTimely high is
    → r.received < 4294967296
    → IsTracking (note_all r is) first (highest high is)
      × ((note_all r is).received ≡ u32 (r.received + length is))
unfolding note_all
note_all-IsTracking r first high [] t h few = (t, omega arith)
note_all-IsTracking r first high (i ∷ is) t (now, later) few =
    let (t', count) =
      note_all-IsTracking (note_rtp r (i % 65536)) first (max high i) is
        (note_rtp-IsTracking r first high i t now) later (unfold note_rtp in omega arith) in
    (t', count ∙ unfold note_rtp in omega arith)

ext_high-IsTracking :
    (r : RtcpReceiverStats) (first high : ℕ) → IsTracking r first high → ext_high r ≡ high
ext_high-IsTracking r first high t =
    rw (t.cycle, t.low) (bit_or_fields 16 (high / 65536) (high % 65536) (omega arith) ∙ omega arith)

first-IsTracking :
    (first : ℕ) → first < 65536 → IsTracking (note_rtp new_rtcp_receiver_stats first) first first
unfolding note_rtp
first-IsTracking first h = ground arith

expected_packets-IsTracking :
    (r : RtcpReceiverStats) (first high : ℕ)
    → IsTracking r first high
    → expected_packets r ≡ u32 (high - first + 1)
expected_packets-IsTracking r first high t =
    rw (t.started, ext_high-IsTracking r first high t, t.base) (omega (arith, t.above, t.fits))

-- After a first packet and any others that are timely, with no more packets than indices from the
-- first to the highest, the report block has the highest index as its extended highest sequence
-- number, and as its loss the number of those indices less the number of packets, in 24 bits.
pub report_block_of-note_all :
    (first : ℕ) (is : List ℕ) (peer_ssrc now_ms jitter : ℕ)
    → first < 65536
    → AreTimely first is
    → length is ≤ highest first is - first
    → let r = note_all (note_rtp new_rtcp_receiver_stats first) is in
      ((report_block_of r peer_ssrc now_ms jitter).1.ext_high_seq ≡ highest first is)
      × ((report_block_of r peer_ssrc now_ms jitter).1.cumulative_lost
          ≡ (highest first is - first - length is) % 16777216)
unfolding report_block_of
report_block_of-note_all first is peer_ssrc now_ms jitter h timely few =
    let r0 = note_rtp new_rtcp_receiver_stats first in
    let (t, count) =
      note_all-IsTracking r0 first first is (first-IsTracking first h) timely
        (unfold note_rtp in omega arith) in
    let r = note_all r0 is in
    let top = ext_high-IsTracking r first (highest first is) t in
    (
      top,
      bit_and_mask 24 (sub_u32 (expected_packets r) r.received)
          ∙ rw (expected_packets-IsTracking r first (highest first is) t, count)
              (unfold note_rtp in omega (arith, t.above, t.fits)),
    )

-- A packet that is late across a wrap of the sequence number, by less than 2^15, is taken for one
-- ahead: the extended highest sequence number becomes its index plus 65536, which is above the highest
-- index received by more than 2^15.
pub note_rtp_late :
    (r : RtcpReceiverStats) (first high i : ℕ)
    → IsTracking r first high
    → i < high
    → high < i + 32768
    → i / 65536 ≢ high / 65536
    → (ext_high (note_rtp r (i % 65536)) ≡ i + 65536) × (high + 32768 < i + 65536)
unfolding note_rtp
note_rtp_late r first high i t before recent wrapped =
    (ground (arith, t, bit_or_fields 16 (high / 65536) (i % 65536)), omega arith)

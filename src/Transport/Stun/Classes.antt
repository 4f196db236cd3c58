-- ===== src/Transport/Stun/Classes.antt =====
-- The packet classes of stun.go, and what they make of the packets of rtp.go.
use wa_calls.Base.{
  ℕ, ◌*◌, ◌≤◌, ◌≡◌, Bool, true, false, ◌||◌, List, ◌++◌, if◌then◌else◌, ltb, ◌==◌, length, bit_and,
  arith, ◌↔◌, ◌<◌, ◌/◌, refl,
}
use wa_calls.Base.Bits.{all_below, all_below_lem}
use wa_calls.Bytes.{byte_at}
use wa_calls.Media.Rtp.Header.{RtpHeader, fixed_bytes, first_byte}
use wa_calls.Media.Rtp.HeaderTrip.{first_byte_lem, bool_bit-le, IsWellFormed, header_bytes}

pub is_stun_packet : List ℕ → Bool
is_stun_packet d = if ltb (length d) 2 then false else bit_and (byte_at d 0) 0xc0 == 0

pub is_rtp_packet : List ℕ → Bool
is_rtp_packet d = if ltb (length d) 2 then false else bit_and (byte_at d 0) 0xc0 == 0x80

pub is_rtcp_packet : List ℕ → Bool
is_rtcp_packet d = if ltb (length d) 2 then false else byte_at d 0 == 0x80 || byte_at d 0 == 0x81

top_bits_table : all_below 256 (λ b. bit_and b 0xc0 == b / 64 * 64) ≡ true
unfolding all_below
top_bits_table = refl

top_bits : (b : ℕ) → b < 256 → bit_and b 0xc0 ≡ b / 64 * 64
top_bits b h =
    ground (arith, all_below_lem 256 (λ b. bit_and b 0xc0 == b / 64 * 64) b top_bits_table)

-- The bytes that RtpHeader.Encode writes are of the RTP class and not of the STUN class, and are taken
-- for RTCP exactly when the header has no padding, no extension, and one contributing source at most.
pub is_rtcp_packet-header_bytes_iff :
    (h : RtpHeader) (rest : List ℕ)
    → IsWellFormed h
    → (is_rtp_packet (header_bytes h ++ rest) ≡ true)
      × (is_stun_packet (header_bytes h ++ rest) ≡ false)
      × ((is_rtcp_packet (header_bytes h ++ rest) ≡ true)
          ↔ ((h.padding ≡ false) × (h.extension ≡ false) × (length h.csrc ≤ 1)))
unfolding is_rtp_packet is_stun_packet is_rtcp_packet fixed_bytes
is_rtcp_packet-header_bytes_iff h rest w =
    let byte = first_byte_lem h w in
    let p = bool_bit-le h.padding in
    let x = bool_bit-le h.extension in
    let top = top_bits (first_byte h) (omega (arith, w)) in ground (arith, byte, top, w)

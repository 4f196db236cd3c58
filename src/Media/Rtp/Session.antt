-- ===== src/Media/Rtp/Session.antt =====
-- The numbers that a sending session gives its packets.
use wa_calls.Base.{ℕ, ◌+◌, ◌<◌, ◌≡◌, Bool, List, [], ◌∷◌, arith}
use wa_calls.Bytes.{u16, u32, IsU16, IsU32}
use wa_calls.Media.Rtp.Header.{new_rtp_header}
use wa_calls.Media.Rtp.HeaderTrip.{IsWellFormed}
use wa_calls.Media.Rtp.Packet.{
  RtpPacket, RtpSession, create_packet, create_packet_at, create_packet_with_duration,
}

pub record IsInRange (s : RtpSession) : Type 0 where
  pub ssrc_fits : IsU32 s.ssrc
  pub type_fits : s.payload_type < 128
  pub sequence_fits : IsU16 s.sequence_number
  pub timestamp_fits : IsU32 s.timestamp

-- Every packet that a session builds has a well-formed header, and the session stays in range.
pub create_packet-IsWellFormed :
    (s : RtpSession) (payload : List ℕ) (duration : ℕ) (marker : Bool)
    → IsInRange s
    → IsWellFormed (create_packet_with_duration s payload duration marker).1.header
      × IsInRange (create_packet_with_duration s payload duration marker).0
unfolding create_packet_with_duration new_rtp_header
create_packet-IsWellFormed s payload duration marker r = ground arith

pub create_packet_at-IsWellFormed :
    (s : RtpSession) (payload : List ℕ) (ts : ℕ) (marker : Bool)
    → IsInRange s
    → IsU32 ts
    → IsWellFormed (create_packet_at s payload ts marker).1.header
      × IsInRange (create_packet_at s payload ts marker).0
unfolding create_packet_at new_rtp_header
create_packet_at-IsWellFormed s payload ts marker r h = ground arith

-- The packets of a list of payloads, in order.
unfoldable pub create_packets : RtpSession → List (List ℕ × Bool) → List RtpPacket
create_packets s [] = []
create_packets s ((payload, marker) ∷ rest) =
    let (s', p) = create_packet s payload marker in p ∷ create_packets s' rest

-- `Numbered seq ts step ps`: consecutive sequence numbers mod 2^16 and timestamps mod 2^32.
abbrev pub IsNumbered : ℕ → ℕ → ℕ → List RtpPacket → Type 0
IsNumbered seq ts step [] = Unit {0}
IsNumbered seq ts step (p ∷ ps) =
    (p.header.sequence_number ≡ u16 seq)
    × (p.header.timestamp ≡ u32 ts)
    × IsNumbered (seq + 1) (ts + step) step ps

IsNumbered-wrap :
    (seq seq' ts ts' step : ℕ) (ps : List RtpPacket)
    → u16 seq ≡ u16 seq'
    → u32 ts ≡ u32 ts'
    → IsNumbered seq ts step ps
    → IsNumbered seq' ts' step ps
IsNumbered-wrap seq seq' ts ts' step [] p q n = tt
IsNumbered-wrap seq seq' ts ts' step (x ∷ xs) p q (a, b, n) = (
  omega arith,
  omega arith,
  IsNumbered-wrap (seq + 1) (seq' + 1) (ts + step) (ts' + step) step xs (omega arith) (omega arith)
      n,
)

-- The packets of CreatePacket carry consecutive sequence numbers and timestamps that advance by
-- SamplesPerPacket, both across the wrap of their 16 and 32 bits, for as many as are sent.
pub create_packets-IsNumbered :
    (s : RtpSession) (payloads : List (List ℕ × Bool))
    → IsInRange s
    → s.samples_per_packet < 4294967296
    → IsNumbered s.sequence_number s.timestamp s.samples_per_packet (create_packets s payloads)
unfolding create_packets create_packet new_rtp_header
create_packets-IsNumbered s [] r h = tt
create_packets-IsNumbered s ((payload, marker) ∷ rest) r h = (
  omega (arith, r),
  omega (arith, r),
  IsNumbered-wrap _ _ _ _ s.samples_per_packet _ (omega arith) (omega arith)
      (create_packets-IsNumbered (create_packet s payload marker).0 rest (ground (arith, r)) h),
)

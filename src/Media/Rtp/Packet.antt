-- ===== src/Media/Rtp/Packet.antt =====
-- RtpPacket and RtpSession of rtp.go. The random start of a session is an argument.
use wa_calls.Base.{ℕ, ◌+◌, Bool, List, ◌++◌, length, take, drop, ◌-◌, if◌then◌else◌, ltb}
use wa_calls.Bytes.{u16, u32, zeros, get_u32}
use wa_calls.Media.Rtp.Header.{
  Result, ok, err, panics, RtpHeader, new_rtp_header, size, encode, decode_rtp_header,
}

pub record RtpPacket : Type 0 where
  pub header : RtpHeader
  pub payload : List ℕ

unfoldable pub packet_size : RtpPacket → ℕ
packet_size p = size p.header + length p.payload

infixl 5 ◌>>=◌
abbrev pub ◌>>=◌ {ℓ κ} : {A : Type ℓ} {B : Type κ} → Result A → (A → Result B) → Result B
ok a >>= f = f a
err e >>= f = err e
panics >>= f = panics

-- `copy(buf[at:], src)`: what does not fit is dropped.
abbrev pub copy_at : List ℕ → ℕ → List ℕ → List ℕ
copy_at buf at src = take at buf ++ (take (length buf - at) src ++ drop (at + length src) buf)

unfoldable pub encode_packet : RtpPacket → Result (List ℕ)
encode_packet p = do
  (buf, header_size) ← encode p.header (zeros (packet_size p))
  ok (copy_at buf header_size p.payload)

-- `buf[header.Size():]` panics where the size passes the end.
unfoldable pub decode_packet : List ℕ → Result RtpPacket
decode_packet buf = do
  header ← decode_rtp_header buf
  if ltb (length buf) (size header)
      then panics
      else ok (record { header = header; payload = drop (size header) buf })

pub record RtpSession : Type 0 where
  pub ssrc : ℕ
  pub payload_type : ℕ
  pub sequence_number : ℕ
  pub sample_rate : ℕ
  pub timestamp : ℕ
  pub samples_per_packet : ℕ

-- The random numbers of `randUint` are `seq` and `ts`.
unfoldable new_rtp_session : ℕ → ℕ → ℕ → ℕ → ℕ → ℕ → RtpSession
new_rtp_session ssrc payload_type sample_rate samples seq ts = record {
  ssrc = ssrc;
  payload_type = payload_type;
  sequence_number = u16 seq;
  sample_rate = sample_rate;
  timestamp = u32 ts;
  samples_per_packet = samples;
}

unfoldable new_whatsapp_opus_session : ℕ → ℕ → ℕ → RtpSession
new_whatsapp_opus_session ssrc seq ts = new_rtp_session ssrc 120 16000 960 seq ts

unfoldable new_whatsapp_h264_session : ℕ → ℕ → ℕ → RtpSession
new_whatsapp_h264_session ssrc seq ts = new_rtp_session ssrc 97 90000 0 seq ts

abbrev marked : RtpHeader → Bool → RtpHeader
marked h m = record h { marker = m }

unfoldable pub create_packet_at : RtpSession → List ℕ → ℕ → Bool → RtpSession × RtpPacket
create_packet_at s payload ts marker =
    let header = marked (new_rtp_header s.payload_type s.sequence_number ts s.ssrc) marker in
    (
      record s { sequence_number = u16 (s.sequence_number + 1) },
      record { header = header; payload = payload },
    )

unfoldable pub create_packet_with_duration : RtpSession → List ℕ → ℕ → Bool → RtpSession × RtpPacket
create_packet_with_duration s payload duration marker =
    let header =
      marked (new_rtp_header s.payload_type s.sequence_number s.timestamp s.ssrc) marker in
    (
      record s {
        sequence_number = u16 (s.sequence_number + 1);
        timestamp = u32 (s.timestamp + u32 duration);
      },
      record { header = header; payload = payload },
    )

unfoldable pub create_packet : RtpSession → List ℕ → Bool → RtpSession × RtpPacket
unfolding create_packet_with_duration
create_packet s payload marker = create_packet_with_duration s payload s.samples_per_packet marker

unfoldable advance_timestamp : RtpSession → ℕ → RtpSession
advance_timestamp s samples = record s { timestamp = u32 (s.timestamp + samples) }

-- RTPSsrc indexes data[8] to data[11]; its callers check that data has 12 bytes.
unfoldable pub rtp_ssrc : List ℕ → ℕ
rtp_ssrc buf = get_u32 (drop 8 buf)

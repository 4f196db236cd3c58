-- ===== src/Media/Rtcp/Build.antt =====
-- The Build functions of rtcp.go. A string is its list of bytes.
use wa_calls.Base.{
  ℕ, ◌+◌, ◌-◌, ◌*◌, ◌/◌, ◌%◌, Option, none, some, List, [], ◌∷◌, ◌++◌, length, bit_or,
}
use wa_calls.Bytes.{u8, u16, u32, put_u16, put_u32, zeros}

abbrev pub rtcp_payload_type_sr : ℕ
rtcp_payload_type_sr = 200

abbrev pub rtcp_payload_type_rr : ℕ
rtcp_payload_type_rr = 201

abbrev rtcp_payload_type_sdes : ℕ
rtcp_payload_type_sdes = 202

abbrev rtcp_payload_type_compact : ℕ
rtcp_payload_type_compact = 208

abbrev rtcp_payload_type_compact2 : ℕ
rtcp_payload_type_compact2 = 209

abbrev ntp_unix_offset_secs : ℕ
ntp_unix_offset_secs = 2208988800

pub record RtcpSenderStats : Type 0 where
  pub packets_sent : ℕ
  pub octets_sent : ℕ
  pub rtp_timestamp : ℕ

pub record RtcpReportBlock : Type 0 where
  pub ssrc : ℕ
  pub fraction_lost : ℕ
  pub cumulative_lost : ℕ  -- 24 bits of 32
  pub ext_high_seq : ℕ
  pub jitter : ℕ
  pub lsr : ℕ
  pub dlsr : ℕ

unfoldable pub build_compact208 : ℕ → ℕ → List ℕ
build_compact208 local remote =
    0x81 ∷ rtcp_payload_type_compact ∷ 0 ∷ 2 ∷ (put_u32 local ++ put_u32 remote)

unfoldable pub build_compact209 : ℕ → List ℕ
build_compact209 local = 0x81 ∷ rtcp_payload_type_compact2 ∷ 0 ∷ 1 ∷ put_u32 local

-- `nowMs/1000 + ntpUnixOffsetSecs` of uint64 does not wrap: it is below 2^54 + 2^32.
pub ntp_sec : ℕ → ℕ
ntp_sec now_ms = u32 (now_ms / 1000 + ntp_unix_offset_secs)

-- `uint32(float64(nowMs%1000) / 1000.0 * 4294967296.0)`. Of the thousand quotients those that are not
-- exact are 1/125 or more away from an integer after the multiplication, which is by a power of two,
-- so that the rounding of the division does not show.
unfoldable pub ntp_frac : ℕ → ℕ
ntp_frac now_ms = now_ms % 1000 * 4294967296 / 1000

abbrev pub sender_info : RtcpSenderStats → ℕ → List ℕ
sender_info s now_ms =
    put_u32 (ntp_sec now_ms)
    ++ (put_u32 (ntp_frac now_ms)
        ++ (put_u32 s.rtp_timestamp ++ (put_u32 s.packets_sent ++ put_u32 s.octets_sent)))

unfoldable build_sender_report : ℕ → RtcpSenderStats → ℕ → List ℕ
build_sender_report local s now_ms =
    0x80 ∷ rtcp_payload_type_sr ∷ 0 ∷ 6 ∷ (put_u32 local ++ sender_info s now_ms)

unfoldable pub block_bytes : RtcpReportBlock → List ℕ
block_bytes rb =
    put_u32 rb.ssrc
    ++ (rb.fraction_lost
        ∷ (rb.cumulative_lost / 65536 % 256)
        ∷ (rb.cumulative_lost / 256 % 256)
        ∷ (rb.cumulative_lost % 256)
        ∷ (put_u32 rb.ext_high_seq ++ (put_u32 rb.jitter ++ (put_u32 rb.lsr ++ put_u32 rb.dlsr))))

-- `uint16(size/4-1)`, with size 28 or 52.
unfoldable pub build_sender_report_with_block :
    ℕ → RtcpSenderStats → Option RtcpReportBlock → ℕ → List ℕ
build_sender_report_with_block local s none now_ms =
    bit_or 0x80 0
    ∷ rtcp_payload_type_sr
    ∷ (put_u16 (28 / 4 - 1) ++ (put_u32 local ++ sender_info s now_ms))
build_sender_report_with_block local s (some rb) now_ms =
    bit_or 0x80 1
    ∷ rtcp_payload_type_sr
    ∷ (put_u16 (52 / 4 - 1) ++ (put_u32 local ++ (sender_info s now_ms ++ block_bytes rb)))

-- The chunk before its padding.
abbrev pub sdes_item : ℕ → List ℕ → List ℕ
sdes_item ssrc cname = put_u32 ssrc ++ (0x01 ∷ u8 (length cname) ∷ (cname ++ 0x00 ∷ []))

abbrev pub sdes_chunk : ℕ → List ℕ → List ℕ
sdes_chunk ssrc cname =
    let item = sdes_item ssrc cname in item ++ zeros ((4 - (4 + length item) % 4) % 4)

unfoldable pub build_sdes : ℕ → List ℕ → List ℕ
build_sdes ssrc cname =
    let chunk = sdes_chunk ssrc cname in
    0x81 ∷ rtcp_payload_type_sdes ∷ (put_u16 (u16 ((4 + length chunk) / 4 - 1)) ++ chunk)

unfoldable pub build_rtcp_compound :
    ℕ → RtcpSenderStats → Option RtcpReportBlock → List ℕ → ℕ → List ℕ
build_rtcp_compound local s rb cname now_ms =
    build_sender_report_with_block local s rb now_ms ++ build_sdes local cname

-- ===== src/Media/Rtcp/Parse.antt =====
-- ParseRTCPSenderSSRC and ParseRTCPCompound of rtcp.go. The offset into the data is a suffix of it.
use wa_calls.Base.{
  ℕ, zero, suc, ◌+◌, ◌*◌, ◌/◌, Bool, true, false, ◌||◌, not, Option, none, some, List, [], ◌∷◌,
  ◌++◌, if◌then◌else◌, ltb, leb, ◌==◌, length, take, drop, bit_and,
}
use wa_calls.Bytes.{byte_at, get_u16, get_u32}
use wa_calls.Media.Rtcp.Build.{rtcp_payload_type_sr, rtcp_payload_type_rr}

unfoldable parse_rtcp_sender_ssrc : List ℕ → Option ℕ
parse_rtcp_sender_ssrc d =
    if ltb (length d) 8 || not (bit_and (byte_at d 0 / 64) 0x03 == 2)
    then none
    else some (get_u32 (drop 4 d))

pub record InboundReportBlock : Type 0 where
  pub ssrc : ℕ
  pub fraction_lost : ℕ
  pub cumulative_lost : ℕ
  pub ext_high_seq : ℕ
  pub jitter : ℕ
  pub lsr : ℕ
  pub dlsr : ℕ

pub record InboundRtcp : Type 0 where
  pub has_sr : Bool
  pub sr_ntp_mid : ℕ
  pub blocks : List InboundReportBlock

unfoldable pub report_block : List ℕ → InboundReportBlock
report_block p = record {
  ssrc = get_u32 p;
  fraction_lost = byte_at p 4;
  cumulative_lost = byte_at p 5 * 65536 + byte_at p 6 * 256 + byte_at p 7;
  ext_high_seq = get_u32 (drop 8 p);
  jitter = get_u32 (drop 12 p);
  lsr = get_u32 (drop 16 p);
  dlsr = get_u32 (drop 20 p);
}

-- The loop over rc blocks, `b` being `b[i*24:]`.
unfoldable pub parse_report_blocks : ℕ → List ℕ → List InboundReportBlock
parse_report_blocks zero b = []
parse_report_blocks (suc rc) b =
    let rest = parse_report_blocks rc (drop 24 b) in
    if ltb (length b) 24 then [] else report_block b ∷ rest

-- The switch on the packet type; `p` is data[off:off+pktLen].
unfoldable pub take_report : InboundRtcp → ℕ → ℕ → List ℕ → InboundRtcp
take_report out rc pt p =
    if pt == rtcp_payload_type_sr
    then (if leb 28 (length p)
        then record {
          has_sr = true;
          sr_ntp_mid = get_u32 (drop 10 p);
          blocks = out.blocks ++ parse_report_blocks rc (drop 28 p);
        }
        else out)
    else if pt == rtcp_payload_type_rr
    then (if leb 8 (length p)
        then record out { blocks = out.blocks ++ parse_report_blocks rc (drop 8 p) }
        else out)
    else out

-- Each round takes four bytes at least, so the data's length is enough fuel.
unfoldable pub parse_loop : ℕ → InboundRtcp → List ℕ → InboundRtcp
parse_loop zero out d = out
parse_loop (suc fuel) out d =
    let n = (get_u16 (drop 2 d) + 1) * 4 in
    let next = take_report out (bit_and (byte_at d 0) 0x1f) (byte_at d 1) (take n d) in
    let rest = parse_loop fuel next (drop n d) in
    if ltb (length d) 4
    then out
    else if not (bit_and (byte_at d 0 / 64) 0x03 == 2)
    then out
    else if ltb n 4 || ltb (length d) n
    then out
    else rest

unfoldable pub parse_rtcp_compound : List ℕ → InboundRtcp
parse_rtcp_compound d =
    parse_loop (length d) (record { has_sr = false; sr_ntp_mid = 0; blocks = [] }) d

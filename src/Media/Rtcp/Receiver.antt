-- ===== src/Media/Rtcp/Receiver.antt =====
-- RTCPReceiverStats of rtcp_receiver.go, less its floating-point fields: the jitter of a report block
-- is an argument, and the value of the round-trip time is left out.
use wa_calls.Base.{
  ℕ, ◌+◌, ◌-◌, ◌*◌, ◌/◌, ◌^◌, Bool, true, false, ◌&&◌, ◌||◌, not, if◌then◌else◌, ltb, leb, ◌==◌,
  bit_and, bit_or,
}
use wa_calls.Bytes.{u8, u32, sub_u32, u64}
use wa_calls.Media.Rtcp.Build.{RtcpReportBlock, ntp_sec, ntp_frac}

pub record RtcpReceiverStats : Type 0 where
  pub base_seq : ℕ
  pub max_seq : ℕ
  pub cycles : ℕ
  pub received : ℕ
  pub init_seq : Bool
  pub expect_prev : ℕ
  pub recv_prev : ℕ
  pub lsr : ℕ
  pub lsr_arrival : ℕ
  pub has_rtt : Bool
  pub rtt_samples : ℕ
  pub peer_fraction_lost : ℕ

abbrev pub new_rtcp_receiver_stats : RtcpReceiverStats
new_rtcp_receiver_stats = record {
  base_seq = 0;
  max_seq = 0;
  cycles = 0;
  received = 0;
  init_seq = false;
  expect_prev = 0;
  recv_prev = 0;
  lsr = 0;
  lsr_arrival = 0;
  has_rtt = false;
  rtt_samples = 0;
  peer_fraction_lost = 0;
}

-- The first part of NoteRTP, without `r.received++`.
abbrev note_seq : RtcpReceiverStats → ℕ → RtcpReceiverStats
note_seq r seq =
    if not r.init_seq
    then record r { base_seq = seq; max_seq = seq; init_seq = true }
    else if ltb seq r.max_seq && ltb (r.max_seq - seq) 0x8000
    then r
    else record r {
      cycles = if ltb seq r.max_seq then u32 (r.cycles + 0x10000) else r.cycles;
      max_seq = seq;
    }

unfoldable pub note_rtp : RtcpReceiverStats → ℕ → RtcpReceiverStats
note_rtp r seq = record (note_seq r seq) { received = u32 (r.received + 1) }

unfoldable note_sender_report : RtcpReceiverStats → ℕ → ℕ → RtcpReceiverStats
note_sender_report r ntp_mid arrival_ms = record r { lsr = ntp_mid; lsr_arrival = arrival_ms }

unfoldable mid32 : ℕ → ℕ
mid32 now_ms = bit_or (u32 (ntp_sec now_ms * 2 ^ 16)) (ntp_frac now_ms / 2 ^ 16)

unfoldable note_peer_report_block : RtcpReceiverStats → ℕ → ℕ → ℕ → ℕ → RtcpReceiverStats
note_peer_report_block r lsr dlsr fraction_lost now_ms =
    let r' = record r { peer_fraction_lost = fraction_lost } in
    let a = mid32 now_ms in
    if lsr == 0
    then r'
    else if ltb a lsr || ltb (a - lsr) dlsr
    then r'
    else record r' { has_rtt = true; rtt_samples = u32 (r.rtt_samples + 1) }

abbrev pub ext_high : RtcpReceiverStats → ℕ
ext_high r = bit_or r.cycles r.max_seq

abbrev pub expected_packets : RtcpReceiverStats → ℕ
expected_packets r = if r.init_seq then u32 (sub_u32 (ext_high r) r.base_seq + 1) else 0

-- `lostInterval > 0` of int64 is that fewer packets were received than expected.
abbrev fraction_of : ℕ → ℕ → ℕ
fraction_of expected_interval received_interval =
    if ltb received_interval expected_interval
    then u8 ((expected_interval - received_interval) * 256 / expected_interval)
    else 0

unfoldable pub report_block_of : RtcpReceiverStats → ℕ → ℕ → ℕ → RtcpReceiverStats × RtcpReportBlock
report_block_of r peer_ssrc now_ms jitter =
    let expected = expected_packets r in
    (
      record r { expect_prev = expected; recv_prev = r.received },
      record {
        ssrc = peer_ssrc;
        fraction_lost =
            fraction_of (sub_u32 expected r.expect_prev) (sub_u32 r.received r.recv_prev);
        cumulative_lost = bit_and (sub_u32 expected r.received) 0xffffff;
        ext_high_seq = ext_high r;
        jitter = jitter;
        lsr = r.lsr;
        dlsr =
            if not (r.lsr == 0) && leb r.lsr_arrival now_ms
            then u32 (u64 ((now_ms - r.lsr_arrival) * 65536) / 1000)
            else 0;
      },
    )

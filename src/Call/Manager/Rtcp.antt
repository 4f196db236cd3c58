-- ===== src/Call/Manager/Rtcp.antt =====
-- callmanager_rtcp.go: the RTCP that goes out. A tick gives the datagrams that it broadcasts. What the
-- sending of frames has counted, the clock and the jitter are arguments. Protect does not panic.
use wa_calls.Base.{
  ℕ, ◌+◌, ◌/◌, ◌%◌, Option, none, some, List, [], ◌∷◌, ◌++◌, if◌then◌else◌, ltb, leb,
}
use wa_calls.Bytes.{u32}
use wa_calls.Media.Srtp.Protect.{SrtpResult, ok, err, panics}
use wa_calls.Media.Srtcp.Context.{SrtcpContext, srtcp_protect}
use wa_calls.Media.Rtcp.Build.{
  RtcpSenderStats, RtcpReportBlock, build_compact208, build_compact209, build_rtcp_compound,
}
use wa_calls.Media.Rtcp.Receiver.{RtcpReceiverStats, report_block_of}
use wa_calls.Call.Manager.Jids.{first_ssrc}
use wa_calls.Call.Manager.State.{CallManager}
use wa_calls.Call.Manager.Keys.{Env}

-- The byte of a digit of `%x`.
abbrev pub hex_digit : ℕ → ℕ
hex_digit d = if ltb d 10 then 48 + d else 87 + d

-- rtcpCName, `%08x@wacalls` of the SSRC.
unfoldable pub rtcp_cname_bytes : Option ℕ → List ℕ
rtcp_cname_bytes none = []
rtcp_cname_bytes (some ssrc) =
    hex_digit (ssrc / 0x10000000 % 16)
    ∷ hex_digit (ssrc / 0x1000000 % 16)
    ∷ hex_digit (ssrc / 0x100000 % 16)
    ∷ hex_digit (ssrc / 0x10000 % 16)
    ∷ hex_digit (ssrc / 0x1000 % 16)
    ∷ hex_digit (ssrc / 0x100 % 16)
    ∷ hex_digit (ssrc / 0x10 % 16)
    ∷ hex_digit (ssrc % 16)
    ∷ 64
    ∷ 119
    ∷ 97
    ∷ 99
    ∷ 97
    ∷ 108
    ∷ 108
    ∷ 115
    ∷ []

-- What rtpPacketsSent and the other counters say of our two streams.
pub record Counters : Type 0 where
  pub audio : RtcpSenderStats
  pub video : RtcpSenderStats

abbrev pub Sent : Type 0
Sent = CallManager × List (List ℕ)

abbrev pub broadcast_of : SrtpResult (List ℕ) → List (List ℕ)
broadcast_of (ok d) = d ∷ []
broadcast_of (err e) = []
broadcast_of panics = []

-- The block of our report on a peer's stream; making it moves the statistics on.
abbrev pub block_for :
    CallManager → Option RtcpReceiverStats → ℕ → ℕ → ℕ → CallManager × Option RtcpReportBlock
block_for m none peer now jitter = (m, none)
block_for m (some r) peer now jitter =
    let b = report_block_of r peer now jitter in
    if leb peer 0 then (m, none) else (record m { recv_stats = some b.0 }, some b.1)

module _ (env : Env) (c : SrtcpContext) where
  -- protectAndBroadcastLocked, with nextSrtcpIndexLocked: the index is used up also if Protect fails.
  unfoldable pub protect_and_broadcast : Sent → List ℕ → Sent
  protect_and_broadcast (m, sent) rtcp = (
    record m { srtcp_tx_index = u32 (m.srtcp_tx_index + 1) },
    sent ++ broadcast_of (srtcp_protect env.crypto c rtcp m.srtcp_tx_index),
  )

  abbrev pub and_video : CallManager → Sent → List ℕ → Sent
  and_video m s rtcp = if leb m.video_self_ssrc 0 then s else protect_and_broadcast s rtcp

  abbrev pub emit_rtcp208 : CallManager → Counters → Sent
  emit_rtcp208 m n =
      and_video m
        (protect_and_broadcast (m, []) (build_compact208 m.self_ssrc n.audio.rtp_timestamp))
        (build_compact208 m.video_self_ssrc n.video.rtp_timestamp)

  abbrev pub emit_rtcp209 : CallManager → Sent
  emit_rtcp209 m =
      and_video m (protect_and_broadcast (m, []) (build_compact209 m.self_ssrc))
        (build_compact209 m.video_self_ssrc)

  abbrev pub report_of :
      Sent → ℕ → RtcpSenderStats → ℕ → ℕ → CallManager × Option RtcpReportBlock → Sent
  report_of (m, sent) ssrc n now jitter (m', block) =
      protect_and_broadcast (m', sent)
        (build_rtcp_compound ssrc n block (rtcp_cname_bytes m.rtcp_cname) now)

  abbrev pub video_report : Sent → RtcpSenderStats → ℕ → ℕ → Sent
  video_report (m, sent) n now jitter =
      if leb m.video_self_ssrc 0
      then (m, sent)
      else report_of (m, sent) m.video_self_ssrc n now jitter
          (block_for m m.recv_stats m.video_peer_ssrc now jitter)

  abbrev pub emit_rtcp_sr : CallManager → Counters → ℕ → ℕ → Sent
  emit_rtcp_sr m n now jitter =
      video_report
        (report_of (m, []) m.self_ssrc n.audio now jitter
          (block_for m m.recv_stats (first_ssrc m.peer_ssrcs) now jitter))
        n.video now jitter

-- The tickers of runRtcpTx.
pub data Tick : Type 0 where
  tick208 : Counters → Tick
  tick_sr : Counters → (now jitter : ℕ) → Tick
  tick209 : Tick

module _ (env : Env) where
  abbrev pub emit_with : SrtcpContext → CallManager → Tick → Sent
  emit_with c m (tick208 n) = emit_rtcp208 env c m n
  emit_with c m (tick_sr n now jitter) = emit_rtcp_sr env c m n now jitter
  emit_with c m tick209 = emit_rtcp209 env c m

  abbrev pub emit_of : CallManager → Option SrtcpContext → Tick → Sent
  emit_of m none tick = (m, [])
  emit_of m (some c) tick = emit_with c m tick

  unfoldable pub emit : CallManager → Tick → Sent
  emit m tick = emit_of m m.send_srtcp tick

  abbrev pub run_rtcp_tx : CallManager → List Tick → Sent
  run_rtcp_tx m [] = (m, [])
  run_rtcp_tx m (tick ∷ ticks) =
      let first = emit m tick in let rest = run_rtcp_tx first.0 ticks in (rest.0, first.1 ++ rest.1)

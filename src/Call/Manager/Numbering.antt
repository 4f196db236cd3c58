-- ===== src/Call/Manager/Numbering.antt =====
-- Every datagram of RTCP has an SRTCP index of its own.
use wa_calls.Bytes.{u32}
use wa_calls.Base.{
  subst, ℕ, ◌+◌, ◌*◌, ◌≤◌, ◌<◌, ◌≡◌, refl, sym, Option, none, some, List, [], ◌∷◌, ◌++◌, arith,
  length, if_cases, leb,
}
use wa_calls.Media.Srtp.Protect.{SrtpResult, ok, err, panics}
use wa_calls.Media.Srtcp.Context.{SrtcpContext, srtcp_protect}
use wa_calls.Media.Rtcp.Build.{RtcpSenderStats, RtcpReportBlock}
use wa_calls.Media.Rtcp.Receiver.{RtcpReceiverStats}
use wa_calls.Call.Manager.State.{CallManager}
use wa_calls.Call.Manager.Keys.{Env}
use wa_calls.Call.Manager.Rtcp.{
  Sent, Tick, tick208, tick_sr, tick209, broadcast_of, block_for, protect_and_broadcast, and_video,
  report_of, video_report, emit_with, emit_of, emit, run_rtcp_tx,
}

module _ (env : Env) (c : SrtcpContext) where
  -- The datagrams are what Protect makes of some packets under indices that grow, from i to below j.
  abbrev pub IsNumbered : ℕ → ℕ → List (List ℕ) → Type 0
  IsNumbered i j [] = i ≤ j
  IsNumbered i j (d ∷ ds) =
      (k : ℕ) × (rtcp : List ℕ) × (i ≤ k)
      × (srtcp_protect env.crypto c rtcp k ≡ ok d)
      × IsNumbered (k + 1) j ds

  IsNumbered-from : (i j k : ℕ) (ds : List (List ℕ)) → i ≤ j → IsNumbered j k ds → IsNumbered i k ds
  IsNumbered-from i j k [] le n = omega arith
  IsNumbered-from i j k (d ∷ ds) le (h, rtcp, from, e, rest) = (h, rtcp, omega arith, e, rest)

  IsNumbered-append :
      (i j k : ℕ) (ds es : List (List ℕ))
      → IsNumbered i j ds
      → IsNumbered j k es
      → IsNumbered i k (ds ++ es)
  IsNumbered-append i j k [] es n n' = IsNumbered-from i j k es n n'
  IsNumbered-append i j k (d ∷ ds) es (h, rtcp, from, e, rest) n' =
      (h, rtcp, from, e, IsNumbered-append (h + 1) j k ds es rest n')

  broadcast_of-IsNumbered :
      (k : ℕ) (rtcp : List ℕ) (r : SrtpResult (List ℕ))
      → srtcp_protect env.crypto c rtcp k ≡ r
      → IsNumbered k (k + 1) (broadcast_of r)
  broadcast_of-IsNumbered k rtcp (ok d) e = (k, rtcp, omega arith, e, omega arith)
  broadcast_of-IsNumbered k rtcp (err x) e = omega arith
  broadcast_of-IsNumbered k rtcp panics e = omega arith

  -- What was sent from an index on, under the context that the manager still has, within a bound.
  pub record Goes (i bound : ℕ) (s : Sent) : Type 0 where
    pub numbered : IsNumbered i s.0.srtcp_tx_index s.1
    pub within : s.0.srtcp_tx_index ≤ bound
    pub same_context : s.0.send_srtcp ≡ some c

  protect_and_broadcast-Goes :
      (i bound : ℕ) (s : Sent) (rtcp : List ℕ)
      → bound + 1 < 4294967296
      → Goes i bound s
      → Goes i (bound + 1) (protect_and_broadcast env c s rtcp)
  unfolding protect_and_broadcast
  protect_and_broadcast-Goes i bound (m, sent) rtcp small g =
      let next : u32 (m.srtcp_tx_index + 1) ≡ m.srtcp_tx_index + 1 = ground (arith, g.within) in
      record {
        numbered =
            subst
              (λ (j : ℕ).
                IsNumbered i j
                  (sent ++ broadcast_of (srtcp_protect env.crypto c rtcp m.srtcp_tx_index)))
              (sym next)
              (IsNumbered-append i m.srtcp_tx_index (m.srtcp_tx_index + 1) sent _ g.numbered
                (broadcast_of-IsNumbered m.srtcp_tx_index rtcp _ refl));
        within = ground (arith, next, g.within);
        same_context = g.same_context;
      }

  Goes-more : (i b b' : ℕ) (s : Sent) → b ≤ b' → Goes i b s → Goes i b' s
  Goes-more i b b' s le g = record {
    numbered = g.numbered;
    within = ground (arith, g.within);
    same_context = g.same_context;
  }

  and_video-Goes :
      (i bound : ℕ) (m : CallManager) (s : Sent) (rtcp : List ℕ)
      → bound + 1 < 4294967296
      → Goes i bound s
      → Goes i (bound + 1) (and_video env c m s rtcp)
  and_video-Goes i bound m s rtcp small g =
      if_cases (λ (x : Sent). Goes i (bound + 1) x) (leb m.video_self_ssrc 0) s _
        (λ _. Goes-more i bound (bound + 1) s (omega arith) g)
        (λ _. protect_and_broadcast-Goes i bound s rtcp small g)

  block_for-Goes :
      (i bound : ℕ) (m : CallManager) (sent : List (List ℕ)) (o : Option RtcpReceiverStats)
      (peer now jitter : ℕ)
      → Goes i bound (m, sent)
      → Goes i bound ((block_for m o peer now jitter).0, sent)
  block_for-Goes i bound m sent none peer now jitter g = g
  block_for-Goes i bound m sent (some r) peer now jitter g =
      if_cases (λ (x : CallManager × Option RtcpReportBlock). Goes i bound (x.0, sent)) (leb peer 0)
        _ _ (λ _. g)
        (λ _. record { numbered = g.numbered; within = g.within; same_context = g.same_context })

  report_of-Goes :
      (i bound : ℕ) (m : CallManager) (sent : List (List ℕ)) (ssrc : ℕ) (n : RtcpSenderStats)
      (now jitter : ℕ) (r : CallManager × Option RtcpReportBlock)
      → bound + 1 < 4294967296
      → Goes i bound (r.0, sent)
      → Goes i (bound + 1) (report_of env c (m, sent) ssrc n now jitter r)
  report_of-Goes i bound m sent ssrc n now jitter (m', block) small g =
      protect_and_broadcast-Goes i bound (m', sent) _ small g

  video_report-Goes :
      (i bound : ℕ) (s : Sent) (n : RtcpSenderStats) (now jitter : ℕ)
      → bound + 1 < 4294967296
      → Goes i bound s
      → Goes i (bound + 1) (video_report env c s n now jitter)
  video_report-Goes i bound (m, sent) n now jitter small g =
      if_cases (λ (x : Sent). Goes i (bound + 1) x) (leb m.video_self_ssrc 0) (m, sent) _
        (λ _. Goes-more i bound (bound + 1) (m, sent) (omega arith) g)
        (λ _.
          report_of-Goes i bound m sent m.video_self_ssrc n now jitter
            (block_for m m.recv_stats m.video_peer_ssrc now jitter) small
            (block_for-Goes i bound m sent m.recv_stats m.video_peer_ssrc now jitter g))

  -- A tick uses two indices at most.
  emit_with-Goes :
      (m : CallManager) (tick : Tick)
      → m.srtcp_tx_index + 2 < 4294967296
      → m.send_srtcp ≡ some c
      → Goes m.srtcp_tx_index (m.srtcp_tx_index + 1 + 1) (emit_with env c m tick)
  emit_with-Goes m tick small e = go tick
    where
      i : ℕ
      i = m.srtcp_tx_index

      start : (sent : List (List ℕ)) → sent ≡ [] → Goes i i (m, sent)
      start [] h = record { numbered = omega arith; within = omega arith; same_context = e }
      start (d ∷ ds) h = absurd (ground arith)

      go : (tick : Tick) → Goes i (i + 1 + 1) (emit_with env c m tick)
      go (tick208 n) =
          and_video-Goes i (i + 1) m _ _ (omega arith)
            (protect_and_broadcast-Goes i i (m, []) _ (omega arith) (start [] refl))
      go (tick_sr n now jitter) = video_report-Goes i (i + 1) _ n.video now jitter (omega arith) (
          report_of-Goes i i m [] m.self_ssrc n.audio now jitter _ (omega arith)
            (block_for-Goes i i m [] m.recv_stats _ now jitter (start [] refl)))
      go tick209 =
          and_video-Goes i (i + 1) m _ _ (omega arith)
            (protect_and_broadcast-Goes i i (m, []) _ (omega arith) (start [] refl))

  emit-Goes :
      (m : CallManager) (tick : Tick)
      → m.srtcp_tx_index + 2 < 4294967296
      → m.send_srtcp ≡ some c
      → Goes m.srtcp_tx_index (m.srtcp_tx_index + 1 + 1) (emit env m tick)
  unfolding emit
  emit-Goes m tick small e =
      subst
        (λ (o : Option SrtcpContext).
          Goes m.srtcp_tx_index (m.srtcp_tx_index + 1 + 1) (emit_of env m o tick))
        (sym e) (emit_with-Goes m tick small e)

  -- Whatever ticks come and whatever the counters, the statistics and the clock are, while the manager
  -- has one context to send with and the index, two for each tick, stays below 2^31: the datagrams are
  -- what Protect of that context makes under indices that grow from the first one on, so that none is
  -- used twice.
  pub run_rtcp_tx-IsNumbered :
      (m : CallManager) (ticks : List Tick)
      → m.send_srtcp ≡ some c
      → m.srtcp_tx_index + 2 * length ticks < 2147483648
      → let r = run_rtcp_tx env m ticks in
        IsNumbered m.srtcp_tx_index r.0.srtcp_tx_index r.1
        × (r.0.srtcp_tx_index ≤ m.srtcp_tx_index + 2 * length ticks)
  run_rtcp_tx-IsNumbered m [] e small = (omega arith, omega arith)
  run_rtcp_tx-IsNumbered m (tick ∷ ticks) e small =
      let g = emit-Goes m tick (omega (arith, small)) e in
      let rest =
        run_rtcp_tx-IsNumbered (emit env m tick).0 ticks g.same_context
          (omega (arith, small, g.within)) in
      (
        IsNumbered-append m.srtcp_tx_index (emit env m tick).0.srtcp_tx_index _ (emit env m tick).1
            _ g.numbered rest.0,
        omega (arith, rest.1, g.within),
      )

-- ===== src/Runs/Numbering.antt =====
-- The theorem on the RTCP that goes out, at a concrete sequence of ticks.
use wa_calls.Base.{◌+◌, ◌*◌, ◌≤◌, refl, some, List, [], ◌∷◌, arith, replicate}
use wa_calls.Media.Srtcp.Context.{SrtcpContext}
use wa_calls.Call.Manager.State.{CallManager, new_call_manager}
use wa_calls.Call.Manager.Rtcp.{Counters, Tick, tick208, tick_sr, tick209, run_rtcp_tx}
use wa_calls.Call.Manager.Numbering.{IsNumbered, run_rtcp_tx-IsNumbered}
use wa_calls.Runs.Manager.{example_env}

abbrev sender : SrtcpContext
sender = record { session_key = 1 ∷ []; session_salt = replicate 14 2; auth_key = 3 ∷ [] }

abbrev sending_manager : CallManager
sending_manager = record new_call_manager {
  send_srtcp = some sender;
  self_ssrc = 9;
  video_self_ssrc = 8;
  srtcp_tx_index = 5;
}

abbrev counters : Counters
counters = record {
  audio = record { packets_sent = 1; octets_sent = 2; rtp_timestamp = 3 };
  video = record { packets_sent = 0; octets_sent = 0; rtp_timestamp = 0 };
}

abbrev three_ticks : List Tick
three_ticks = tick208 counters ∷ tick_sr counters 1000 0 ∷ tick209 ∷ []

run_rtcp_tx-IsNumbered_example :
    let r = run_rtcp_tx example_env sending_manager three_ticks in
    IsNumbered example_env sender 5 r.0.srtcp_tx_index r.1 × (r.0.srtcp_tx_index ≤ 5 + 2 * 3)
run_rtcp_tx-IsNumbered_example =
    run_rtcp_tx-IsNumbered example_env sender sending_manager three_ticks refl (omega arith)

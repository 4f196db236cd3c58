-- ===== src/Runs/Manager.antt =====
-- The theorems on the call manager, at concrete histories, with a stand-in for AES, HMAC and HKDF.
use wa_calls.Base.{◌⊎◌, ◌≡◌, refl, true, false, none, some, List, [], ◌∷◌, arith, replicate}
use wa_calls.Core.{ended, audio, EndCallReason, RelayData, RelayEndpoint}
use wa_calls.Call.State.{CallInfo, new_outgoing_call, apply_transition}
use wa_calls.Call.Deadline.{default_timeouts, phase_deadline}
use wa_calls.Call.Manager.State.{CallManager, new_call_manager, with_call}
use wa_calls.Call.Manager.Keys.{Env}
use wa_calls.Call.Manager.Locally.{start_call}
use wa_calls.Call.Manager.Watchdog.{expire_if_overdue}
use wa_calls.Call.Manager.Quiet.{is_over_now, IsQuiet}
use wa_calls.Call.Manager.Histories.{Happening, act_all, histories-IsQuiet}
use wa_calls.Call.Manager.Expiry.{two_ticks-over}
use wa_calls.Call.Manager.Accepts.{handle_call_accept}
use wa_calls.Call.Manager.Signals.{is_other_device, handle_call_ack, handle_call_terminate}
use wa_calls.Call.Manager.Answered.{answered_for_good}
use wa_calls.Call.Manager.Late.{IsArmed, handle_call_ack-IsArmed}
use wa_calls.Runs.Streams.{stand_in}

abbrev pub example_env : Env
example_env = record {
  crypto = stand_in;
  hkdf = λ secret salt info n. replicate n 7;
  bytes = λ s. 1 ∷ 2 ∷ [];
  own_jid = "1@s.whatsapp.net";
}

abbrev pub relay : RelayEndpoint
relay = record {
  ip = "10.0.0.1";
  port = 3478;
  token = "t";
  auth_token = "a";
  raw_auth_token = none;
  raw_token = some (4 ∷ []);
  key = "k";
  relay_id = 0;
  protocol = 0;
  c2r_rtt = none;
  relay_name = "r";
  address_bytes = none;
  auth_token_id = "";
}

abbrev pub acked : RelayData
acked = record {
  endpoints = relay ∷ [];
  participant_jids = "1:3@s.whatsapp.net" ∷ "2:1@s.whatsapp.net" ∷ [];
  uuid = "";
  self_pid = none;
  peer_pid = none;
  hbh_key = none;
}

abbrev talk : List Happening
talk =
    Happening.starts "call" "2@s.whatsapp.net" (replicate 32 9) audio
      (some ("2:1@s.whatsapp.net" ∷ [])) true 5 9
    ∷ Happening.ack_comes acked
    ∷ Happening.accept_comes "2:1@s.whatsapp.net" none "m" false 20
    ∷ Happening.relay_connects 30
    ∷ Happening.ends (some EndCallReason.user_ended) 90
    ∷ []

histories-IsQuiet_example : IsQuiet (act_all example_env default_timeouts new_call_manager talk)
unfolding start_call apply_transition new_outgoing_call
histories-IsQuiet_example =
    histories-IsQuiet example_env default_timeouts talk (tt, (refl, (tt, (tt, (tt, tt)))))

abbrev ringing_manager : CallManager
ringing_manager =
    with_call new_call_manager
      (new_outgoing_call "call" "2@s.whatsapp.net" "1@s.whatsapp.net" audio 5)

two_ticks-over_example :
    is_over_now
      (expire_if_overdue
        (expire_if_overdue ringing_manager default_timeouts 60_000_000_005).0
        default_timeouts
        200_000_000_000).0.current_call
    ≡ true
unfolding new_outgoing_call phase_deadline
two_ticks-over_example =
    two_ticks-over ringing_manager
      (new_outgoing_call "call" "2@s.whatsapp.net" "1@s.whatsapp.net" audio 5) default_timeouts
      60_000_000_005 60_000_000_005 200_000_000_000 refl refl (omega arith) (omega arith)
      (omega arith)

abbrev outgoing : CallInfo
outgoing = new_outgoing_call "call" "2@s.whatsapp.net" "1@s.whatsapp.net" audio 5

abbrev answered_manager : CallManager
answered_manager = record ringing_manager { accepted_by_jid = "2:1@s.whatsapp.net" }

abbrev quiet_hour : List Happening
quiet_hour =
    Happening.media_comes 30
    ∷ Happening.accept_comes "2:2@s.whatsapp.net" none "m" false 35
    ∷ Happening.holds 40
    ∷ []

answered_for_good_example :
    let m' = act_all example_env default_timeouts answered_manager quiet_hour in
    (m'.accepted_by_jid ≡ "2:1@s.whatsapp.net")
    × ((is_other_device "2:1@s.whatsapp.net" "2:3@s.whatsapp.net" ≡ false)
        ⊎ ((is_over_now m'.current_call ≡ true)
            ⊎ ((handle_call_accept example_env m' "2:3@s.whatsapp.net" none "x" true 50 ≡ m')
                × (handle_call_terminate m' "2:3@s.whatsapp.net" (some EndCallReason.timeout) 50
                    ≡ m'))))
answered_for_good_example =
    answered_for_good example_env default_timeouts answered_manager quiet_hour "2:3@s.whatsapp.net"
      none "x" true (some EndCallReason.timeout) 50 refl

abbrev ended_manager : CallManager
ended_manager = with_call new_call_manager (record outgoing {
  encryption_key = some (7 ∷ []);
  state_data = record outgoing.state_data { state = ended };
})

handle_call_ack-IsArmed_example : IsArmed (handle_call_ack example_env ended_manager acked)
unfolding new_outgoing_call
handle_call_ack-IsArmed_example =
    handle_call_ack-IsArmed example_env ended_manager (7 ∷ []) acked refl refl refl refl

-- ===== src/Call/Manager/Histories.antt =====
-- Any sequence of what happens to a manager.
use Prim.Native.String.{String}
use wa_calls.Base.{ℕ, ◌≡◌, Bool, false, Option, List, [], ◌∷◌, arith}
use wa_calls.Core.{CallMediaType, EndCallReason, RelayData, RelayEndpoint}
use wa_calls.Call.State.{CallInfo}
use wa_calls.Call.Deadline.{Timeouts}
use wa_calls.Call.Manager.State.{CallManager, new_call_manager}
use wa_calls.Call.Manager.Keys.{Env}
use wa_calls.Call.Manager.Locally.{
  start_call, accept_begin, accept_setup, reject_call, end_call, hold_call, resume_call,
}
use wa_calls.Call.Manager.Signals.{
  Offer, ParsedRelayAck, handle_call_offer, handle_call_transport, handle_call_relay_latency,
  handle_call_ack, handle_call_terminate,
}
use wa_calls.Call.Manager.Accepts.{handle_call_accept}
use wa_calls.Call.Manager.Relay.{on_relay_connected, on_relay_usable_change, note_peer_media}
use wa_calls.Call.Manager.Video.{enable_local_video, disable_local_video, handle_video_state}
use wa_calls.Call.Manager.Watchdog.{expire_if_overdue}
use wa_calls.Call.Manager.Quiet.{
  Settles, IsQuiet, is_over_now, Settles-IsQuiet, end_call-Settles, reject_call-Settles,
  hold_call-Settles, resume_call-Settles, accept_begin-Settles, start_call-Settles,
  accept_setup-Settles,
}
use wa_calls.Call.Manager.Steps.{
  offer-Settles, transport-Settles, latency-Settles, ack-Settles, accept-Settles, terminate-Settles,
  relay_connected-Settles, usable-Settles, note-Settles, tick-Settles, enable-Settles,
  disable-Settles, video_state-Settles,
}

pub data Happening : Type 0 where
  starts :
      (id peer : String) (key : List ℕ) (media : CallMediaType) (built : Option (List String))
      (answered : Bool) (now later : ℕ)
      → Happening
  accepts_call : (id : String) (built : Bool) → ℕ → Happening
  sets_up : CallInfo → Option RelayData → Happening
  rejects : (id : String) → Option EndCallReason → ℕ → Happening
  ends : Option EndCallReason → ℕ → Happening
  holds resumes : ℕ → Happening
  offer_comes : Offer → (peer : String) → Option (List ℕ) → ℕ → Happening
  transport_comes : List RelayEndpoint → ParsedRelayAck → Bool → Happening
  latency_comes ack_comes : ParsedRelayAck → Happening
  accept_comes : (peer : String) → Option (List ℕ) → (msg_id : String) → Bool → ℕ → Happening
  terminate_comes : (sender : String) → Option EndCallReason → ℕ → Happening
  relay_connects : ℕ → Happening
  usable_changes : (usable now : ℕ) → Happening
  media_comes : ℕ → Happening
  ticks : ℕ → Happening
  video_starts video_stops : Bool → Happening
  video_state_comes : (id from : String) → ℕ → Bool → Happening

pub new_call_manager-IsQuiet : IsQuiet new_call_manager
new_call_manager-IsQuiet h = absurd (ground arith)

module _ (env : Env) (t : Timeouts) where
  abbrev pub act : CallManager → Happening → CallManager
  act m (starts id peer key media built answered now later) =
      (start_call env m id peer key media built answered now later).0
  act m (accepts_call id built now) = (accept_begin env m id built now).0
  act m (sets_up c d) = accept_setup env m c d
  act m (rejects id why now) = (reject_call m id why now).0
  act m (ends why now) = end_call m why now
  act m (holds now) = (hold_call m now).0
  act m (resumes now) = resume_call m now
  act m (offer_comes o peer key now) = handle_call_offer env m o peer key now
  act m (transport_comes relays parsed b) = handle_call_transport env m relays parsed b
  act m (latency_comes parsed) = handle_call_relay_latency env m parsed
  act m (ack_comes parsed) = handle_call_ack env m parsed
  act m (accept_comes peer rekey msg_id b now) = handle_call_accept env m peer rekey msg_id b now
  act m (terminate_comes sender why now) = handle_call_terminate m sender why now
  act m (relay_connects now) = on_relay_connected m now
  act m (usable_changes usable now) = on_relay_usable_change m usable now
  act m (media_comes now) = note_peer_media m now
  act m (ticks now) = (expire_if_overdue m t now).0
  act m (video_starts b) = (enable_local_video env m b).0
  act m (video_stops b) = (disable_local_video m b).0
  act m (video_state_comes id from state b) = handle_video_state env m id from state b

  abbrev pub act_all : CallManager → List Happening → CallManager
  act_all m [] = m
  act_all m (h ∷ hs) = act_all (act m h) hs

  -- The ack of an offer and the set-up of an accepted call come before the call is over.
  abbrev pub InTime : CallManager → Happening → Type 0
  InTime m (sets_up c d) = is_over_now m.current_call ≡ false
  InTime m (ack_comes parsed) = is_over_now m.current_call ≡ false
  InTime m _ = Unit

  abbrev pub AllInTime : CallManager → List Happening → Type 0
  AllInTime m [] = Unit
  AllInTime m (h ∷ hs) = InTime m h × AllInTime (act m h) hs

  act-Settles : (m : CallManager) (h : Happening) → InTime m h → Settles m (act m h)
  act-Settles m (starts id peer key media built answered now later) i =
      start_call-Settles env m id peer key media built answered now later
  act-Settles m (accepts_call id built now) i = accept_begin-Settles env m id built now
  act-Settles m (sets_up c d) i = accept_setup-Settles env m c d i
  act-Settles m (rejects id why now) i = reject_call-Settles m id why now
  act-Settles m (ends why now) i = end_call-Settles m why now
  act-Settles m (holds now) i = hold_call-Settles m now
  act-Settles m (resumes now) i = resume_call-Settles m now
  act-Settles m (offer_comes o peer key now) i = offer-Settles env m o peer key now
  act-Settles m (transport_comes relays parsed b) i = transport-Settles env m relays parsed b
  act-Settles m (latency_comes parsed) i = latency-Settles env m parsed
  act-Settles m (ack_comes parsed) i = ack-Settles env m parsed i
  act-Settles m (accept_comes peer rekey msg_id b now) i =
      accept-Settles env m peer rekey msg_id b now
  act-Settles m (terminate_comes sender why now) i = terminate-Settles m sender why now
  act-Settles m (relay_connects now) i = relay_connected-Settles m now
  act-Settles m (usable_changes usable now) i = usable-Settles m usable now
  act-Settles m (media_comes now) i = note-Settles m now
  act-Settles m (ticks now) i = tick-Settles m t now
  act-Settles m (video_starts b) i = enable-Settles env m b
  act-Settles m (video_stops b) i = disable-Settles m b
  act-Settles m (video_state_comes id from state b) i = video_state-Settles env m id from state b

  pub act-IsQuiet : (m : CallManager) (h : Happening) → InTime m h → IsQuiet m → IsQuiet (act m h)
  act-IsQuiet m h i = Settles-IsQuiet m (act m h) (act-Settles m h i)

  act_all-IsQuiet :
      (m : CallManager) (hs : List Happening) → AllInTime m hs → IsQuiet m → IsQuiet (act_all m hs)
  act_all-IsQuiet m [] i q = q
  act_all-IsQuiet m (h ∷ hs) i q = act_all-IsQuiet (act m h) hs i.1 (act-IsQuiet m h i.0 q)

  -- After any sequence of happenings on a new manager in which the acks of offers and the set-ups of
  -- accepted calls come in time, a call that is over holds no session of RTP, no context of SRTP or
  -- SRTCP, no statistics, no watchdog, no transmission of RTCP and no extension.
  pub histories-IsQuiet :
      (hs : List Happening) → AllInTime new_call_manager hs → IsQuiet (act_all new_call_manager hs)
  histories-IsQuiet hs i = act_all-IsQuiet new_call_manager hs i new_call_manager-IsQuiet

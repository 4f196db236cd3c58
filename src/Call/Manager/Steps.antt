-- ===== src/Call/Manager/Steps.antt =====
-- The handlers of a manager as steps, and what holds after any sequence of them.
use Prim.Native.String.{String}
use wa_calls.Base.{
  ℕ, ◌≡◌, refl, ap, ◌∙◌, inl, inr, Bool, true, false, ◌&&◌, ◌||◌, not, ltb, ◌-◌, Option, none, some,
  List, [], ◌∷◌, arith, if◌then◌else◌, if_cases,
}
use wa_calls.Core.{EndCallReason, RelayEndpoint, CallState}
use wa_calls.Call.State.{CallInfo, apply_transition, is_in, new_incoming_call}
use wa_calls.Call.Deadline.{Timeouts, phase_deadline}
use wa_calls.Call.Manager.State.{CallManager, is_over, state_of, is_video, with_call, endpoints_of}
use wa_calls.Call.Manager.Keys.{Env, apply_stream_ssrcs, or_text}
use wa_calls.Call.Manager.Locally.{end_call, connect_relays}
use wa_calls.Call.Manager.Signals.{
  Offer, ParsedRelayAck, handle_call_offer, handle_call_transport, handle_call_relay_latency,
  handle_call_ack, handle_call_terminate, terminate_taken, relays_of, has_endpoints, ack_taken,
  ack_placed, is_other_device,
}
use wa_calls.Call.Manager.Accepts.{
  is_from_other, handle_call_accept, accept_rekey, accept_device, accept_answered,
  maybe_start_rtcp_tx, media_connected_now, accept_of, path_taken,
}
use wa_calls.Call.Manager.Relay.{
  on_relay_connected, on_relay_usable_change, force_media_lost, retry_reconnect, note_peer_media,
  retry_of, relay_connected, redial_retry_interval,
}
use wa_calls.Call.Manager.Video.{
  enable_local_video, disable_local_video, handle_video_state, streams_set,
}
use wa_calls.Call.Manager.Watchdog.{expire_if_overdue, tick_of, end_if, is_overdue, is_inactive}
use wa_calls.Call.Manager.Quiet.{
  Settles, is_over_now, media_of, same_Settles, cleanup-Settles, if-Settles, connect_relays-call,
  init_srtp_keys-call, video_ssrcs_if-call, begin_call-call, place_devices-call, end_call-Settles,
}

pub offer-Settles :
    (env : Env) (m : CallManager) (o : Offer) (peer : String) (key : Option (List ℕ)) (now : ℕ)
    → Settles m (handle_call_offer env m o peer key now)
unfolding handle_call_offer new_incoming_call
offer-Settles env m o peer key now =
    let c = record (new_incoming_call o.call_id peer (or_text o.creator peer) "" o.media now) {
      encryption_key = key;
      relay_data = relays_of o.attribute_relays o.structured;
    } in
    ground (arith, begin_call-call env m c peer)

pub transport-Settles :
    (env : Env) (m : CallManager) (relays : List RelayEndpoint) (parsed : ParsedRelayAck) (b : Bool)
    → Settles m (handle_call_transport env m relays parsed b)
unfolding handle_call_transport connect_relays apply_stream_ssrcs
transport-Settles env m relays parsed b = ground arith

pub latency-Settles :
    (env : Env) (m : CallManager) (parsed : ParsedRelayAck)
    → Settles m (handle_call_relay_latency env m parsed)
unfolding handle_call_relay_latency
latency-Settles env m parsed = ground arith

terminate_taken-Settles :
    (m : CallManager) (sender : String) (why : Option EndCallReason) (now : ℕ) (o : Option CallInfo)
    → Settles m (terminate_taken m sender why now o)
terminate_taken-Settles m sender why now none = same_Settles m
terminate_taken-Settles m sender why now (some c) =
    if-Settles m (is_other_device m.accepted_by_jid sender && not (is_over c)) m _
      (λ _. same_Settles m) (λ _. cleanup-Settles m _)

pub terminate-Settles :
    (m : CallManager) (sender : String) (why : Option EndCallReason) (now : ℕ)
    → Settles m (handle_call_terminate m sender why now)
unfolding handle_call_terminate
terminate-Settles m sender why now = terminate_taken-Settles m sender why now m.current_call

pub note-Settles : (m : CallManager) (now : ℕ) → Settles m (note_peer_media m now)
unfolding note_peer_media apply_transition
note-Settles m now = ground arith

media_connected-Settles :
    (m : CallManager) (c : CallInfo) (now : ℕ) → Settles m (media_connected_now m c now)
unfolding media_connected_now maybe_start_rtcp_tx apply_transition
media_connected-Settles m c now = ground arith

pub relay_connected-Settles : (m : CallManager) (now : ℕ) → Settles m (on_relay_connected m now)
unfolding on_relay_connected
relay_connected-Settles m now = go m.current_call
  where
    go : (o : Option CallInfo) → Settles m (relay_connected m o now)
    go none = same_Settles m
    go (some c) =
        if-Settles m (is_in (state_of c) CallState.connecting) _ m
          (λ _. media_connected-Settles m c now) (λ _. same_Settles m)

pub usable-Settles :
    (m : CallManager) (usable now : ℕ) → Settles m (on_relay_usable_change m usable now)
unfolding on_relay_usable_change apply_transition connect_relays apply_stream_ssrcs
usable-Settles m usable now = ground arith

force-Settles : (m : CallManager) (now : ℕ) → Settles m (force_media_lost m now)
unfolding force_media_lost apply_transition connect_relays apply_stream_ssrcs
force-Settles m now = ground arith

abbrev pub IsAlike : CallManager → CallManager → Type 0
IsAlike m m' = (m'.current_call ≡ m.current_call) × (media_of m' ≡ media_of m)

if-IsAlike :
    (m : CallManager) (b : Bool) (x y : CallManager)
    → IsAlike m x
    → IsAlike m y
    → IsAlike m (if b then x else y)
if-IsAlike m true x y f g = f
if-IsAlike m false x y f g = g

retry_of-IsAlike : (m : CallManager) (o : Option CallInfo) (now : ℕ) → IsAlike m (retry_of m o now)
retry_of-IsAlike m none now = (refl, refl)
retry_of-IsAlike m (some c) now =
    if-IsAlike m
      (not (is_in (state_of c) CallState.reconnecting)
        || ltb (now - m.last_redial_at) redial_retry_interval)
      m _ (refl, refl)
      (if-IsAlike m (has_endpoints (endpoints_of c.relay_data)) _ _ (connect_relays-call _ _)
        (refl, refl))

alike_Settles : (m m' : CallManager) → IsAlike m m' → Settles m m'
alike_Settles m m' (call, media) = inr (inr (ap is_over_now call, media))

pub retry-IsAlike : (m : CallManager) (now : ℕ) → IsAlike m (retry_reconnect m now)
unfolding retry_reconnect
retry-IsAlike m now = retry_of-IsAlike m m.current_call now

Settles-trans : (a b c : CallManager) → Settles a b → Settles b c → Settles a c
Settles-trans a b c s (inl live) = inl live
Settles-trans a b c s (inr (inl silent)) = inr (inl silent)
Settles-trans a b c (inl live) (inr (inr (same, media))) = inl (same ∙ live)
Settles-trans a b c (inr (inl silent)) (inr (inr (same, media))) = inr (inl (media ∙ silent))
Settles-trans a b c (inr (inr (same', media'))) (inr (inr (same, media))) =
    inr (inr (same ∙ same', media ∙ media'))

-- A tick of the watchdog.
end_if-Settles :
    (m m' : CallManager) (b : Bool) (now : ℕ) → Settles m m' → Settles m (end_if b m' now).0
end_if-Settles m m' true now s =
    Settles-trans m m' (end_call m' (some EndCallReason.timeout) now) s
      (end_call-Settles m' (some EndCallReason.timeout) now)
end_if-Settles m m' false now s = s

tick_of-Settles :
    (m : CallManager) (t : Timeouts) (now : ℕ) (o : Option CallInfo)
    → Settles m (tick_of m t now o).0
tick_of-Settles m t now none = same_Settles m
tick_of-Settles m t now (some c) =
    let waits : CallManager =
      if is_in (state_of c) CallState.reconnecting then retry_reconnect m now else m in
    if_cases (λ (r : CallManager × Bool). Settles m r.0) (is_over c) _ _ (λ _. same_Settles m)
      (λ _.
        if_cases (λ (r : CallManager × Bool). Settles m r.0)
          (is_in (state_of c) CallState.active && is_inactive m t now) _ _
          (λ _. force-Settles m now)
          (λ _. end_if-Settles m waits (is_overdue (phase_deadline c t) now) now (
            if-Settles m (is_in (state_of c) CallState.reconnecting) _ m
              (λ _. alike_Settles m (retry_reconnect m now) (retry-IsAlike m now))
              (λ _. same_Settles m))))

pub tick-Settles :
    (m : CallManager) (t : Timeouts) (now : ℕ) → Settles m (expire_if_overdue m t now).0
unfolding expire_if_overdue
tick-Settles m t now = tick_of-Settles m t now m.current_call

accept_device-live :
    (env : Env) (m : CallManager) (c : CallInfo) (peer : String) (now : ℕ)
    → is_over c ≡ false
    → is_over_now (accept_device env m c peer now).current_call ≡ false
unfolding accept_device apply_stream_ssrcs apply_transition
accept_device-live env m c peer now l =
    ap is_over_now
      (init_srtp_keys-call env _ ∙ video_ssrcs_if-call env (is_video c.media_type) _ _ _ _)
    ∙ ground arith

accept_answered-call :
    (env : Env) (m : CallManager) (c : CallInfo) (peer : String) (b : Bool) (id : String)
    → (accept_answered env m c peer b id).current_call ≡ m.current_call
unfolding accept_answered
accept_answered-call env m c peer b id = ground arith

media_connected-live :
    (m : CallManager) (c : CallInfo) (now : ℕ)
    → is_over_now m.current_call ≡ false
    → is_over_now (media_connected_now m c now).current_call ≡ false
unfolding media_connected_now maybe_start_rtcp_tx apply_transition
media_connected-live m c now l = ground arith

path_taken-live :
    (env : Env) (m : CallManager) (o : Option CallInfo) (b : Bool) (now : ℕ)
    → is_over_now m.current_call ≡ false
    → is_over_now (path_taken env m o b now).current_call ≡ false
path_taken-live env m none b now l = l
path_taken-live env m (some c) true now l = media_connected-live m c now l
path_taken-live env m (some c) false now l = ap is_over_now (connect_relays-call m _).0 ∙ l

accept_of-Settles :
    (env : Env) (m : CallManager) (o : Option CallInfo) (peer : String) (rekey : Option (List ℕ))
    (msg_id : String) (b : Bool) (now : ℕ)
    → Settles m (accept_of env m o peer rekey msg_id b now)
accept_of-Settles env m none peer rekey msg_id b now = same_Settles m
accept_of-Settles env m (some c) peer rekey msg_id b now =
    if-Settles m (is_from_other m.accepted_by_jid peer) m _ (λ _. same_Settles m)
      (λ _.
        if-Settles m (is_over c) m _ (λ _. same_Settles m)
          (λ l. inl (
            path_taken-live env _ _ b now (
              ap is_over_now (accept_answered-call env _ c peer _ msg_id)
              ∙ accept_device-live env (accept_rekey env m c rekey peer) c peer now l))))

pub accept-Settles :
    (env : Env) (m : CallManager) (peer : String) (rekey : Option (List ℕ)) (msg_id : String)
    (b : Bool) (now : ℕ)
    → Settles m (handle_call_accept env m peer rekey msg_id b now)
unfolding handle_call_accept
accept-Settles env m peer rekey msg_id b now =
    accept_of-Settles env m m.current_call peer rekey msg_id b now

ack_placed-call :
    (env : Env) (m : CallManager) (c : CallInfo) (jids : List String)
    → (ack_placed env m c jids).current_call ≡ m.current_call
unfolding apply_stream_ssrcs
ack_placed-call env m c [] = refl
ack_placed-call env m c (j ∷ jids) =
    init_srtp_keys-call env _ ∙ place_devices-call env m c (j ∷ jids)

ack-live :
    (env : Env) (m : CallManager) (o : Option CallInfo) (parsed : ParsedRelayAck)
    → m.current_call ≡ o
    → is_over_now o ≡ false
    → is_over_now (ack_taken env m o parsed).current_call ≡ false
ack-live env m none parsed e l = ap is_over_now e
ack-live env m (some c) parsed e l =
    let c' : CallInfo = record c { relay_data = some parsed } in
    let placed = ack_placed-call env (with_call m c') c' parsed.participant_jids in
    ap is_over_now (connect_relays-call _ parsed.endpoints).0 ∙ ground (arith, placed)

pub ack-Settles :
    (env : Env) (m : CallManager) (parsed : ParsedRelayAck)
    → is_over_now m.current_call ≡ false
    → Settles m (handle_call_ack env m parsed)
unfolding handle_call_ack
ack-Settles env m parsed l =
    if-Settles m (has_endpoints parsed.endpoints) _ m
      (λ _. inl (ack-live env m m.current_call parsed refl l)) (λ _. same_Settles m)

pub enable-Settles :
    (env : Env) (m : CallManager) (b : Bool) → Settles m (enable_local_video env m b).0
unfolding enable_local_video apply_stream_ssrcs
enable-Settles env m b = ground arith

pub disable-Settles : (m : CallManager) (b : Bool) → Settles m (disable_local_video m b).0
unfolding disable_local_video
disable-Settles m b = ground arith

pub video_state-Settles :
    (env : Env) (m : CallManager) (id from : String) (state : ℕ) (b : Bool)
    → Settles m (handle_video_state env m id from state b)
unfolding handle_video_state apply_stream_ssrcs streams_set
video_state-Settles env m id from state b = ground arith

-- ===== src/Call/Manager/Locally.antt =====
-- What our side does with a call: StartCall, AcceptCall, RejectCall, EndCall, Hold and Resume. A
-- handler that gives up the lock on its way is one function for each section under the lock, and their
-- composition. Another call does not take the place of the current one between the sections: Client
-- keeps a manager for each call. MustJID, the parser of whatsmeow, is applied to the JIDs of a stanza.
use Prim.Native.String.{String}
use text.Mathlib.Text.{◌==◌}
use wa_calls.Base.{
  ℕ, ◌+◌, Bool, true, false, ◌&&◌, ◌||◌, not, Option, none, some, List, [], ◌∷◌, if◌then◌else◌, leb,
}
use wa_calls.Core.{CallMediaType, CallState, EndCallReason, RelayData, RelayEndpoint}
use wa_calls.Call.State.{
  CallInfo, Transition, TransitionType, InvalidTransition, apply_transition, new_outgoing_call,
  can_accept, is_in,
}
use wa_calls.Call.Relays.{RelayConfig, build_relay_configs}
use wa_calls.Call.Manager.Jids.{
  clean_jid, ensure_device_jid, find_our_device, first_peer_device, first_ssrc,
}
use wa_calls.Call.Manager.State.{
  CallManager, leave, send_node, emit_state, with_call, is_over, is_video, state_of, cleanup_media,
  accept_stanza, reject_stanza, terminate_stanza, relays_configured, subscription_set, call_over,
}
use wa_calls.Call.Manager.Keys.{
  Env, generate_secure_ssrc, replace_rtp_session, init_srtp_keys, derive_video_ssrcs,
  remember_device_jids, apply_stream_ssrcs, or_text,
}

pub data CallError : Type 0 where
  call_in_progress no_such_call offer_failed query_failed no_active_call send_failed : CallError
  cannot_accept : CallState → CallError
  refused : InvalidTransition → CallError

abbrev pub plain : TransitionType → Option EndCallReason → Transition
plain t why = record { type = t; reason = why; muted = false; silenced = false }

-- A transition of the current call whose error is not looked at.
abbrev pub transit :
    CallManager → CallInfo → TransitionType → Option EndCallReason → ℕ → CallManager
transit m c t why now = with_call m (apply_transition c (plain t why) now).0

abbrev pub is_busy : Option CallInfo → Bool
is_busy none = false
is_busy (some c) = not (is_over c)

abbrev pub start_watchdog : CallManager → CallManager
start_watchdog m = record m { has_watchdog = true }

abbrev pub has_configs : List RelayConfig → Bool
has_configs [] = false
has_configs (c ∷ configs) = true

-- connectRelays
unfoldable pub connect_relays : CallManager → List RelayEndpoint → CallManager
connect_relays m endpoints =
    let configs = build_relay_configs endpoints in
    if has_configs configs
    then leave (apply_stream_ssrcs (leave m (subscription_set (first_ssrc m.peer_ssrcs))))
        (relays_configured configs)
    else m

module _ (env : Env) where
  abbrev pub video_ssrcs_if : Bool → CallManager → String → String → String → CallManager
  video_ssrcs_if true m call_id self_jid peer_jid =
      derive_video_ssrcs env m call_id self_jid peer_jid
  video_ssrcs_if false m call_id self_jid peer_jid = m

  abbrev with_ssrcs : CallManager → String → String → CallManager
  with_ssrcs m call_id peer =
      let ssrc = generate_secure_ssrc env call_id env.own_jid 0 in
      record (replace_rtp_session (record m { self_ssrc = ssrc }) (some ssrc)) {
        peer_ssrcs = generate_secure_ssrc env call_id peer 0 ∷ [];
      }

  -- The session for a call that was placed or offered.
  abbrev pub begin_call : CallManager → CallInfo → String → CallManager
  begin_call m c peer =
      video_ssrcs_if (is_video c.media_type)
        (with_ssrcs (record (with_call m c) { initial_transport_sent = false }) c.call_id peer)
        c.call_id env.own_jid peer

  -- The offer is out: `answered` is whether Query returned without an error.
  abbrev offered :
      CallManager → CallInfo → Option (List String) → Bool → ℕ → CallManager × Option CallError
  offered m c none answered now = (m, some offer_failed)
  offered m c (some devices) answered now =
      let m' = record m { callee_devices = devices } in
      if answered
      then (start_watchdog (emit_state (transit m' c TransitionType.offer_sent none now)), none)
      else (m', some query_failed)

  -- StartCall, but for the goroutine that it leaves HandleCallAck to. `built` is what BuildOfferStanza
  -- returns, the devices of the callee; the offer itself goes out with the query.
  unfoldable pub start_call :
      CallManager
      → String
      → String
      → List ℕ
      → CallMediaType
      → (built : Option (List String)) → (answered : Bool) → ℕ
      → ℕ
      → CallManager × Option CallError
  start_call m call_id peer key media built answered now later =
      let c = record (new_outgoing_call call_id peer env.own_jid media now) {
        encryption_key = some key;
      } in
      let m' = begin_call (record m { outgoing_preaccept_sent = false }) c peer in
      if is_busy m.current_call
      then (m, some call_in_progress)
      else offered m' c built answered later

  abbrev accept_sent : CallManager → CallInfo → Option (List ℕ) → Bool → CallManager
  accept_sent m c none built = m
  accept_sent m c (some key) built =
      if built
      then send_node m
          (accept_stanza c.call_id key c.peer_jid c.call_creator (is_video c.media_type))
      else m

  abbrev accept_current :
      CallManager → String → Bool → ℕ → Option CallInfo → CallManager × Option CallError
  accept_current m call_id built now none = (m, some no_such_call)
  accept_current m call_id built now (some c) =
      let m' = emit_state (transit m c TransitionType.local_accepted none now) in
      if not (c.call_id == call_id)
      then (m, some no_such_call)
      else if not (can_accept c)
      then (m, some (cannot_accept (state_of c)))
      else (accept_sent m' c c.encryption_key built, none)

  -- AcceptCall up to the stanza, which is sent if BuildAcceptStanza succeeds.
  unfoldable pub accept_begin :
      CallManager → String → (built : Bool) → ℕ → CallManager × Option CallError
  accept_begin m call_id built now = accept_current m call_id built now m.current_call

  -- A new session for our device's SSRC, unless it is the one in use.
  abbrev pub with_own_ssrc : CallManager → ℕ → CallManager
  with_own_ssrc m ssrc =
      if wa_calls.Base.◌==◌ ssrc m.self_ssrc
      then m
      else replace_rtp_session (record m { self_ssrc = ssrc }) (some ssrc)

  abbrev pub device_or_none : String → String
  device_or_none peer = if peer == "" then "" else ensure_device_jid peer

  abbrev pub with_peer_ssrc : CallManager → String → String → CallManager
  with_peer_ssrc m call_id peer = if peer == "" then m else record m {
    peer_ssrcs = generate_secure_ssrc env call_id (ensure_device_jid peer) 0 ∷ [];
  }

  -- Our device and the peer's among the participants.
  abbrev pub place_devices : CallManager → CallInfo → List String → CallManager
  place_devices m c jids =
      let base = clean_jid env.own_jid in
      let ours = ensure_device_jid (find_our_device jids base env.own_jid) in
      let peer = first_peer_device jids base in
      let m' =
        with_peer_ssrc (with_own_ssrc m (generate_secure_ssrc env c.call_id ours 0)) c.call_id
          peer in
      video_ssrcs_if (is_video c.media_type) (remember_device_jids m' ours (device_or_none peer))
        c.call_id ours (device_or_none peer)

  abbrev participants_placed : CallManager → CallInfo → List String → CallManager
  participants_placed m c [] = m
  participants_placed m c (j ∷ jids) =
      let peer = first_peer_device (j ∷ jids) (clean_jid env.own_jid) in
      let m' = place_devices m c (j ∷ jids) in
      record m' { actual_peer_set = if peer == "" then m'.actual_peer_set else true }

  unfoldable pub setup_incoming_media : CallManager → CallInfo → List String → CallManager
  setup_incoming_media m c jids =
      let m' = participants_placed m c jids in
      init_srtp_keys env
        (apply_stream_ssrcs (leave m' (subscription_set (first_ssrc m'.peer_ssrcs))))

  -- The rest of AcceptCall, on the call and the relays that it read under the lock.
  unfoldable pub accept_setup : CallManager → CallInfo → Option RelayData → CallManager
  accept_setup m c none = m
  accept_setup m c (some d) =
      connect_relays (setup_incoming_media m c d.participant_jids) d.endpoints

abbrev pub over : CallManager → CallInfo → CallManager
over m c = cleanup_media (leave m (call_over c))

abbrev pub reject_with :
    CallManager → CallInfo → CallInfo × Option InvalidTransition → CallManager × Option CallError
reject_with m c (c', some e) = (m, some (refused e))
reject_with m c (c', none) = (
  cleanup_media
      (send_node (emit_state (with_call m c')) (reject_stanza c.peer_jid c.call_id c.call_creator)),
  none,
)

abbrev pub reject_current :
    CallManager
    → String
    → Option EndCallReason
    → ℕ
    → Option CallInfo
    → CallManager × Option CallError
reject_current m call_id why now none = (m, some no_such_call)
reject_current m call_id why now (some c) =
    let r = reject_with m c (apply_transition c (plain TransitionType.local_rejected why) now) in
    if c.call_id == call_id then r else (m, some no_such_call)

unfoldable pub reject_call :
    CallManager → String → Option EndCallReason → ℕ → CallManager × Option CallError
reject_call m call_id why now = reject_current m call_id why now m.current_call

abbrev pub end_current : CallManager → Option EndCallReason → ℕ → Option CallInfo → CallManager
end_current m why now none = m
end_current m why now (some c) =
    let c' = (apply_transition c (plain TransitionType.terminated why) now).0 in
    let m' = emit_state (with_call m c') in
    if is_over c
    then m
    else over
        (send_node m'
          (terminate_stanza (or_text m.accepted_by_jid c.peer_jid) c.call_id c.call_creator))
        c'

-- EndCall, which returns no error. The terminate goes to the device that answered.
unfoldable pub end_call : CallManager → Option EndCallReason → ℕ → CallManager
end_call m why now = end_current m why now m.current_call

abbrev held : CallManager → CallInfo × Option InvalidTransition → CallManager × Option CallError
held m (c, some e) = (m, some (refused e))
held m (c, none) = (emit_state (record (with_call m c) { hold_active = true }), none)

abbrev hold_current : CallManager → ℕ → Option CallInfo → CallManager × Option CallError
hold_current m now none = (m, some no_active_call)
hold_current m now (some c) = held m (apply_transition c (plain TransitionType.hold none) now)

unfoldable pub hold_call : CallManager → ℕ → CallManager × Option CallError
hold_call m now = hold_current m now m.current_call

abbrev resume_current : CallManager → ℕ → Option CallInfo → CallManager
resume_current m now none = m
resume_current m now (some c) =
    let c' = (apply_transition c (plain TransitionType.resume none) now).0 in
    let resumed = if is_in (state_of c) CallState.on_hold then with_call m c' else m in
    emit_state (record resumed { hold_active = false })

-- Resume of an on-hold call is never refused.
unfoldable pub resume_call : CallManager → ℕ → CallManager
resume_call m now = resume_current m now m.current_call

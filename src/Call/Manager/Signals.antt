-- ===== src/Call/Manager/Signals.antt =====
-- What the peer's stanzas do to a call: callmanager_signaling.go less HandleCallAccept. What
-- internal/voip/signaling parses of a stanza is an argument, and so is whether the relay transport has
-- a connection.
use Prim.Native.String.{String}
use text.Mathlib.Text.{◌==◌}
use wa_calls.Base.{
  ℕ, Bool, true, false, ◌&&◌, ◌||◌, not, Option, none, some, List, [], ◌∷◌, if◌then◌else◌,
}
use wa_calls.Core.{CallMediaType, EndCallReason, RelayData, RelayEndpoint}
use wa_calls.Call.State.{
  CallInfo, TransitionType, apply_transition, new_incoming_call, is_initiator,
}
use wa_calls.Call.Relays.{build_relay_configs}
use wa_calls.Call.Manager.State.{
  CallManager, leave, send_node, emit_state, with_call, is_over, is_video, preaccept_stanza,
  incoming_call,
}
use wa_calls.Call.Manager.Keys.{Env, init_srtp_keys, apply_stream_ssrcs, or_text}
use wa_calls.Call.Manager.Locally.{
  begin_call, start_watchdog, connect_relays, has_configs, place_devices, over,
}

-- signaling.ParsedRelayAck
abbrev pub ParsedRelayAck : Type 0
ParsedRelayAck = RelayData

abbrev pub has_endpoints : List RelayEndpoint → Bool
has_endpoints [] = false
has_endpoints (e ∷ es) = true

-- The relays of an offer or a transport: those of the attributes, or else those of the structured form.
abbrev pub relays_of : List RelayEndpoint → ParsedRelayAck → Option RelayData
relays_of [] parsed = if has_endpoints parsed.endpoints then some parsed else none
relays_of (e ∷ es) parsed = some (record {
  endpoints = e ∷ es;
  participant_jids = [];
  uuid = "";
  self_pid = none;
  peer_pid = none;
  hbh_key = none;
})

-- What HandleCallOffer reads of its stanza.
pub record Offer : Type 0 where
  pub call_id : String
  pub creator : String
  pub media : CallMediaType
  pub attribute_relays : List RelayEndpoint
  pub structured : ParsedRelayAck

module _ (env : Env) where
  -- HandleCallOffer, of a stanza with a node in it, where the key is what the client decrypted.
  unfoldable pub handle_call_offer :
      CallManager → Offer → (peer : String) → Option (List ℕ) → ℕ → CallManager
  handle_call_offer m o peer key now =
      let creator = or_text o.creator peer in
      let c = record (new_incoming_call o.call_id peer creator "" o.media now) {
        encryption_key = key;
        relay_data = relays_of o.attribute_relays o.structured;
      } in
      let m' = begin_call env m c peer in
      let m'' = send_node m' (preaccept_stanza peer o.call_id creator (is_video o.media)) in
      start_watchdog (emit_state (leave m'' (incoming_call c)))

  abbrev pub or_jids : List String → List String → List String
  or_jids [] more = more
  or_jids (j ∷ jids) more = j ∷ jids

  abbrev pub or_else : {A : Type 0} → Option A → Option A → Option A
  or_else none y = y
  or_else (some x) y = some x

  -- What a transport adds to the relay data that the call has.
  abbrev pub merged : Option RelayData → RelayData → RelayData
  merged none new = new
  merged (some old) new = record {
    endpoints = new.endpoints;
    participant_jids = or_jids old.participant_jids new.participant_jids;
    uuid = or_text old.uuid new.uuid;
    self_pid = or_else old.self_pid new.self_pid;
    peer_pid = or_else old.peer_pid new.peer_pid;
    hbh_key = or_else old.hbh_key new.hbh_key;
  }

  abbrev transport_taken : CallManager → Option CallInfo → Option RelayData → Bool → CallManager
  transport_taken m none d has_connection = m
  transport_taken m (some c) none has_connection = m
  transport_taken m (some c) (some d) has_connection =
      let m' = with_call m (record c { relay_data = some (merged c.relay_data d) }) in
      if has_connection || not (has_configs (build_relay_configs d.endpoints))
      then m
      else connect_relays m' d.endpoints

  unfoldable pub handle_call_transport :
      CallManager → List RelayEndpoint → ParsedRelayAck → (has_connection : Bool) → CallManager
  handle_call_transport m relays parsed has_connection =
      transport_taken m m.current_call (relays_of relays parsed) has_connection

  abbrev lacks_relays : Option RelayData → Bool
  lacks_relays none = true
  lacks_relays (some d) = not (has_endpoints d.endpoints)

  abbrev latency_taken : CallManager → Option CallInfo → ParsedRelayAck → CallManager
  latency_taken m none parsed = m
  latency_taken m (some c) parsed =
      if lacks_relays c.relay_data && has_endpoints parsed.endpoints
      then with_call m (record c { relay_data = some parsed })
      else m

  -- HandleCallRelayLatency, less the echo of its probes.
  unfoldable pub handle_call_relay_latency : CallManager → ParsedRelayAck → CallManager
  handle_call_relay_latency m parsed = latency_taken m m.current_call parsed

  abbrev pub ack_placed : CallManager → CallInfo → List String → CallManager
  ack_placed m c [] = m
  ack_placed m c (j ∷ jids) =
      init_srtp_keys env (apply_stream_ssrcs (place_devices env m c (j ∷ jids)))

  abbrev pub ack_taken : CallManager → Option CallInfo → ParsedRelayAck → CallManager
  ack_taken m none parsed = m
  ack_taken m (some c) parsed =
      let c' = record c { relay_data = some parsed } in
      let m' = ack_placed (with_call m c') c' parsed.participant_jids in
      let preaccept =
        preaccept_stanza c.peer_jid c.call_id c.call_creator (is_video c.media_type) in
      let m'' =
        if is_initiator c && not m'.outgoing_preaccept_sent
        then send_node (record m' { outgoing_preaccept_sent = true }) preaccept
        else m' in
      connect_relays m'' parsed.endpoints

  -- HandleCallAck, where the ack is one of an offer, without an error.
  unfoldable pub handle_call_ack : CallManager → ParsedRelayAck → CallManager
  handle_call_ack m parsed =
      if has_endpoints parsed.endpoints then ack_taken m m.current_call parsed else m

-- Whether a terminate says that it comes from a device other than the one that answered.
abbrev pub is_other_device : String → String → Bool
is_other_device accepted sender =
    not (accepted == "") && (not (sender == "") && not (sender == accepted))

abbrev pub terminate_taken :
    CallManager → String → Option EndCallReason → ℕ → Option CallInfo → CallManager
terminate_taken m sender why now none = m
terminate_taken m sender why now (some c) =
    let c' =
      (apply_transition c
        (record { type = TransitionType.terminated; reason = why; muted = false; silenced = false })
        now).0 in
    if is_other_device m.accepted_by_jid sender && not (is_over c)
    then m
    else over (emit_state (with_call m c')) c'

-- HandleCallTerminate; `why` is the stanza's reason, or user_ended where it has none.
unfoldable pub handle_call_terminate : CallManager → String → Option EndCallReason → ℕ → CallManager
handle_call_terminate m sender why now = terminate_taken m sender why now m.current_call

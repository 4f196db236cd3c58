-- ===== src/Call/Manager/Kept.antt =====
-- The handlers that leave which device answered as it is.
use Prim.Native.String.{String}
use wa_calls.Base.{
  ℕ, ◌≡◌, refl, ◌∙◌, Bool, true, false, ◌&&◌, Option, none, some, List, [], ◌∷◌, arith, if_cases,
  if◌then◌else◌,
}
use wa_calls.Core.{CallState, CallMediaType, EndCallReason, RelayData, RelayEndpoint}
use wa_calls.Call.State.{CallInfo, apply_transition, is_in, new_outgoing_call, new_incoming_call}
use wa_calls.Call.Deadline.{Timeouts, phase_deadline}
use wa_calls.Call.Manager.State.{
  CallManager, cleanup_media, is_over, is_video, with_call, state_of, send_node, video_ack,
}
use wa_calls.Call.Manager.Keys.{
  Env, or_text, arm, init_srtp_keys, apply_stream_ssrcs, derive_video_ssrcs,
}
use wa_calls.Call.Manager.Locally.{
  connect_relays, start_call, accept_begin, accept_setup, reject_call, end_call, hold_call,
  resume_call, video_ssrcs_if, begin_call, place_devices, setup_incoming_media,
}
use wa_calls.Call.Manager.Signals.{
  has_endpoints, relays_of, Offer, ParsedRelayAck, handle_call_offer, handle_call_transport,
  handle_call_relay_latency, handle_call_ack, ack_taken, ack_placed, handle_call_terminate,
}
use wa_calls.Call.Manager.Accepts.{media_connected_now, maybe_start_rtcp_tx}
use wa_calls.Call.Manager.Relay.{
  on_relay_connected, on_relay_usable_change, force_media_lost, retry_reconnect, note_peer_media,
}
use wa_calls.Call.Manager.Video.{
  streams_set, accepts, video_state_taken, video_state_of, enable_local_video, disable_local_video,
  handle_video_state,
}
use wa_calls.Call.Manager.Watchdog.{expire_if_overdue, tick_of, end_if, is_overdue, is_inactive}

abbrev pub Keeps : CallManager → CallManager → Type 0
Keeps m m' = m'.accepted_by_jid ≡ m.accepted_by_jid

pub cleanup-Keeps : (m : CallManager) → Keeps m (cleanup_media m)
unfolding cleanup_media
cleanup-Keeps m = ground arith

pub connect-Keeps : (m : CallManager) (es : List RelayEndpoint) → Keeps m (connect_relays m es)
unfolding connect_relays apply_stream_ssrcs
connect-Keeps m es = ground arith

pub end_call-Keeps :
    (m : CallManager) (why : Option EndCallReason) (now : ℕ) → Keeps m (end_call m why now)
unfolding end_call apply_transition cleanup_media
end_call-Keeps m why now = ground arith

pub reject-Keeps :
    (m : CallManager) (id : String) (why : Option EndCallReason) (now : ℕ)
    → Keeps m (reject_call m id why now).0
unfolding reject_call cleanup_media
reject-Keeps m id why now = ground arith

pub terminate-Keeps :
    (m : CallManager) (sender : String) (why : Option EndCallReason) (now : ℕ)
    → Keeps m (handle_call_terminate m sender why now)
unfolding handle_call_terminate cleanup_media
terminate-Keeps m sender why now = ground arith

pub hold-Keeps : (m : CallManager) (now : ℕ) → Keeps m (hold_call m now).0
unfolding hold_call
hold-Keeps m now = ground arith

pub resume-Keeps : (m : CallManager) (now : ℕ) → Keeps m (resume_call m now)
unfolding resume_call
resume-Keeps m now = ground arith

pub transport-Keeps :
    (env : Env) (m : CallManager) (relays : List RelayEndpoint) (parsed : ParsedRelayAck) (b : Bool)
    → Keeps m (handle_call_transport env m relays parsed b)
unfolding handle_call_transport connect_relays apply_stream_ssrcs
transport-Keeps env m relays parsed b = ground arith

pub latency-Keeps :
    (env : Env) (m : CallManager) (parsed : ParsedRelayAck)
    → Keeps m (handle_call_relay_latency env m parsed)
unfolding handle_call_relay_latency
latency-Keeps env m parsed = ground arith

pub usable-Keeps :
    (m : CallManager) (usable now : ℕ) → Keeps m (on_relay_usable_change m usable now)
unfolding on_relay_usable_change connect_relays apply_stream_ssrcs
usable-Keeps m usable now = ground arith

pub connected-Keeps : (m : CallManager) (now : ℕ) → Keeps m (on_relay_connected m now)
unfolding on_relay_connected media_connected_now maybe_start_rtcp_tx
connected-Keeps m now = ground arith

pub note-Keeps : (m : CallManager) (now : ℕ) → Keeps m (note_peer_media m now)
unfolding note_peer_media
note-Keeps m now = ground arith

pub force-Keeps : (m : CallManager) (now : ℕ) → Keeps m (force_media_lost m now)
unfolding force_media_lost connect_relays apply_stream_ssrcs
force-Keeps m now = ground arith

pub retry-Keeps : (m : CallManager) (now : ℕ) → Keeps m (retry_reconnect m now)
unfolding retry_reconnect connect_relays apply_stream_ssrcs
retry-Keeps m now = ground arith

pub init_keys-Keeps : (env : Env) (m : CallManager) → Keeps m (init_srtp_keys env m)
unfolding init_srtp_keys arm
init_keys-Keeps env m = ground arith

pub video_ssrcs-Keeps :
    (env : Env) (m : CallManager) (id self_jid peer_jid : String)
    → Keeps m (derive_video_ssrcs env m id self_jid peer_jid)
unfolding derive_video_ssrcs
video_ssrcs-Keeps env m id self_jid peer_jid = ground arith

pub video_ssrcs_if-Keeps :
    (env : Env) (b : Bool) (m : CallManager) (id self_jid peer_jid : String)
    → Keeps m (video_ssrcs_if env b m id self_jid peer_jid)
video_ssrcs_if-Keeps env true m id self_jid peer_jid = video_ssrcs-Keeps env m id self_jid peer_jid
video_ssrcs_if-Keeps env false m id self_jid peer_jid = refl

pub begin-Keeps :
    (env : Env) (m : CallManager) (c : CallInfo) (peer : String) → Keeps m (begin_call env m c peer)
begin-Keeps env m c peer =
    video_ssrcs_if-Keeps env (is_video c.media_type) _ c.call_id env.own_jid peer

pub start-Keeps :
    (env : Env) (m : CallManager) (id peer : String) (key : List ℕ) (media : CallMediaType)
    (built : Option (List String)) (answered : Bool) (now later : ℕ)
    → Keeps m (start_call env m id peer key media built answered now later).0
unfolding start_call new_outgoing_call
start-Keeps env m id peer key media built answered now later = ground (
  arith,
  begin-Keeps env (record m { outgoing_preaccept_sent = false })
      (record (new_outgoing_call id peer env.own_jid media now) { encryption_key = some key }) peer,
)

pub offer-Keeps :
    (env : Env) (m : CallManager) (o : Offer) (peer : String) (key : Option (List ℕ)) (now : ℕ)
    → Keeps m (handle_call_offer env m o peer key now)
unfolding handle_call_offer new_incoming_call
offer-Keeps env m o peer key now =
    let c = record (new_incoming_call o.call_id peer (or_text o.creator peer) "" o.media now) {
      encryption_key = key;
      relay_data = relays_of o.attribute_relays o.structured;
    } in
    ground (arith, begin-Keeps env m c peer)

pub accept_begin-Keeps :
    (env : Env) (m : CallManager) (id : String) (built : Bool) (now : ℕ)
    → Keeps m (accept_begin env m id built now).0
unfolding accept_begin
accept_begin-Keeps env m id built now = ground arith

pub place-Keeps :
    (env : Env) (m : CallManager) (c : CallInfo) (jids : List String)
    → Keeps m (place_devices env m c jids)
place-Keeps env m c jids = video_ssrcs_if-Keeps env (is_video c.media_type) _ _ _ _ ∙ ground arith

pub setup-Keeps :
    (env : Env) (m : CallManager) (c : CallInfo) (jids : List String)
    → Keeps m (setup_incoming_media env m c jids)
unfolding setup_incoming_media apply_stream_ssrcs
setup-Keeps env m c [] = init_keys-Keeps env _
setup-Keeps env m c (j ∷ jids) = init_keys-Keeps env _ ∙ place-Keeps env m c (j ∷ jids)

pub accept_setup-Keeps :
    (env : Env) (m : CallManager) (c : CallInfo) (d : Option RelayData)
    → Keeps m (accept_setup env m c d)
unfolding accept_setup
accept_setup-Keeps env m c none = refl
accept_setup-Keeps env m c (some d) =
    connect-Keeps (setup_incoming_media env m c d.participant_jids) d.endpoints
    ∙ setup-Keeps env m c d.participant_jids

pub ack_placed-Keeps :
    (env : Env) (m : CallManager) (c : CallInfo) (jids : List String)
    → Keeps m (ack_placed env m c jids)
unfolding apply_stream_ssrcs
ack_placed-Keeps env m c [] = refl
ack_placed-Keeps env m c (j ∷ jids) = init_keys-Keeps env _ ∙ place-Keeps env m c (j ∷ jids)

pub ack_taken-Keeps :
    (env : Env) (m : CallManager) (o : Option CallInfo) (parsed : ParsedRelayAck)
    → Keeps m (ack_taken env m o parsed)
ack_taken-Keeps env m none parsed = refl
ack_taken-Keeps env m (some c) parsed =
    let c' : CallInfo = record c { relay_data = some parsed } in
    connect-Keeps _ parsed.endpoints
    ∙ ground (arith, ack_placed-Keeps env (with_call m c') c' parsed.participant_jids)

pub ack-Keeps :
    (env : Env) (m : CallManager) (parsed : ParsedRelayAck) → Keeps m (handle_call_ack env m parsed)
unfolding handle_call_ack
ack-Keeps env m parsed =
    if_cases (Keeps m) (has_endpoints parsed.endpoints) _ m
      (λ _. ack_taken-Keeps env m m.current_call parsed) (λ _. refl)

pub enable-Keeps : (env : Env) (m : CallManager) (b : Bool) → Keeps m (enable_local_video env m b).0
unfolding enable_local_video apply_stream_ssrcs derive_video_ssrcs
enable-Keeps env m b = ground arith

pub disable-Keeps : (m : CallManager) (b : Bool) → Keeps m (disable_local_video m b).0
unfolding disable_local_video
disable-Keeps m b = ground arith

pub if-Keeps :
    (m : CallManager) (b : Bool) (x y : CallManager)
    → Keeps m x
    → Keeps m y
    → Keeps m (if b then x else y)
if-Keeps m true x y f g = f
if-Keeps m false x y f g = g

pub streams-Keeps : (env : Env) (m : CallManager) (c : CallInfo) → Keeps m (streams_set env m c)
unfolding apply_stream_ssrcs derive_video_ssrcs streams_set
streams-Keeps env m c = ground arith

pub accepts-Keeps :
    (env : Env) (m m' : CallManager) (c : CallInfo) (b : Bool)
    → Keeps m m'
    → Keeps m (accepts env m' c b)
accepts-Keeps env m m' c true k = k
accepts-Keeps env m m' c false k = k

pub video_taken-Keeps :
    (env : Env) (m : CallManager) (c : CallInfo) (state : ℕ) (b : Bool)
    → Keeps m (video_state_taken env m c state b)
video_taken-Keeps env m c state b = ground (arith, streams-Keeps env m c)

pub video_state-Keeps :
    (env : Env) (m : CallManager) (id from : String) (state : ℕ) (b : Bool)
    → Keeps m (handle_video_state env m id from state b)
unfolding handle_video_state
video_state-Keeps env m id from state b = go m.current_call
  where
    m' : CallManager
    m' = send_node m (video_ack id from)

    go : (o : Option CallInfo) → Keeps m (video_state_of env m' o state b)
    go none = refl
    go (some c) =
        if_cases (Keeps m) (is_over c) m' _ (λ _. refl) (λ _. video_taken-Keeps env m' c state b)

pub end_if-Keeps :
    (m m' : CallManager) (b : Bool) (now : ℕ) → Keeps m m' → Keeps m (end_if b m' now).0
end_if-Keeps m m' true now k = end_call-Keeps m' (some EndCallReason.timeout) now ∙ k
end_if-Keeps m m' false now k = k

pub tick-Keeps : (m : CallManager) (t : Timeouts) (now : ℕ) → Keeps m (expire_if_overdue m t now).0
unfolding expire_if_overdue
tick-Keeps m t now = go m.current_call
  where
    go : (o : Option CallInfo) → Keeps m (tick_of m t now o).0
    go none = refl
    go (some c) =
        if_cases (λ (r : CallManager × Bool). Keeps m r.0) (is_over c) _ _ (λ _. refl)
          (λ _.
            if_cases (λ (r : CallManager × Bool). Keeps m r.0)
              (is_in (state_of c) CallState.active && is_inactive m t now) _ _
              (λ _. force-Keeps m now)
              (λ _. end_if-Keeps m _ (is_overdue (phase_deadline c t) now) now (
                if-Keeps m (is_in (state_of c) CallState.reconnecting) (retry_reconnect m now) m
                  (retry-Keeps m now) refl)))

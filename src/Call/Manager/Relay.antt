-- ===== src/Call/Manager/Relay.antt =====
-- callmanager_relay.go: what the relay transport reports, and the redialling. The goroutines that
-- connect or notify run at once.
use wa_calls.Base.{
  ℕ, ◌-◌, ◌/◌, Bool, true, false, ◌||◌, not, Option, none, some, List, if◌then◌else◌, ltb,
}
use wa_calls.Core.{CallState, RelayEndpoint}
use wa_calls.Call.State.{CallInfo, TransitionType, InvalidTransition, apply_transition, is_in}
use wa_calls.Call.Manager.State.{
  CallManager, leave, send_node, emit_state, with_call, state_of, endpoints_of, transport_stanza,
  connections_dropped, subscriptions_resent,
}
use wa_calls.Call.Manager.Locally.{connect_relays, plain}
use wa_calls.Call.Manager.Signals.{has_endpoints}
use wa_calls.Call.Manager.Accepts.{media_connected_now}

abbrev pub relay_connected : CallManager → Option CallInfo → ℕ → CallManager
relay_connected m none now = m
relay_connected m (some c) now =
    if is_in (state_of c) CallState.connecting then media_connected_now m c now else m

unfoldable pub on_relay_connected : CallManager → ℕ → CallManager
on_relay_connected m now = relay_connected m m.current_call now

abbrev recovered : CallManager → Option CallInfo → CallManager
recovered m none = m
recovered m (some c) =
    if is_in (state_of c) CallState.reconnecting
    then send_node (leave m subscriptions_resent)
        (transport_stanza c.peer_jid c.call_creator c.call_id)
    else m

abbrev redial : CallManager → List RelayEndpoint → CallManager
redial m endpoints = connect_relays m endpoints

-- The active call whose media path is gone, and whether the transition was made.
abbrev pub lose : CallManager → CallInfo × Option InvalidTransition → Bool × CallManager
lose m (c, some e) = (false, m)
lose m (c, none) = (true, emit_state (with_call m c))

abbrev pub lose_active : CallManager → CallInfo → ℕ → Bool × CallManager
lose_active m c now =
    let r = lose m (apply_transition c (plain TransitionType.media_lost none) now) in
    if is_in (state_of c) CallState.active then r else (false, m)

abbrev lost_path : CallInfo → Bool × CallManager → CallManager
lost_path c (lost, m) = if lost then redial m (endpoints_of c.relay_data) else m

abbrev pub usable_none : CallManager → Option CallInfo → ℕ → CallManager
usable_none m none now = m
usable_none m (some c) now = lost_path c (lose_active m c now)

unfoldable pub on_relay_usable_change : CallManager → ℕ → ℕ → CallManager
on_relay_usable_change m usable now =
    if ltb 0 usable then recovered m m.current_call else usable_none m m.current_call now

abbrev pub forced : CallInfo → ℕ → Bool × CallManager → CallManager
forced c now (lost, m) =
    let m' = leave (record m { last_redial_at = now }) connections_dropped in
    if lost then redial m' (endpoints_of c.relay_data) else m

abbrev pub force_of : CallManager → Option CallInfo → ℕ → CallManager
force_of m none now = m
force_of m (some c) now = forced c now (lose_active m c now)

unfoldable pub force_media_lost : CallManager → ℕ → CallManager
force_media_lost m now = force_of m m.current_call now

abbrev pub redial_retry_interval : ℕ
redial_retry_interval = 6_000_000_000

abbrev pub retry_of : CallManager → Option CallInfo → ℕ → CallManager
retry_of m none now = m
retry_of m (some c) now =
    let m' = record m { last_redial_at = now } in
    if not (is_in (state_of c) CallState.reconnecting)
      || ltb (now - m.last_redial_at) redial_retry_interval
    then m
    else if has_endpoints (endpoints_of c.relay_data)
    then redial (leave m' connections_dropped) (endpoints_of c.relay_data)
    else m'

unfoldable pub retry_reconnect : CallManager → ℕ → CallManager
retry_reconnect m now = retry_of m m.current_call now

abbrev restored : CallManager → CallInfo × Option InvalidTransition → CallManager
restored m (c, some e) = m
restored m (c, none) = emit_state (with_call m c)

abbrev pub restored_if : CallManager → Option CallInfo → ℕ → CallManager
restored_if m none now = m
restored_if m (some c) now =
    if is_in (state_of c) CallState.reconnecting
    then restored m (apply_transition c (plain TransitionType.media_restored none) now)
    else m

-- notePeerMediaLocked of callmanager_media.go; the clock in milliseconds is the one of nanoseconds.
unfoldable pub note_peer_media : CallManager → ℕ → CallManager
note_peer_media m now =
    restored_if (record m { last_media_recv = now / 1_000_000 }) m.current_call now

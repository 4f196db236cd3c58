-- ===== src/Call/Manager/Accepts.antt =====
-- HandleCallAccept, in the sections that it has the lock in. `rekey` is the key that
-- DecryptCallKeyInNode found, if the stanza carries one.
use Prim.Native.String.{String}
use text.Mathlib.Text.{◌==◌}
use wa_calls.Base.{
  ℕ, Bool, true, false, ◌&&◌, ◌||◌, not, Option, none, some, List, [], ◌∷◌, if◌then◌else◌,
}
use wa_calls.Call.State.{CallInfo, TransitionType, InvalidTransition, apply_transition}
use wa_calls.Call.Manager.Jids.{ensure_device_jid, first_ssrc}
use wa_calls.Call.Manager.State.{
  CallManager, leave, send_node, emit_state, with_call, is_over, is_video, endpoints_of,
  elsewhere_stanza, transport_stanza, mute_stanza, receipt_stanza, subscription_set,
  subscriptions_resent,
}
use wa_calls.Call.Manager.Keys.{
  Env, generate_secure_ssrc, init_srtp_keys, reinit_srtp, remember_device_jids, apply_stream_ssrcs,
}
use wa_calls.Call.Manager.Locally.{connect_relays, transit, plain, video_ssrcs_if}
use wa_calls.Media.Srtp.Protect.{bytes_equal}

-- Whether an accept comes from a device other than the one that answered.
abbrev pub is_from_other : String → String → Bool
is_from_other accepted peer = not (accepted == "") && not (accepted == peer)

-- maybeStartRtcpTxLocked, where there is a call.
abbrev has_context : {A : Type 0} → Option A → Bool
has_context none = false
has_context (some c) = true

unfoldable pub maybe_start_rtcp_tx : CallManager → CallManager
maybe_start_rtcp_tx m =
    if m.has_rtcp_tx || not (has_context m.send_srtcp) then m else record m { has_rtcp_tx = true }

abbrev pub connected_if : CallManager → CallInfo × Option InvalidTransition → CallManager
connected_if m (c, some e) = m
connected_if m (c, none) = maybe_start_rtcp_tx (emit_state (with_call m c))

-- The media path is there: the call becomes active, if it may.
unfoldable pub media_connected_now : CallManager → CallInfo → ℕ → CallManager
media_connected_now m c now =
    connected_if m (apply_transition c (plain TransitionType.media_connected none) now)

-- The devices of the callee that did not answer.
abbrev pub siblings_of : List String → String → List String
siblings_of [] peer = []
siblings_of (d ∷ devices) peer =
    let rest = siblings_of devices peer in if d == peer then rest else d ∷ rest

abbrev elsewhere_told : CallManager → CallInfo → List String → CallManager
elsewhere_told m c [] = m
elsewhere_told m c (s ∷ siblings) =
    send_node m (elsewhere_stanza c.peer_jid c.call_id c.call_creator (s ∷ siblings))

module _ (env : Env) where
  abbrev rekeyed_by :
      CallManager → CallInfo → Option (List ℕ) → Option (List ℕ) → String → CallManager
  rekeyed_by m c (some key) (some peer_key) peer =
      if not (is_over c) && not (bytes_equal key peer_key)
      then reinit_srtp env m c key peer_key peer
      else m
  rekeyed_by m c _ _ peer = m

  -- The section with the peer's own call key.
  abbrev pub accept_rekey : CallManager → CallInfo → Option (List ℕ) → String → CallManager
  accept_rekey m c rekey peer = rekeyed_by m c c.encryption_key rekey peer

  -- The section that makes the peer's device the one that answered.
  unfoldable pub accept_device : CallManager → CallInfo → String → ℕ → CallManager
  accept_device m c peer now =
      let device = ensure_device_jid peer in
      let m1 = record (emit_state (transit m c TransitionType.remote_accepted none now)) {
        accepted_by_jid = peer;
        peer_ssrcs = generate_secure_ssrc env c.call_id device 0 ∷ [];
      } in
      let ours = ensure_device_jid env.own_jid in
      let m2 =
        video_ssrcs_if env (is_video c.media_type) (remember_device_jids m1 ours device) c.call_id
          ours device in
      init_srtp_keys env
        (apply_stream_ssrcs (leave m2 (subscription_set (first_ssrc m2.peer_ssrcs))))

  abbrev receipt_sent : CallManager → CallInfo → String → String → CallManager
  receipt_sent m c peer msg_id =
      if msg_id == ""
      then m
      else send_node m (receipt_stanza peer msg_id c.call_id c.call_creator env.own_jid)

  -- The stanzas of an accept: only the first one tells the siblings.
  unfoldable pub accept_answered :
      CallManager → CallInfo → String → (is_first : Bool) → String → CallManager
  accept_answered m c peer is_first msg_id =
      let m1 = leave m subscriptions_resent in
      let m2 = if is_first then elsewhere_told m1 c (siblings_of m.callee_devices peer) else m1 in
      let m3 = send_node m2 (transport_stanza peer c.call_creator c.call_id) in
      receipt_sent (send_node m3 (mute_stanza peer c.call_id c.call_creator 0)) c peer msg_id

  abbrev pub path_taken : CallManager → Option CallInfo → Bool → ℕ → CallManager
  path_taken m none has_connection now = m
  path_taken m (some c) has_connection now =
      if has_connection
      then media_connected_now m c now
      else connect_relays m (endpoints_of c.relay_data)

  abbrev accept_live : CallManager → CallInfo → String → String → Bool → ℕ → CallManager
  accept_live m c peer msg_id has_connection now =
      let m' = accept_device m c peer now in
      let m'' = accept_answered m' c peer (m.accepted_by_jid == "") msg_id in
      path_taken m'' m''.current_call has_connection now

  abbrev pub accept_of :
      CallManager → Option CallInfo → String → Option (List ℕ) → String → Bool → ℕ → CallManager
  accept_of m none peer rekey msg_id has_connection now = m
  accept_of m (some c) peer rekey msg_id has_connection now =
      if is_from_other m.accepted_by_jid peer
      then m
      else if is_over c
      then m
      else accept_live (accept_rekey m c rekey peer) c peer msg_id has_connection now

  -- HandleCallAccept of a stanza with a node in it.
  unfoldable pub handle_call_accept :
      CallManager
      → (peer : String) → (rekey : Option (List ℕ)) → (msg_id : String) → (has_connection : Bool)
      → ℕ
      → CallManager
  handle_call_accept m peer rekey msg_id has_connection now =
      accept_of m m.current_call peer rekey msg_id has_connection now

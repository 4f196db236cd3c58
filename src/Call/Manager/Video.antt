-- ===== src/Call/Manager/Video.antt =====
-- The video of a call in its course: callmanager_video.go less the frames. A send that fails is an
-- argument; the state of a stanza is what ParseVideoState reads.
use Prim.Native.String.{String}
use wa_calls.Base.{ℕ, Bool, true, false, ◌||◌, Option, none, some, if◌then◌else◌, leb, ◌==◌}
use wa_calls.Core.{CallMediaType}
use wa_calls.Call.State.{CallInfo}
use wa_calls.Call.Manager.State.{
  CallManager, leave, send_node, with_call, is_over, video_stanza, video_ack, subscriptions_resent,
  peer_video_state,
}
use wa_calls.Call.Manager.Keys.{Env, derive_video_ssrcs, apply_stream_ssrcs, or_text}
use wa_calls.Call.Manager.Locally.{CallError, no_active_call, send_failed}

-- VideoStateDisabled and the others.
abbrev state_disabled : ℕ
state_disabled = 0

abbrev state_enabled : ℕ
state_enabled = 1

abbrev state_upgrade_request : ℕ
state_upgrade_request = 3

abbrev state_upgrade_accept : ℕ
state_upgrade_accept = 4

abbrev state_upgrade_reject : ℕ
state_upgrade_reject = 5

abbrev state_stopped : ℕ
state_stopped = 6

abbrev state_upgrade_cancel : ℕ
state_upgrade_cancel = 8

abbrev state_upgrade_req_v2 : ℕ
state_upgrade_req_v2 = 11

abbrev pub says : CallManager → CallInfo → ℕ → CallManager
says m c state =
    send_node m (video_stanza (or_text m.accepted_by_jid c.peer_jid) c.call_id c.call_creator state)

abbrev pub told : CallManager → CallInfo → ℕ → Bool → CallManager × Option CallError
told m c state is_sent = if is_sent then (says m c state, none) else (m, some send_failed)

abbrev pub as_video : CallManager → CallInfo → CallManager
as_video m c = with_call m (record c { media_type = CallMediaType.video })

module _ (env : Env) where
  abbrev enabled : CallManager → CallInfo → CallManager
  enabled m c =
      let m' =
        if leb m.video_self_ssrc 0
        then derive_video_ssrcs env m c.call_id m.own_device_jid m.peer_device_jid
        else m in
      let m'' = as_video (record (apply_stream_ssrcs m') { video_enabled = true }) c in
      leave m'' subscriptions_resent

  abbrev enable_of : CallManager → Option CallInfo → Bool → CallManager × Option CallError
  enable_of m none is_sent = (m, some no_active_call)
  enable_of m (some c) is_sent =
      let r = told (enabled m c) c state_upgrade_request is_sent in
      if is_over c then (m, some no_active_call) else r

  unfoldable pub enable_local_video :
      CallManager → (is_sent : Bool) → CallManager × Option CallError
  enable_local_video m is_sent = enable_of m m.current_call is_sent

  -- The SSRCs are derived if one is missing, and the relays get them.
  unfoldable pub streams_set : CallManager → CallInfo → CallManager
  streams_set m c =
      let m' =
        if leb m.video_peer_ssrc 0 || leb m.video_self_ssrc 0
        then derive_video_ssrcs env m c.call_id m.own_device_jid m.peer_device_jid
        else m in
      as_video (apply_stream_ssrcs m') c

  abbrev pub accepts : CallManager → CallInfo → Bool → CallManager
  accepts m c is_sent =
      if is_sent then leave (says m c state_upgrade_accept) subscriptions_resent else m

  -- The switch on the state of the stanza.
  abbrev pub video_state_taken : CallManager → CallInfo → ℕ → Bool → CallManager
  video_state_taken m c state is_sent =
      if (state == 2) || (state == state_upgrade_request) || (state == state_upgrade_req_v2)
      then leave (accepts (streams_set m c) c is_sent) (peer_video_state state_enabled)
      else if (state == state_enabled) || (state == state_upgrade_accept)
      then leave (streams_set m c) (peer_video_state state_enabled)
      else if (state == state_stopped) || (state == state_disabled)
      then leave m (peer_video_state state_disabled)
      else if (state == state_upgrade_reject) || (state == state_upgrade_cancel)
      then leave (record m { video_enabled = false }) (peer_video_state state_disabled)
      else m

  abbrev pub video_state_of : CallManager → Option CallInfo → ℕ → Bool → CallManager
  video_state_of m none state is_sent = m
  video_state_of m (some c) state is_sent =
      if is_over c then m else video_state_taken m c state is_sent

  -- HandleVideoState of a stanza with a video node, which is acknowledged whatever it says.
  unfoldable pub handle_video_state :
      CallManager → (id from : String) → ℕ → (is_sent : Bool) → CallManager
  handle_video_state m id from state is_sent =
      let m' = send_node m (video_ack id from) in video_state_of m' m'.current_call state is_sent

abbrev disabled : CallManager → CallInfo → Bool → CallManager × Option CallError
disabled m c is_sent = told (record m { video_enabled = false }) c state_stopped is_sent

abbrev disable_of : CallManager → Option CallInfo → Bool → CallManager × Option CallError
disable_of m none is_sent = (m, some no_active_call)
disable_of m (some c) is_sent =
    let r = disabled m c is_sent in if is_over c then (m, some no_active_call) else r

unfoldable pub disable_local_video : CallManager → (is_sent : Bool) → CallManager × Option CallError
disable_local_video m is_sent = disable_of m m.current_call is_sent

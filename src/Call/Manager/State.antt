-- ===== src/Call/Manager/State.antt =====
-- The fields of CallManager, less those that only measure or log, and what leaves it. A session of RTP
-- is its SSRC, `rtcp_cname` the SSRC that it writes out, and a stop channel whether the goroutine that
-- listens to it runs. The extensions, the callbacks that are set and the music of a hold are left out.
use Prim.Native.String.{String}
use wa_calls.Base.{ℕ, Bool, true, false, Option, none, some, List, [], ◌∷◌, ◌++◌}
use wa_calls.Core.{
  CallMediaType, audio, video, CallState, ended, RelayData, RelayEndpoint, EndCallReason,
}
use wa_calls.Call.State.{CallInfo, is_in}
use wa_calls.Call.Receive.{RxState, new_rx_state}
use wa_calls.Call.Relays.{RelayConfig}
use wa_calls.Engine.SrtpManager.{SrtpManager}
use wa_calls.Media.Srtcp.Context.{SrtcpContext}
use wa_calls.Media.Rtcp.Receiver.{RtcpReceiverStats}

-- A stanza by the arguments of its builder in internal/voip/signaling.
pub data Stanza : Type 0 where
  offer_stanza : (call_id : String) (key : List ℕ) (to : String) (video : Bool) → Stanza
  preaccept_stanza : (to call_id creator : String) (video : Bool) → Stanza
  accept_stanza : (call_id : String) (key : List ℕ) (to creator : String) (video : Bool) → Stanza
  reject_stanza terminate_stanza : (to call_id creator : String) → Stanza
  elsewhere_stanza : (to call_id creator : String) (siblings : List String) → Stanza
  transport_stanza : (to creator call_id : String) → Stanza
  mute_stanza : (to call_id creator : String) (state : ℕ) → Stanza
  receipt_stanza : (to msg_id call_id creator own : String) → Stanza
  video_stanza : (to call_id creator : String) (state : ℕ) → Stanza
  video_ack : (id from : String) → Stanza

pub data Effect : Type 0 where
  sent_stanza : Stanza → Effect
  state_changed incoming_call call_over : CallInfo → Effect
  relays_configured : List RelayConfig → Effect
  stream_ssrcs_set : (selves peers : List ℕ) → Effect
  subscription_set : ℕ → Effect
  subscriptions_resent connections_dropped relay_cleaned : Effect
  observer_end : (completed : Bool) (reason : Option EndCallReason) → Effect
  peer_video_state : ℕ → Effect

pub record CallManager : Type 0 where
  pub current_call : Option CallInfo
  pub rtp_session : Option ℕ
  pub srtp : Option SrtpManager
  pub video_rtp_session : Option ℕ
  pub video_self_ssrc : ℕ
  pub video_peer_ssrc : ℕ
  pub first_video_sent : Bool
  pub video_enabled : Bool
  pub own_device_jid : String
  pub peer_device_jid : String
  pub hold_active : Bool
  pub self_ssrc : ℕ
  pub peer_ssrcs : List ℕ
  pub actual_peer_set : Bool
  pub rx : RxState
  pub first_packet_sent : Bool
  pub initial_transport_sent : Bool
  pub outgoing_preaccept_sent : Bool
  pub observer_ended : Bool
  pub accepted_by_jid : String
  pub callee_devices : List String
  pub has_watchdog : Bool
  pub last_media_recv : ℕ
  pub last_redial_at : ℕ
  pub send_srtcp : Option SrtcpContext
  pub recv_srtcp : Option SrtcpContext
  pub recv_stats : Option RtcpReceiverStats
  pub has_rtcp_tx : Bool
  pub rtcp_cname : Option ℕ
  pub srtcp_tx_index : ℕ
  pub declared_self : List ℕ
  pub ext_attached : Bool
  pub effects : List Effect

abbrev pub new_call_manager : CallManager
new_call_manager = record {
  current_call = none;
  rtp_session = none;
  srtp = none;
  video_rtp_session = none;
  video_self_ssrc = 0;
  video_peer_ssrc = 0;
  first_video_sent = false;
  video_enabled = false;
  own_device_jid = "";
  peer_device_jid = "";
  hold_active = false;
  self_ssrc = 0;
  peer_ssrcs = [];
  actual_peer_set = false;
  rx = new_rx_state;
  first_packet_sent = false;
  initial_transport_sent = false;
  outgoing_preaccept_sent = false;
  observer_ended = false;
  accepted_by_jid = "";
  callee_devices = [];
  has_watchdog = false;
  last_media_recv = 0;
  last_redial_at = 0;
  send_srtcp = none;
  recv_srtcp = none;
  recv_stats = none;
  has_rtcp_tx = false;
  rtcp_cname = none;
  srtcp_tx_index = 0;
  declared_self = [];
  ext_attached = false;
  effects = [];
}

abbrev pub leave : CallManager → Effect → CallManager
leave m e = record m { effects = m.effects ++ (e ∷ []) }

abbrev pub send_node : CallManager → Stanza → CallManager
send_node m s = leave m (sent_stanza s)

abbrev pub state_event : CallManager → Option CallInfo → CallManager
state_event m none = m
state_event m (some c) = leave m (state_changed c)

-- Where OnStateChange is set, as wireCall of internal/app/session/session.go does.
abbrev pub emit_state : CallManager → CallManager
emit_state m = state_event m m.current_call

abbrev pub with_call : CallManager → CallInfo → CallManager
with_call m c = record m { current_call = some c }

abbrev pub state_of : CallInfo → CallState
state_of c = c.state_data.state

abbrev pub is_over : CallInfo → Bool
is_over c = is_in c.state_data.state ended

abbrev pub is_video : CallMediaType → Bool
is_video video = true
is_video audio = false

abbrev pub endpoints_of : Option RelayData → List RelayEndpoint
endpoints_of none = []
endpoints_of (some d) = d.endpoints

abbrev pub participants_of : Option RelayData → List String
participants_of none = []
participants_of (some d) = d.participant_jids

-- cleanupMedia: whether the call was connected, for the observer.
abbrev was_connected : Option ℕ → Bool
was_connected none = false
was_connected (some t) = true

abbrev observed_end : CallManager → Option CallInfo → CallManager
observed_end m none = m
observed_end m (some c) =
    leave m (observer_end (was_connected c.state_data.connected_at) c.state_data.end_reason)

abbrev tell_observer : CallManager → Bool → CallManager
tell_observer m true = m
tell_observer m false = record (observed_end m m.current_call) { observer_ended = true }

unfoldable pub cleanup_media : CallManager → CallManager
cleanup_media m =
    leave
      (record (tell_observer m m.observer_ended) {
        rtp_session = none;
        srtp = none;
        video_rtp_session = none;
        video_self_ssrc = 0;
        video_peer_ssrc = 0;
        first_video_sent = false;
        video_enabled = false;
        own_device_jid = "";
        peer_device_jid = "";
        first_packet_sent = false;
        initial_transport_sent = false;
        outgoing_preaccept_sent = false;
        actual_peer_set = false;
        ext_attached = false;
        rx = new_rx_state;
        last_media_recv = 0;
        has_watchdog = false;
        has_rtcp_tx = false;
        send_srtcp = none;
        recv_srtcp = none;
        recv_stats = none;
        rtcp_cname = none;
        srtcp_tx_index = 0;
        declared_self = [];
      })
      relay_cleaned

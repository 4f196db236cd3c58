-- ===== src/Call/Manager/Keys.antt =====
-- callmanager_srtp.go, and the SSRCs of callmanager_video.go: what a call derives from its key, its
-- id and the devices that take part. HKDF-SHA256 is a parameter; it fails only for outputs of more
-- than 8160 bytes, which are not asked for here.
use Prim.Native.String.{String}
use text.Mathlib.Text.{◌==◌}
use wa_calls.Base.{ℕ, true, Option, none, some, List, [], ◌∷◌, ◌++◌, if◌then◌else◌, leb}
use wa_calls.Bytes.{slice, get_u32_le}
use wa_calls.Core.{SrtpKeyingMaterial}
use wa_calls.Call.State.{CallInfo}
use wa_calls.Call.Manager.Jids.{clean_jid, ensure_device_jid, find_our_device, first_peer_device}
use wa_calls.Call.Manager.State.{
  CallManager, leave, stream_ssrcs_set, subscriptions_resent, participants_of,
}
use wa_calls.Engine.SrtpManager.{new_srtp_manager}
use wa_calls.Media.Srtp.Protect.{Crypto}
use wa_calls.Media.Srtcp.Context.{SrtcpContext, new_srtcp_context}
use wa_calls.Media.Rtcp.Receiver.{RtcpReceiverStats, new_rtcp_receiver_stats}
use wa_calls.Media.Wav.Header.{put_u32_le}

-- `own_jid` is ownCredJid: our LID, or our number where there is none. `bytes` is []byte of a text.
pub record Env : Type 0 where
  pub crypto : Crypto
  pub hkdf : (secret salt : List ℕ) (info : String) → ℕ → List ℕ
  pub bytes : String → List ℕ
  pub own_jid : String

-- replaceRtpSession, less what it reports of memory.
abbrev pub replace_rtp_session : CallManager → Option ℕ → CallManager
replace_rtp_session m s = record m { rtp_session = s }

abbrev pub or_text : String → String → String
or_text s t = if s == "" then t else s

module _ (env : Env) where
  unfoldable pub generate_secure_ssrc : String → String → ℕ → ℕ
  generate_secure_ssrc call_id self_jid counter =
      get_u32_le (env.hkdf (env.bytes call_id) (put_u32_le counter) self_jid 4)

  unfoldable pub derive_per_jid_srtp_key : List ℕ → String → SrtpKeyingMaterial
  derive_per_jid_srtp_key call_key device_jid =
      let out = env.hkdf call_key [] device_jid 46 in
      record { master_key = slice out 0 16; master_salt = slice out 16 30 }

  abbrev pub or_new_stats : Option RtcpReceiverStats → RtcpReceiverStats
  or_new_stats none = new_rtcp_receiver_stats
  or_new_stats (some s) = s

  abbrev pub or_cname : Option ℕ → ℕ → Option ℕ
  or_cname none ssrc = some ssrc
  or_cname (some c) ssrc = some c

  abbrev pub with_srtcp : CallManager → Option SrtcpContext → Option SrtcpContext → CallManager
  with_srtcp m none recv = m
  with_srtcp m (some s) none = record m { send_srtcp = some s }
  with_srtcp m (some s) (some r) = record m {
    send_srtcp = some s;
    recv_srtcp = some r;
    recv_stats = some (or_new_stats m.recv_stats);
    rtcp_cname = or_cname m.rtcp_cname m.self_ssrc;
  }

  abbrev pub setup_srtcp : CallManager → SrtpKeyingMaterial → SrtpKeyingMaterial → CallManager
  setup_srtcp m send_km recv_km =
      with_srtcp m (new_srtcp_context env.crypto send_km) (new_srtcp_context env.crypto recv_km)

  -- The keys of a pair of devices, as initSrtpKeysLocked and reinitSrtpLocked set them.
  unfoldable pub arm : CallManager → SrtpKeyingMaterial → SrtpKeyingMaterial → CallManager
  arm m send_km recv_km =
      setup_srtcp (record m { srtp = some (new_srtp_manager send_km recv_km 4 4) }) send_km recv_km

  abbrev pub our_device : CallInfo → String
  our_device c =
      ensure_device_jid
        (find_our_device (participants_of c.relay_data) (clean_jid env.own_jid) env.own_jid)

  abbrev pub peer_device : CallManager → CallInfo → String
  peer_device m c = ensure_device_jid (
      or_text m.accepted_by_jid (
        or_text (first_peer_device (participants_of c.relay_data) (clean_jid env.own_jid))
          c.peer_jid))

  abbrev pub init_keys : CallManager → CallInfo → Option (List ℕ) → CallManager
  init_keys m c none = m
  init_keys m c (some key) =
      record (arm m (derive_per_jid_srtp_key key (our_device c))
        (derive_per_jid_srtp_key key (peer_device m c))) { ext_attached = true }

  -- initSrtpKeysLocked; the extensions are attached if they are not yet.
  abbrev pub init_srtp_keys_of : CallManager → Option CallInfo → CallManager
  init_srtp_keys_of m none = m
  init_srtp_keys_of m (some c) = init_keys m c c.encryption_key

  unfoldable pub init_srtp_keys : CallManager → CallManager
  init_srtp_keys m = init_srtp_keys_of m m.current_call

  -- reinitSrtpLocked, on the current call and its key.
  unfoldable pub reinit_srtp : CallManager → CallInfo → List ℕ → List ℕ → String → CallManager
  reinit_srtp m c key peer_key peer_jid =
      arm m (derive_per_jid_srtp_key key (our_device c)) (derive_per_jid_srtp_key peer_key peer_jid)

  abbrev pub known_self : CallManager → String → String
  known_self m jid = or_text jid (or_text m.own_device_jid (ensure_device_jid env.own_jid))

  abbrev pub accepted_device : String → String
  accepted_device jid = if jid == "" then "" else ensure_device_jid jid

  abbrev pub known_peer : CallManager → String → String
  known_peer m jid = or_text jid (or_text m.peer_device_jid (accepted_device m.accepted_by_jid))

  abbrev pub with_video_self : CallManager → String → String → CallManager
  with_video_self m call_id jid =
      if jid == ""
      then m
      else record m { own_device_jid = jid; video_self_ssrc = generate_secure_ssrc call_id jid 2 }

  abbrev pub with_video_peer : CallManager → String → String → CallManager
  with_video_peer m call_id jid =
      if jid == ""
      then m
      else record m { peer_device_jid = jid; video_peer_ssrc = generate_secure_ssrc call_id jid 2 }

  -- A session of another SSRC is replaced, and one of the same stays, counters included.
  abbrev pub with_video_session : CallManager → CallManager
  with_video_session m = if leb m.video_self_ssrc 0 then m else record m {
    video_rtp_session = some m.video_self_ssrc;
    declared_self = m.video_self_ssrc ∷ m.declared_self;
  }

  unfoldable pub derive_video_ssrcs : CallManager → String → String → String → CallManager
  derive_video_ssrcs m call_id self_jid peer_jid =
      let peer = known_peer m peer_jid in
      with_video_session
        (with_video_peer (with_video_self m call_id (known_self m self_jid)) call_id peer)

-- rememberDeviceJidsLocked
abbrev pub remember_device_jids : CallManager → String → String → CallManager
remember_device_jids m self_jid peer_jid = record m {
  own_device_jid = if self_jid == "" then m.own_device_jid else self_jid;
  peer_device_jid = if peer_jid == "" then m.peer_device_jid else peer_jid;
}

abbrev pub unless_zero : ℕ → List ℕ
unless_zero ssrc = if leb ssrc 0 then [] else ssrc ∷ []

-- applyStreamSsrcsLocked, with streamSsrcsLocked.
unfoldable pub apply_stream_ssrcs : CallManager → CallManager
apply_stream_ssrcs m =
    leave
      (leave m (
        stream_ssrcs_set (unless_zero m.self_ssrc ++ unless_zero m.video_self_ssrc)
          (m.peer_ssrcs ++ unless_zero m.video_peer_ssrc)))
      subscriptions_resent

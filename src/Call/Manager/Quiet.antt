-- ===== src/Call/Manager/Quiet.antt =====
-- A call that is over holds no keys, sessions or goroutines.
use Prim.Native.String.{String}
use wa_calls.Base.{
  ℕ, ◌≡◌, ◌⊎◌, refl, sym, ap, ◌∙◌, inl, inr, Bool, true, false, Option, none, some, List, [], ◌∷◌,
  arith, if◌then◌else◌,
}
use wa_calls.Core.{CallMediaType, EndCallReason, RelayData, RelayEndpoint}
use wa_calls.Call.State.{
  CallInfo, TransitionType, apply_transition, can_accept, new_outgoing_call, InvalidTransition,
}
use wa_calls.Call.Manager.State.{CallManager, cleanup_media, is_over, is_video}
use wa_calls.Call.Manager.Keys.{Env, apply_stream_ssrcs, init_srtp_keys, arm, derive_video_ssrcs}
use wa_calls.Call.Manager.Locally.{
  connect_relays, start_call, accept_begin, accept_setup, setup_incoming_media, reject_call,
  end_call, hold_call, resume_call, end_current, reject_with, reject_current, plain, video_ssrcs_if,
  begin_call, place_devices,
}

abbrev pub is_over_now : Option CallInfo → Bool
is_over_now none = false
is_over_now (some c) = is_over c

abbrev pub is_there : {A : Type 0} → Option A → Bool
is_there none = false
is_there (some a) = true

-- What a call keeps while its media run.
abbrev pub media_of : CallManager → List Bool
media_of m =
    is_there m.rtp_session
    ∷ is_there m.srtp
    ∷ is_there m.video_rtp_session
    ∷ is_there m.send_srtcp
    ∷ is_there m.recv_srtcp
    ∷ is_there m.recv_stats
    ∷ m.has_watchdog
    ∷ m.has_rtcp_tx
    ∷ m.ext_attached
    ∷ []

abbrev pub nothing : List Bool
nothing = false ∷ false ∷ false ∷ false ∷ false ∷ false ∷ false ∷ false ∷ false ∷ []

abbrev pub IsQuiet : CallManager → Type 0
IsQuiet m = is_over_now m.current_call ≡ true → media_of m ≡ nothing

-- Every way in which a handler may leave the manager quiet.
abbrev pub Settles : CallManager → CallManager → Type 0
Settles m m' =
    (is_over_now m'.current_call ≡ false)
    ⊎ ((media_of m' ≡ nothing)
        ⊎ ((is_over_now m'.current_call ≡ is_over_now m.current_call) × (media_of m' ≡ media_of m)))

pub Settles-IsQuiet : (m m' : CallManager) → Settles m m' → IsQuiet m → IsQuiet m'
Settles-IsQuiet m m' (inl live) q h = absurd (ground arith)
Settles-IsQuiet m m' (inr (inl silent)) q h = silent
Settles-IsQuiet m m' (inr (inr (same, media))) q h = media ∙ q (sym same ∙ h)

pub cleanup_media-nothing : (m : CallManager) → media_of (cleanup_media m) ≡ nothing
unfolding cleanup_media
cleanup_media-nothing m = refl

pub connect_relays-call :
    (m : CallManager) (es : List RelayEndpoint)
    → ((connect_relays m es).current_call ≡ m.current_call)
      × (media_of (connect_relays m es) ≡ media_of m)
unfolding connect_relays apply_stream_ssrcs
connect_relays-call m es = ground arith

-- The helpers that derive keys leave the call.
pub init_srtp_keys-call :
    (env : Env) (m : CallManager) → (init_srtp_keys env m).current_call ≡ m.current_call
unfolding init_srtp_keys arm
init_srtp_keys-call env m = ground arith

pub derive_video_ssrcs-call :
    (env : Env) (m : CallManager) (id self_jid peer_jid : String)
    → (derive_video_ssrcs env m id self_jid peer_jid).current_call ≡ m.current_call
unfolding derive_video_ssrcs
derive_video_ssrcs-call env m id self_jid peer_jid = ground arith

pub same_Settles : (m : CallManager) → Settles m m
same_Settles m = inr (inr (refl, refl))

pub cleanup-Settles : (m x : CallManager) → Settles m (cleanup_media x)
cleanup-Settles m x = inr (inl (cleanup_media-nothing x))

pub if-Settles :
    (m : CallManager) (b : Bool) (x y : CallManager)
    → (b ≡ true → Settles m x)
    → (b ≡ false → Settles m y)
    → Settles m (if b then x else y)
if-Settles m true x y f g = f refl
if-Settles m false x y f g = g refl

end_current-Settles :
    (m : CallManager) (why : Option EndCallReason) (now : ℕ) (o : Option CallInfo)
    → Settles m (end_current m why now o)
end_current-Settles m why now none = same_Settles m
end_current-Settles m why now (some c) =
    if-Settles m (is_over c) m _ (λ _. same_Settles m) (λ _. cleanup-Settles m _)

pub end_call-Settles :
    (m : CallManager) (why : Option EndCallReason) (now : ℕ) → Settles m (end_call m why now)
unfolding end_call
end_call-Settles m why now = end_current-Settles m why now m.current_call

reject_with-Settles :
    (m : CallManager) (c : CallInfo) (r : CallInfo × Option InvalidTransition)
    → Settles m (reject_with m c r).0
reject_with-Settles m c (c', some e) = same_Settles m
reject_with-Settles m c (c', none) = cleanup-Settles m _

reject_current-Settles :
    (m : CallManager) (id : String) (why : Option EndCallReason) (now : ℕ) (o : Option CallInfo)
    → Settles m (reject_current m id why now o).0
reject_current-Settles m id why now none = same_Settles m
reject_current-Settles m id why now (some c) = ground (
  arith,
  reject_with-Settles m c (apply_transition c (plain TransitionType.local_rejected why) now),
)

pub reject_call-Settles :
    (m : CallManager) (id : String) (why : Option EndCallReason) (now : ℕ)
    → Settles m (reject_call m id why now).0
unfolding reject_call
reject_call-Settles m id why now = reject_current-Settles m id why now m.current_call

pub hold_call-Settles : (m : CallManager) (now : ℕ) → Settles m (hold_call m now).0
unfolding hold_call apply_transition
hold_call-Settles m now = ground arith

pub resume_call-Settles : (m : CallManager) (now : ℕ) → Settles m (resume_call m now)
unfolding resume_call apply_transition
resume_call-Settles m now = ground arith

pub accept_begin-Settles :
    (env : Env) (m : CallManager) (id : String) (built : Bool) (now : ℕ)
    → Settles m (accept_begin env m id built now).0
unfolding accept_begin apply_transition can_accept
accept_begin-Settles env m id built now = ground arith

-- A handler that works on the call of the manager, where its result has a call that is not over.
pub live_Settles :
    (m m' : CallManager) (c : CallInfo)
    → m'.current_call ≡ some c
    → is_over c ≡ false
    → Settles m m'
live_Settles m m' c e l = inl (ap is_over_now e ∙ l)

pub video_ssrcs_if-call :
    (env : Env) (b : Bool) (m : CallManager) (id self_jid peer_jid : String)
    → (video_ssrcs_if env b m id self_jid peer_jid).current_call ≡ m.current_call
video_ssrcs_if-call env true m id self_jid peer_jid =
    derive_video_ssrcs-call env m id self_jid peer_jid
video_ssrcs_if-call env false m id self_jid peer_jid = refl

pub begin_call-call :
    (env : Env) (m : CallManager) (c : CallInfo) (peer : String)
    → (begin_call env m c peer).current_call ≡ some c
begin_call-call env m c peer =
    video_ssrcs_if-call env (is_video c.media_type) _ c.call_id env.own_jid peer

pub start_call-Settles :
    (env : Env) (m : CallManager) (id peer : String) (key : List ℕ) (media : CallMediaType)
    (built : Option (List String)) (answered : Bool) (now later : ℕ)
    → Settles m (start_call env m id peer key media built answered now later).0
unfolding start_call apply_transition new_outgoing_call
start_call-Settles env m id peer key media built answered now later = ground (
  arith,
  begin_call-call env (record m { outgoing_preaccept_sent = false })
      (record (new_outgoing_call id peer env.own_jid media now) { encryption_key = some key }) peer,
)

pub place_devices-call :
    (env : Env) (m : CallManager) (c : CallInfo) (jids : List String)
    → (place_devices env m c jids).current_call ≡ m.current_call
place_devices-call env m c jids =
    video_ssrcs_if-call env (is_video c.media_type) _ _ _ _ ∙ ground arith

pub setup_incoming_media-call :
    (env : Env) (m : CallManager) (c : CallInfo) (jids : List String)
    → (setup_incoming_media env m c jids).current_call ≡ m.current_call
unfolding setup_incoming_media apply_stream_ssrcs
setup_incoming_media-call env m c [] = init_srtp_keys-call env _
setup_incoming_media-call env m c (j ∷ jids) =
    init_srtp_keys-call env _ ∙ place_devices-call env m c (j ∷ jids)

-- The media of an accept are set up on the call as it is: it must not be over by then.
pub accept_setup-Settles :
    (env : Env) (m : CallManager) (c : CallInfo) (d : Option RelayData)
    → is_over_now m.current_call ≡ false
    → Settles m (accept_setup env m c d)
unfolding accept_setup
accept_setup-Settles env m c none l = same_Settles m
accept_setup-Settles env m c (some d) l =
    let placed = setup_incoming_media-call env m c d.participant_jids in
    let dialled =
      (connect_relays-call (setup_incoming_media env m c d.participant_jids) d.endpoints).0 in
    inl (ap is_over_now (dialled ∙ placed) ∙ l)

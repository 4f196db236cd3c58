-- ===== src/Call/Manager/Answered.antt =====
-- The device that answered a call stays the one that did.
use Prim.Native.String.{String}
use text.Mathlib.Text.{◌==◌}
use text.Mathlib.TextEquality.{eq_iff}
use wa_calls.Base.{
  ℕ, ◌≡◌, refl, sym, ap, ◌∙◌, Bool, true, false, ◌&&◌, not, Option, none, some, List, [], ◌∷◌,
  arith, if_cases, ◌⊎◌, inl, inr, Bool-cases,
}
use wa_calls.Core.{EndCallReason}
use wa_calls.Call.State.{CallInfo}
use wa_calls.Call.Deadline.{Timeouts}
use wa_calls.Call.Manager.State.{CallManager, is_over, is_video}
use wa_calls.Call.Manager.Keys.{Env, arm, apply_stream_ssrcs, reinit_srtp}
use wa_calls.Call.Manager.Signals.{handle_call_terminate, terminate_taken, is_other_device}
use wa_calls.Call.Manager.Accepts.{
  is_from_other, handle_call_accept, accept_of, accept_rekey, accept_device, accept_answered,
  path_taken, media_connected_now, maybe_start_rtcp_tx,
}
use wa_calls.Call.Manager.Quiet.{is_over_now}
use wa_calls.Call.Manager.Histories.{Happening, act, act_all}
use wa_calls.Call.Manager.Kept.{
  Keeps, connect-Keeps, end_call-Keeps, reject-Keeps, terminate-Keeps, hold-Keeps, resume-Keeps,
  transport-Keeps, latency-Keeps, usable-Keeps, connected-Keeps, note-Keeps, init_keys-Keeps,
  video_ssrcs_if-Keeps, start-Keeps, offer-Keeps, accept_begin-Keeps, accept_setup-Keeps, ack-Keeps,
  enable-Keeps, disable-Keeps, video_state-Keeps, tick-Keeps,
}

rekey-Keeps :
    (env : Env) (m : CallManager) (c : CallInfo) (rekey : Option (List ℕ)) (peer : String)
    → Keeps m (accept_rekey env m c rekey peer)
unfolding reinit_srtp arm
rekey-Keeps env m c rekey peer = ground arith

accept_device-jid :
    (env : Env) (m : CallManager) (c : CallInfo) (peer : String) (now : ℕ)
    → (accept_device env m c peer now).accepted_by_jid ≡ peer
unfolding accept_device apply_stream_ssrcs
accept_device-jid env m c peer now =
    init_keys-Keeps env _ ∙ video_ssrcs_if-Keeps env (is_video c.media_type) _ _ _ _ ∙ ground arith

accept_answered-Keeps :
    (env : Env) (m : CallManager) (c : CallInfo) (peer : String) (b : Bool) (id : String)
    → Keeps m (accept_answered env m c peer b id)
unfolding accept_answered
accept_answered-Keeps env m c peer b id = ground arith

path_taken-Keeps :
    (env : Env) (m : CallManager) (o : Option CallInfo) (b : Bool) (now : ℕ)
    → Keeps m (path_taken env m o b now)
unfolding media_connected_now maybe_start_rtcp_tx
path_taken-Keeps env m none b now = refl
path_taken-Keeps env m (some c) true now = ground arith
path_taken-Keeps env m (some c) false now = connect-Keeps m _

-- A device that is not another one than the one that answered is that one.
same_device :
    (accepted sender : String)
    → ((accepted == "") ≡ false)
    → (is_from_other accepted sender ≡ false)
    → sender ≡ accepted
same_device accepted sender a h = ground (arith, eq_iff accepted sender)

other-is_from_other :
    (accepted sender : String)
    → is_other_device accepted sender ≡ true
    → is_from_other accepted sender ≡ true
other-is_from_other accepted sender h =
    ground (arith, eq_iff accepted sender, eq_iff sender accepted)

accept-Keeps :
    (env : Env) (m : CallManager) (peer : String) (rekey : Option (List ℕ)) (msg_id : String)
    (b : Bool) (now : ℕ)
    → ((m.accepted_by_jid == "") ≡ false)
    → Keeps m (handle_call_accept env m peer rekey msg_id b now)
unfolding handle_call_accept
accept-Keeps env m peer rekey msg_id b now answered = go m.current_call
  where
    go : (o : Option CallInfo) → Keeps m (accept_of env m o peer rekey msg_id b now)
    go none = refl
    go (some c) =
        if_cases (Keeps m) (is_from_other m.accepted_by_jid peer) m _ (λ _. refl)
          (λ same.
            if_cases (Keeps m) (is_over c) m _ (λ _. refl)
              (λ _.
                path_taken-Keeps env _ _ b now
                ∙ accept_answered-Keeps env _ c peer _ msg_id
                ∙ accept_device-jid env (accept_rekey env m c rekey peer) c peer now
                ∙ same_device m.accepted_by_jid peer answered same))

module _ (env : Env) (t : Timeouts) where
  act-Keeps :
      (m : CallManager) (h : Happening)
      → ((m.accepted_by_jid == "") ≡ false)
      → Keeps m (act env t m h)
  act-Keeps m (Happening.starts id peer key media built answered now later) a =
      start-Keeps env m id peer key media built answered now later
  act-Keeps m (Happening.accepts_call id built now) a = accept_begin-Keeps env m id built now
  act-Keeps m (Happening.sets_up c d) a = accept_setup-Keeps env m c d
  act-Keeps m (Happening.rejects id why now) a = reject-Keeps m id why now
  act-Keeps m (Happening.ends why now) a = end_call-Keeps m why now
  act-Keeps m (Happening.holds now) a = hold-Keeps m now
  act-Keeps m (Happening.resumes now) a = resume-Keeps m now
  act-Keeps m (Happening.offer_comes o peer key now) a = offer-Keeps env m o peer key now
  act-Keeps m (Happening.transport_comes relays parsed b) a = transport-Keeps env m relays parsed b
  act-Keeps m (Happening.latency_comes parsed) a = latency-Keeps env m parsed
  act-Keeps m (Happening.ack_comes parsed) a = ack-Keeps env m parsed
  act-Keeps m (Happening.accept_comes peer rekey msg_id b now) a =
      accept-Keeps env m peer rekey msg_id b now a
  act-Keeps m (Happening.terminate_comes sender why now) a = terminate-Keeps m sender why now
  act-Keeps m (Happening.relay_connects now) a = connected-Keeps m now
  act-Keeps m (Happening.usable_changes usable now) a = usable-Keeps m usable now
  act-Keeps m (Happening.media_comes now) a = note-Keeps m now
  act-Keeps m (Happening.ticks now) a = tick-Keeps m t now
  act-Keeps m (Happening.video_starts b) a = enable-Keeps env m b
  act-Keeps m (Happening.video_stops b) a = disable-Keeps m b
  act-Keeps m (Happening.video_state_comes id from state b) a =
      video_state-Keeps env m id from state b

  act_all-Keeps :
      (m : CallManager) (hs : List Happening)
      → ((m.accepted_by_jid == "") ≡ false)
      → Keeps m (act_all env t m hs)
  act_all-Keeps m [] a = refl
  act_all-Keeps m (h ∷ hs) a =
      let kept = act-Keeps m h a in
      act_all-Keeps (act env t m h) hs (ap (λ (j : String). j == "") kept ∙ a) ∙ kept

  others_ignored :
      (m : CallManager) (sender : String) (rekey : Option (List ℕ)) (msg_id : String) (b : Bool)
      (why : Option EndCallReason) (now : ℕ)
      → is_other_device m.accepted_by_jid sender ≡ true
      → is_over_now m.current_call ≡ false
      → (handle_call_accept env m sender rekey msg_id b now ≡ m)
        × (handle_call_terminate m sender why now ≡ m)
  unfolding handle_call_accept handle_call_terminate
  others_ignored m sender rekey msg_id b why now other live = go m.current_call live
    where
      go :
          (o : Option CallInfo)
          → is_over_now o ≡ false
          → (accept_of env m o sender rekey msg_id b now ≡ m)
            × (terminate_taken m sender why now o ≡ m)
      go none l = (refl, refl)
      go (some c) l = (
        if_cases (λ (x : CallManager). x ≡ m) (is_from_other m.accepted_by_jid sender) m _
            (λ _. refl)
            (λ no.
              absurd (ground (arith, sym no ∙ other-is_from_other m.accepted_by_jid sender other))),
        if_cases (λ (x : CallManager). x ≡ m)
            (is_other_device m.accepted_by_jid sender && not (is_over c)) m _ (λ _. refl)
            (λ no. absurd (ground (arith, other, l, no))),
      )

  others_ignored_or :
      (m : CallManager) (sender : String) (rekey : Option (List ℕ)) (msg_id : String) (b : Bool)
      (why : Option EndCallReason) (now : ℕ) (over : Bool)
      → is_other_device m.accepted_by_jid sender ≡ true
      → is_over_now m.current_call ≡ over
      → (is_over_now m.current_call ≡ true)
        ⊎ ((handle_call_accept env m sender rekey msg_id b now ≡ m)
            × (handle_call_terminate m sender why now ≡ m))
  others_ignored_or m sender rekey msg_id b why now true other o = inl o
  others_ignored_or m sender rekey msg_id b why now false other o =
      inr (others_ignored m sender rekey msg_id b why now other o)

  -- Once a device has answered, after whatever happens to the manager, that device is still the one that
  -- answered; and the call is over, or an accept or a terminate of any other device leaves the manager
  -- as it is.
  pub answered_for_good :
      (m : CallManager) (hs : List Happening) (sender : String) (rekey : Option (List ℕ))
      (msg_id : String) (b : Bool) (why : Option EndCallReason) (now : ℕ)
      → ((m.accepted_by_jid == "") ≡ false)
      → let m' = act_all env t m hs in
        (m'.accepted_by_jid ≡ m.accepted_by_jid)
        × ((is_other_device m.accepted_by_jid sender ≡ false)
            ⊎ ((is_over_now m'.current_call ≡ true)
                ⊎ ((handle_call_accept env m' sender rekey msg_id b now ≡ m')
                    × (handle_call_terminate m' sender why now ≡ m'))))
  answered_for_good m hs sender rekey msg_id b why now a =
      let m' : CallManager = act_all env t m hs in
      let kept = act_all-Keeps m hs a in
      (
        kept,
        elim (Bool-cases (is_other_device m.accepted_by_jid sender)) [
          | inl other ↦ inr (
              others_ignored_or m' sender rekey msg_id b why now (is_over_now m'.current_call)
                (ap (λ (j : String). is_other_device j sender) kept ∙ other) refl)
          | inr same ↦ inl same
        ],
      )

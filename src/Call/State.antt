-- ===== src/Call/State.antt =====
-- internal/voip/call/callstate.go: the state machine of one call. Times are nanoseconds of the
-- monotonic clock, which `time.Now` reads, so that `now.Sub(connectedAt)` is not negative.
-- `time.Now()` is an argument. A nil pointer or nil key is `none`.
use Prim.Native.String.{String}
use wa_calls.Base.{
  ℕ, ◌-◌, ◌/◌, Bool, true, false, ◌||◌, ◌&&◌, not, Option, none, some, List, if◌then◌else◌,
}
use wa_calls.Core.{
  CallState, initiating, ringing, incoming_ringing, connecting, active, on_hold, reconnecting,
  ended, CallDirection, outgoing, incoming, CallMediaType, EndCallReason, RelayData,
}

pub record CallStateData : Type 0 where
  pub state : CallState
  pub connected_at : Option ℕ
  pub accepted_at : Option ℕ
  pub ended_at : Option ℕ
  pub media_lost_at : Option ℕ
  pub audio_muted : Bool
  pub video_off : Bool
  pub silenced : Bool
  pub end_reason : Option EndCallReason  -- `none` is the empty string
  pub duration_secs : ℕ

pub record CallInfo : Type 0 where
  pub call_id : String
  pub peer_jid : String
  pub call_creator : String
  pub direction : CallDirection
  pub media_type : CallMediaType
  pub state_data : CallStateData
  pub created_at : ℕ
  pub group_jid : String
  pub is_offline : Bool
  pub caller_pn : String
  pub encryption_key : Option (List ℕ)
  pub relay_data : Option RelayData
  pub elected_relay_idx : Option ℕ

abbrev fresh_state : CallState → CallStateData
fresh_state s = record {
  state = s;
  connected_at = none;
  accepted_at = none;
  ended_at = none;
  media_lost_at = none;
  audio_muted = false;
  video_off = true;
  silenced = false;
  end_reason = none;
  duration_secs = 0;
}

unfoldable pub new_outgoing_call : String → String → String → CallMediaType → ℕ → CallInfo
new_outgoing_call call_id peer_jid our_jid media now = record {
  call_id = call_id;
  peer_jid = peer_jid;
  call_creator = our_jid;
  direction = outgoing;
  media_type = media;
  state_data = fresh_state initiating;
  created_at = now;
  group_jid = "";
  is_offline = false;
  caller_pn = "";
  encryption_key = none;
  relay_data = none;
  elected_relay_idx = none;
}

unfoldable pub new_incoming_call : String → String → String → String → CallMediaType → ℕ → CallInfo
new_incoming_call call_id peer_jid creator caller_pn media now = record {
  call_id = call_id;
  peer_jid = peer_jid;
  call_creator = creator;
  direction = incoming;
  media_type = media;
  state_data = fresh_state incoming_ringing;
  created_at = now;
  group_jid = "";
  is_offline = false;
  caller_pn = caller_pn;
  encryption_key = none;
  relay_data = none;
  elected_relay_idx = none;
}

-- The test `s.State == x`.
abbrev pub is_in : CallState → CallState → Bool
is_in initiating initiating = true
is_in ringing ringing = true
is_in incoming_ringing incoming_ringing = true
is_in connecting connecting = true
is_in active active = true
is_in on_hold on_hold = true
is_in reconnecting reconnecting = true
is_in ended ended = true
is_in _ _ = false

unfoldable pub is_initiator : CallInfo → Bool
is_initiator c = elim c.direction [ outgoing ↦ true | incoming ↦ false ]

unfoldable is_active : CallInfo → Bool
is_active c = is_in c.state_data.state active

unfoldable is_ringing : CallInfo → Bool
is_ringing c = is_in c.state_data.state ringing || is_in c.state_data.state incoming_ringing

unfoldable is_ended : CallInfo → Bool
is_ended c = is_in c.state_data.state ended

unfoldable pub can_accept : CallInfo → Bool
can_accept c = is_in c.state_data.state incoming_ringing

unfoldable can_reject : CallInfo → Bool
can_reject c = is_in c.state_data.state incoming_ringing || is_in c.state_data.state ringing

-- `unknown_type` is any other string, the `default` of the switch.
pub data TransitionType : Type 0 where
  offer_sent offer_received local_accepted remote_accepted local_rejected remote_rejected :
      TransitionType
  media_connected media_lost media_restored terminated hold resume audio_mute_changed :
      TransitionType
  unknown_type : String → TransitionType

pub record Transition : Type 0 where
  pub type : TransitionType
  pub reason : Option EndCallReason
  pub muted : Bool
  pub silenced : Bool

pub record InvalidTransition : Type 0 where
  pub current_state : CallState
  pub attempted : TransitionType

abbrev pub nanos_per_second : ℕ
nanos_per_second = 1_000_000_000

-- `int(now.Sub(*s.ConnectedAt).Seconds())`, where ConnectedAt is set.
abbrev call_seconds : Option ℕ → ℕ → ℕ → ℕ
call_seconds none now old = old
call_seconds (some t) now old = (now - t) / nanos_per_second

abbrev end_with : CallStateData → ℕ → Option EndCallReason → CallStateData
end_with s now why = record s { state = ended; ended_at = some now; end_reason = why }

-- The switch of ApplyTransition on `t.Type`: the new state data, or `none` for InvalidTransition.
abbrev transition_data : TransitionType → Transition → ℕ → CallStateData → Option CallStateData
transition_data offer_sent t now s =
    if not (is_in s.state initiating) then none else some (record s { state = ringing })
transition_data offer_received t now s =
    if not (is_in s.state initiating)
    then none
    else some (record s { state = incoming_ringing; silenced = t.silenced })
transition_data remote_accepted t now s =
    if not (is_in s.state ringing)
    then none
    else some (record s { state = connecting; accepted_at = some now })
transition_data local_accepted t now s =
    if not (is_in s.state incoming_ringing)
    then none
    else some (record s { state = connecting; accepted_at = some now })
transition_data remote_rejected t now s =
    if not (is_in s.state ringing) then none else some (end_with s now t.reason)
transition_data local_rejected t now s =
    if not (is_in s.state incoming_ringing) then none else some (end_with s now t.reason)
transition_data media_connected t now s =
    if is_in s.state on_hold
    then some (record s { connected_at = some now; video_off = true })
    else if not (is_in s.state connecting)
    then none
    else some (record s { state = active; connected_at = some now; video_off = true })
transition_data media_lost t now s =
    if not (is_in s.state active) && not (is_in s.state on_hold)
    then none
    else some (record s { state = reconnecting; media_lost_at = some now })
transition_data media_restored t now s =
    if not (is_in s.state reconnecting)
    then none
    else some (record s { state = active; media_lost_at = none })
transition_data terminated t now s =
    if is_in s.state ended
    then none
    else let talked = is_in s.state active || is_in s.state on_hold || is_in s.state reconnecting in
      let secs = call_seconds s.connected_at now s.duration_secs in
      let s' = record s { duration_secs = if talked then secs else s.duration_secs } in
      some (end_with s' now t.reason)
transition_data hold t now s =
    if not (is_in s.state active) && not (is_in s.state connecting)
    then none
    else some (record s { state = on_hold })
transition_data resume t now s =
    if not (is_in s.state on_hold) then none else some (record s { state = active })
transition_data audio_mute_changed t now s =
    if not (is_in s.state active) then none else some (record s { audio_muted = t.muted })
transition_data (unknown_type name) t now s = none

-- The call after the transition, and the error that ApplyTransition returns.
unfoldable pub apply_transition : CallInfo → Transition → ℕ → CallInfo × Option InvalidTransition
apply_transition c t now = elim (transition_data t.type t now c.state_data) [
  | none ↦ (c, some (record { current_state = c.state_data.state; attempted = t.type }))
  | some s ↦ (record c { state_data = s }, none)
]

-- ===== src/Events/Clients.antt =====
-- The callers of the registry: doAccept, doStartCall and handleStartGroupCall of
-- internal/app/handlers_call.go and wireCall of internal/app/session/session.go, as far as they read and
-- change it.
use Prim.Native.String.{String}
use text.Mathlib.Text.{◌==◌}
use wa_calls.Base.{ℕ, Bool, true, false, ◌&&◌, not, Option, none, some, List, if◌then◌else◌}
use wa_calls.Core.{CallState}
use wa_calls.Events.Registry.{
  CallStatus, CallRecord, Broker, incoming, incoming_claimed, group_call, send, owner_ref,
  upsert_call, get_call, set_owner, owner_active_call, end_call,
}

-- The answers of doAccept up to AcceptCall.
pub data Answer : Type 0 where
  no_such_call on_a_call claimed_by_another accepted : Answer

abbrev pub claimed : Broker → String → String → String → Bool × Broker → Answer × Broker
claimed b session_id id owner (true, b') =
    (accepted, send b' (incoming_claimed session_id id owner))
claimed b session_id id owner (false, b') = (claimed_by_another, b')

unfoldable pub accept_call :
    Broker → (has_call : Bool) → (session_id id owner : String) → Answer × Broker
accept_call b has_call session_id id owner =
    let other = owner_active_call b owner in
    if not has_call
    then (no_such_call, b)
    else if not (other == "") && not (other == id)
    then (on_a_call, b)
    else claimed b session_id id owner (set_owner b id owner)

abbrev pub map_status : CallState → CallStatus
map_status CallState.active = CallStatus.connected
map_status CallState.reconnecting = CallStatus.reconnecting
map_status CallState.ended = CallStatus.ended
map_status CallState.initiating = CallStatus.starting
map_status _ = CallStatus.ringing

-- OnStateChange: a call that is known keeps its owner, its times and its names.
abbrev pub refreshed : Option CallRecord → CallRecord → CallRecord
refreshed none r = r
refreshed (some c) r = record r {
  owner = c.owner;
  started_at = c.started_at;
  peer = c.peer;
  peer_name = c.peer_name;
  peer_photo_url = c.peer_photo_url;
}

abbrev pub over_or_changed : CallState → Broker → Broker → Broker
over_or_changed CallState.ended after_end after_change = after_end
over_or_changed _ after_end after_change = after_change

-- `r` has the fields that OnStateChange takes from the call; the reason, the time and the store's
-- answer are those of EndCall.
unfoldable pub on_state_change :
    Broker → CallState → CallRecord → (reason : String) → ℕ → (inserted : Bool) → Broker
on_state_change b state r reason now inserted =
    over_or_changed state (end_call b r.call_id reason now inserted) (
      upsert_call b
        (refreshed (get_call b r.call_id) (record r { owner = none; status = map_status state })))

-- Broker.EmitIncoming, less the callback OnIncomingCall.
abbrev pub emit_incoming : Broker → CallRecord → Bool → Broker
emit_incoming b r is_video =
    send b (incoming r.session_id r.call_id r.peer r.peer_name r.peer_photo_url is_video)

-- OnIncoming: nobody owns the call yet.
unfoldable pub on_incoming : Broker → CallRecord → (is_video : Bool) → Broker
on_incoming b r is_video =
    emit_incoming (upsert_call b (record r { owner = none; status = CallStatus.ringing })) r
      is_video

-- doStartCall of handlers_call.go, where StartCall has succeeded with the call of `r`.
unfoldable pub dial_call : Broker → String → CallRecord → Answer × Broker
dial_call b owner r =
    if owner_active_call b owner == ""
    then (
      accepted,
      upsert_call b (record r { owner = owner_ref owner; status = CallStatus.ringing }),
    )
    else (on_a_call, b)

-- handleStartGroupCall of handlers_call.go, where the phones are normalized and StartCall has succeeded
-- with the call of `r`, whose peer is the phones, joined. It does not ask for the owner's active call.
unfoldable pub start_group_call :
    Broker
    → (owner : String) → CallRecord
    → (phones : List String) → (is_video : Bool) → (group_jid : String) → Broker
start_group_call b owner r phones is_video group_jid =
    let r' = record r {
      owner = owner_ref owner;
      peer_name = group_jid;
      status = CallStatus.ringing;
    } in
    send (upsert_call b r') (group_call r.session_id r.call_id phones is_video group_jid)

-- ===== src/Events/Registry.antt =====
-- internal/app/events/callregistry.go: the calls that a Broker tracks. What a method sends, to the
-- browsers, to the webhook's queue and to the store, is appended to `sent`, in its order. `time.Now`
-- and the store's answers are arguments.
use Prim.Native.String.{String}
use text.Mathlib.Text.{◌==◌}
use wa_calls.Base.{
  ℕ, ◌+◌, Bool, true, false, ◌&&◌, ◌||◌, not, Option, none, some, List, [], ◌∷◌, ◌++◌,
  if◌then◌else◌, ltb, length,
}
use wa_calls.Events.Dict.{Dict, lookup, without, insert}

pub data CallStatus : Type 0 where
  starting ringing connected reconnecting ended : CallStatus

pub record CallRecord : Type 0 where
  pub session_id : String
  pub call_id : String
  pub owner : Option String
  pub direction : String
  pub peer : String
  pub peer_name : String
  pub peer_photo_url : String
  pub started_at : ℕ
  pub status : CallStatus
  pub ended_at : Option ℕ
  pub end_reason : String

-- core.CallRecord, as the store holds it.
pub record StoredCall : Type 0 where
  pub call_id : String
  pub session_id : String
  pub owner : Option String
  pub direction : String
  pub peer : String
  pub started_at : ℕ
  pub ended_at : ℕ
  pub end_reason : String

-- What leaves the registry, less the times of day in it. The fields of `call-status` are those of its record.
pub data Sent : Type 0 where
  webhook : String → CallRecord → Sent
  call_list : List CallRecord → Sent
  call_status : CallRecord → Sent
  call_ended :
      (session_id id : String) (owner : Option String) (reason : String) (ended_at : ℕ) → Sent
  incoming : (session_id id peer peer_name peer_photo_url : String) (is_video : Bool) → Sent
  incoming_claimed : (session_id id owner : String) → Sent
  group_call :
      (session_id id : String) (phones : List String) (is_video : Bool) (group_jid : String) → Sent
  stored : StoredCall → Sent
  pruned : ℕ → Sent
  on_call_ended : (session_id call_id peer : String) → Sent

-- `has_records` and `has_callback` say whether `records` and `OnCallEnded` are set; `has_webhooks`
-- whether there is a dispatcher, and `queued` counts the events in its queue.
pub record Broker : Type 0 where
  pub calls : Dict CallRecord
  pub has_records : Bool
  pub has_callback : Bool
  pub has_webhooks : Bool
  pub queued : ℕ
  pub sent : List Sent

abbrev pub history_cap : ℕ
history_cap = 10000

abbrev webhook_queue_size : ℕ
webhook_queue_size = 256

abbrev pub owner_ref : String → Option String
owner_ref owner = if owner == "" then none else some owner

abbrev same_status : CallStatus → Option CallStatus → Bool
same_status starting (some starting) = true
same_status ringing (some ringing) = true
same_status connected (some connected) = true
same_status reconnecting (some reconnecting) = true
same_status ended (some ended) = true
same_status _ _ = false

abbrev status_of : Option CallRecord → Option CallStatus
status_of none = none
status_of (some c) = some c.status

abbrev pub send : Broker → Sent → Broker
send b s = record b { sent = b.sent ++ (s ∷ []) }

-- webhookDispatcher.enqueue: nothing without a dispatcher, and nothing into a full queue.
abbrev enqueue : Broker → String → CallRecord → Broker
enqueue b event r =
    if b.has_webhooks && ltb b.queued webhook_queue_size
    then record (send b (webhook event r)) { queued = b.queued + 1 }
    else b

abbrev records_of : Dict CallRecord → List CallRecord
records_of [] = []
records_of ((k, c) ∷ d) = c ∷ records_of d

abbrev broadcast_call_list : Broker → Broker
broadcast_call_list b = send b (call_list (records_of b.calls))

abbrev announce : Broker → CallRecord → CallStatus → Broker
announce b r ringing = enqueue b "call.ringing" r
announce b r connected = enqueue b "call.active" r
announce b r _ = b

unfoldable pub upsert_call : Broker → CallRecord → Broker
upsert_call b r =
    let prev = status_of (lookup r.call_id b.calls) in
    let b' = record b { calls = insert r.call_id r b.calls } in
    let b'' = if same_status r.status prev then b' else announce b' r r.status in
    send (broadcast_call_list b'') (call_status r)

unfoldable pub get_call : Broker → String → Option CallRecord
get_call b id = lookup id b.calls

abbrev pub photo_for : Broker → String → Option CallRecord → Broker
photo_for b url none = b
photo_for b url (some r) =
    if url == "" || (r.peer_photo_url == url)
    then b
    else upsert_call b (record r { peer_photo_url = url })

unfoldable pub set_call_photo : Broker → String → String → Broker
set_call_photo b id url = photo_for b url (get_call b id)

-- `c.Owner != nil && *c.Owner == owner`
abbrev pub is_owned_by : Option String → String → Bool
is_owned_by none owner = false
is_owned_by (some o) owner = o == owner

abbrev pub is_claimed : Option String → Bool
is_claimed none = false
is_claimed (some o) = true

abbrev pub claim : Broker → String → String → Option CallRecord → Bool × Broker
claim b id owner none = (false, b)
claim b id owner (some c) =
    if is_claimed c.owner && not (is_owned_by c.owner owner)
    then (false, b)
    else (true, record b { calls = insert id (record c { owner = some owner }) b.calls })

unfoldable pub set_owner : Broker → String → String → Bool × Broker
set_owner b id owner = if owner == "" then (true, b) else claim b id owner (lookup id b.calls)

abbrev pub is_over : CallStatus → Bool
is_over ended = true
is_over _ = false

-- The loop of OwnerActiveCall.
abbrev pub first_active : String → Dict CallRecord → String
first_active owner [] = ""
first_active owner ((id, c) ∷ d) =
    let rest = first_active owner d in
    if is_owned_by c.owner owner && not (is_over c.status) then id else rest

unfoldable pub owner_active_call : Broker → String → String
owner_active_call b owner = if owner == "" then "" else first_active owner b.calls

abbrev row_of : CallRecord → ℕ → StoredCall
row_of r at = record {
  call_id = r.call_id;
  session_id = r.session_id;
  owner = r.owner;
  direction = r.direction;
  peer = r.peer;
  started_at = r.started_at;
  ended_at = at;
  end_reason = r.end_reason;
}

-- persist, where `*rec.EndedAt` is at hand; `inserted` is whether Insert succeeds.
abbrev persist : Broker → CallRecord → ℕ → Bool → Broker
persist b r at inserted =
    if not b.has_records
    then b
    else if inserted
    then send (send b (stored (row_of r at))) (pruned history_cap)
    else b

abbrev pub finish : Broker → String → String → ℕ → Bool → Option CallRecord → Broker
finish b id reason now inserted none = b
finish b id reason now inserted (some c) =
    let over = record c { status = ended; ended_at = some now; end_reason = reason } in
    let b1 = enqueue (record b { calls = without id b.calls }) "call.ended" over in
    let b2 = send b1 (call_ended c.session_id id c.owner reason now) in
    let b3 = persist (broadcast_call_list b2) over now inserted in
    if b3.has_callback then send b3 (on_call_ended c.session_id id c.peer) else b3

unfoldable pub end_call : Broker → String → String → ℕ → Bool → Broker
end_call b id reason now inserted = finish b id reason now inserted (lookup id b.calls)

abbrev active_call_count : Broker → ℕ
active_call_count b = length b.calls

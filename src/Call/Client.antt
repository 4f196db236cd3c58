-- ===== src/Call/Client.antt =====
-- internal/voip/call/client.go: a manager for each call, under its id. The observer of a call is left
-- out. The id of a stanza and what else is parsed of it are arguments, as for the manager; a handler is
-- one step, in which the call is not removed.
use Prim.Native.String.{String}
use text.Mathlib.Text.{◌==◌}
use wa_calls.Base.{
  ℕ, Bool, true, false, ◌&&◌, ◌||◌, not, Option, none, some, List, [], ◌∷◌, ◌++◌, if◌then◌else◌,
  ltb, leb, length,
}
use wa_calls.Core.{CallMediaType, EndCallReason, RelayData, RelayEndpoint}
use wa_calls.Call.State.{CallInfo}
use wa_calls.Call.Manager.State.{CallManager, Stanza, new_call_manager, reject_stanza}
use wa_calls.Call.Manager.Keys.{Env, or_text}
use wa_calls.Call.Manager.Locally.{CallError, no_such_call}
use wa_calls.Call.Manager.Locally
use wa_calls.Call.Manager.Signals.{
  Offer, ParsedRelayAck, handle_call_offer, handle_call_transport, handle_call_relay_latency,
  handle_call_terminate,
}
use wa_calls.Call.Manager.Accepts.{handle_call_accept}
use wa_calls.Call.Manager.Video
use wa_calls.Events.Dict.{Dict, lookup, insert, without}
pub mod Tidy
pub mod Histories
pub mod Others

pub record Client : Type 0 where
  pub max_calls : ℕ
  pub calls : Dict CallManager
  pub rejects : List Stanza

abbrev pub new_client : ℕ → Client
new_client max_calls = record { max_calls = max_calls; calls = []; rejects = [] }

abbrev pub put : Client → String → CallManager → Client
put c id m = record c { calls = insert id m c.calls }

unfoldable pub remove : Client → String → Client
remove c id = record c { calls = without id c.calls }

unfoldable pub count : Client → ℕ
count c = length c.calls

-- Drain: the client afterwards, and the managers it had.
unfoldable pub drain : Client → Client × Dict CallManager
drain c = (record c { calls = [] }, c.calls)

-- What is for the call of an id goes to its manager, if there is one.
abbrev pub deliver_to : Client → String → (CallManager → CallManager) → Option CallManager → Client
deliver_to c id f none = c
deliver_to c id f (some m) = put c id (f m)

unfoldable pub deliver : Client → String → (CallManager → CallManager) → Client
deliver c id f = deliver_to c id f (lookup id c.calls)

abbrev pub asked_of :
    Client
    → String
    → (CallManager → CallManager × Option CallError)
    → Option CallManager
    → Client × Option CallError
asked_of c id f none = (c, some no_such_call)
asked_of c id f (some m) = let r = f m in (put c id r.0, r.1)

abbrev pub ask :
    Client → String → (CallManager → CallManager × Option CallError) → Client × Option CallError
ask c id f = asked_of c id f (lookup id c.calls)

abbrev pub is_full : Client → Bool
is_full c = ltb 0 c.max_calls && leb c.max_calls (count c)

-- reject
abbrev pub turned_away : Client → Offer → String → Client
turned_away c o peer = record c {
  rejects = c.rejects ++ (reject_stanza peer o.call_id (or_text o.creator peer) ∷ []);
}

module _ (env : Env) where
  abbrev pub decrypted_offer : Client → Offer → String → Option (Option (List ℕ)) → ℕ → Client
  decrypted_offer c o peer none now = turned_away c o peer
  decrypted_offer c o peer (some key) now =
      put c o.call_id (handle_call_offer env new_call_manager o peer key now)

  abbrev pub known_or_new :
      Client → Offer → String → Option (Option (List ℕ)) → ℕ → Option CallManager → Client
  known_or_new c o peer key now (some m) = c
  known_or_new c o peer key now none =
      if is_full c then turned_away c o peer else decrypted_offer c o peer key now

  -- HandleOffer, where the key is what DecryptCallKeyInNode returns, an error being `none`.
  unfoldable pub handle_offer :
      Client → Offer → (peer : String) → (key : Option (Option (List ℕ))) → ℕ → Client
  handle_offer c o peer key now =
      if o.call_id == "" then c else known_or_new c o peer key now (lookup o.call_id c.calls)

  abbrev pub placed_or_not :
      Client → String → CallManager × Option CallError → Client × Option CallError
  placed_or_not c id (m, none) = (put c id m, none)
  placed_or_not c id (m, some e) = (remove (put c id m) id, some e)

  -- StartCall, under the id that GenerateCallID made.
  unfoldable pub start_call :
      Client
      → String
      → String
      → List ℕ
      → CallMediaType
      → (built : Option (List String)) → (answered : Bool) → ℕ
      → ℕ
      → Client × Option CallError
  start_call c id peer key media built answered now later = placed_or_not c id (
      wa_calls.Call.Manager.Locally.start_call env new_call_manager id peer key media built answered
        now later)

  abbrev pub handle_accept : Client → String → String → Option (List ℕ) → String → Bool → ℕ → Client
  handle_accept c id peer rekey msg_id has_connection now =
      deliver c id (λ m. handle_call_accept env m peer rekey msg_id has_connection now)

  abbrev pub handle_video : Client → (id stanza_id from : String) → ℕ → Bool → Client
  handle_video c id stanza_id from state is_sent =
      if id == ""
      then c
      else deliver c id
          (λ m. wa_calls.Call.Manager.Video.handle_video_state env m stanza_id from state is_sent)

  abbrev pub enable_video : Client → String → Bool → Client × Option CallError
  enable_video c id is_sent =
      ask c id (λ m. wa_calls.Call.Manager.Video.enable_local_video env m is_sent)

  -- AcceptCall, in its two sections.
  abbrev pub accept_begin : Client → String → Bool → ℕ → Client × Option CallError
  accept_begin c id built now =
      ask c id (λ m. wa_calls.Call.Manager.Locally.accept_begin env m id built now)

  abbrev pub accept_setup : Client → String → CallInfo → Option RelayData → Client
  accept_setup c id call d =
      deliver c id (λ m. wa_calls.Call.Manager.Locally.accept_setup env m call d)

  abbrev pub handle_transport :
      Client → String → List RelayEndpoint → ParsedRelayAck → Bool → Client
  handle_transport c id relays parsed has_connection =
      deliver c id (λ m. handle_call_transport env m relays parsed has_connection)

  abbrev pub handle_relay_latency : Client → String → ParsedRelayAck → Client
  handle_relay_latency c id parsed = deliver c id (λ m. handle_call_relay_latency env m parsed)

abbrev pub handle_terminate : Client → (id sender : String) → Option EndCallReason → ℕ → Client
handle_terminate c id sender why now = deliver c id (λ m. handle_call_terminate m sender why now)

abbrev pub disable_video : Client → String → Bool → Client × Option CallError
disable_video c id is_sent =
    ask c id (λ m. wa_calls.Call.Manager.Video.disable_local_video m is_sent)

abbrev pub hold_call : Client → String → ℕ → Client × Option CallError
hold_call c id now = ask c id (λ m. wa_calls.Call.Manager.Locally.hold_call m now)

abbrev pub resume_call : Client → String → ℕ → Client × Option CallError
resume_call c id now = ask c id (λ m. (wa_calls.Call.Manager.Locally.resume_call m now, none))

abbrev pub reject_call : Client → String → Option EndCallReason → ℕ → Client × Option CallError
reject_call c id why now = ask c id (λ m. wa_calls.Call.Manager.Locally.reject_call m id why now)

-- EndCall of an unknown call is no error.
abbrev pub end_call : Client → String → Option EndCallReason → ℕ → Client
end_call c id why now = deliver c id (λ m. wa_calls.Call.Manager.Locally.end_call m why now)

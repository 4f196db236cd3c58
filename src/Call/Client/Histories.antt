-- ===== src/Call/Client/Histories.antt =====
-- Any sequence of what happens to a client and its calls.
use Prim.Native.String.{String}
use wa_calls.Base.{ℕ, ◌≡◌, Bool, false, Option, none, some, List, [], ◌∷◌}
use wa_calls.Core.{CallMediaType, EndCallReason, RelayData, RelayEndpoint}
use wa_calls.Call.State.{CallInfo}
use wa_calls.Call.Deadline.{Timeouts}
use wa_calls.Call.Manager.State.{CallManager}
use wa_calls.Call.Manager.Keys.{Env}
use wa_calls.Call.Manager.Signals.{Offer, ParsedRelayAck}
use wa_calls.Call.Manager.Histories.{Happening, act, InTime}
use wa_calls.Call.Client.{
  Client, remove, drain, deliver, is_full, handle_offer, start_call, handle_accept, handle_video,
  enable_video, accept_begin, accept_setup, handle_transport, handle_relay_latency,
  handle_terminate, disable_video, hold_call, resume_call, reject_call, end_call,
}
use wa_calls.Events.Dict.{lookup}

pub data Event : Type 0 where
  offer_comes : Offer → (peer : String) → Option (Option (List ℕ)) → ℕ → Event
  starts :
      (id peer : String) (key : List ℕ) (media : CallMediaType) (built : Option (List String))
      (answered : Bool) (now later : ℕ)
      → Event
  accept_comes : (id peer : String) → Option (List ℕ) → (msg_id : String) → Bool → ℕ → Event
  transport_comes : (id : String) → List RelayEndpoint → ParsedRelayAck → Bool → Event
  latency_comes : (id : String) → ParsedRelayAck → Event
  terminate_comes : (id sender : String) → Option EndCallReason → ℕ → Event
  video_comes : (id stanza_id from : String) → ℕ → Bool → Event
  video_starts video_stops : (id : String) → Bool → Event
  accepts_call : (id : String) → Bool → ℕ → Event
  sets_up : (id : String) → CallInfo → Option RelayData → Event
  holds resumes : (id : String) → ℕ → Event
  rejects ends : (id : String) → Option EndCallReason → ℕ → Event
  removes : (id : String) → Event
  drains : Event
  happens : (id : String) → Happening → Event

module _ (env : Env) (t : Timeouts) where
  abbrev pub serve : Client → Event → Client
  serve c (offer_comes o peer key now) = handle_offer env c o peer key now
  serve c (starts id peer key media built answered now later) =
      (start_call env c id peer key media built answered now later).0
  serve c (accept_comes id peer rekey msg_id b now) = handle_accept env c id peer rekey msg_id b now
  serve c (transport_comes id relays parsed b) = handle_transport env c id relays parsed b
  serve c (latency_comes id parsed) = handle_relay_latency env c id parsed
  serve c (terminate_comes id sender why now) = handle_terminate c id sender why now
  serve c (video_comes id stanza_id from state b) = handle_video env c id stanza_id from state b
  serve c (video_starts id b) = (enable_video env c id b).0
  serve c (video_stops id b) = (disable_video c id b).0
  serve c (accepts_call id built now) = (accept_begin env c id built now).0
  serve c (sets_up id call d) = accept_setup env c id call d
  serve c (holds id now) = (hold_call c id now).0
  serve c (resumes id now) = (resume_call c id now).0
  serve c (rejects id why now) = (reject_call c id why now).0
  serve c (ends id why now) = end_call c id why now
  serve c (removes id) = remove c id
  serve c drains = (drain c).0
  -- What happens to a call but for the client: its relay, its watchdog, the ack of its offer.
  serve c (happens id h) = deliver c id (λ m. act env t m h)

  abbrev pub serve_all : Client → List Event → Client
  serve_all c [] = c
  serve_all c (e ∷ es) = serve_all (serve c e) es

  abbrev pub InTimeOf : Option CallManager → Happening → Type 0
  InTimeOf none h = Unit
  InTimeOf (some m) h = InTime env t m h

  -- A call is started where there is room for it, as Session.StartCall sees to; the set-up of an
  -- accepted call and the ack of an offer come before the call is over.
  abbrev pub IsTimely : Client → Event → Type 0
  IsTimely c (starts id peer key media built answered now later) = is_full c ≡ false
  IsTimely c (sets_up id call d) = InTimeOf (lookup id c.calls) (Happening.sets_up call d)
  IsTimely c (happens id h) = InTimeOf (lookup id c.calls) h
  IsTimely c _ = Unit

  abbrev pub AllTimely : Client → List Event → Type 0
  AllTimely c [] = Unit
  AllTimely c (e ∷ es) = IsTimely c e × AllTimely (serve c e) es

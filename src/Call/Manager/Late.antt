-- ===== src/Call/Manager/Late.antt =====
-- The ack of an offer that comes after the call is over.
use Prim.Native.String.{String}
use wa_calls.Base.{
  ℕ, ◌≡◌, refl, sym, ap, ◌∙◌, Bool, true, false, Option, none, some, List, [], ◌∷◌, arith, if_cases,
}
use wa_calls.Core.{RelayEndpoint}
use wa_calls.Call.State.{CallInfo}
use wa_calls.Call.Manager.State.{CallManager, is_over, with_call}
use wa_calls.Call.Manager.Keys.{Env, init_srtp_keys, arm, apply_stream_ssrcs}
use wa_calls.Call.Manager.Locally.{connect_relays}
use wa_calls.Call.Manager.Signals.{
  ParsedRelayAck, handle_call_ack, ack_taken, ack_placed, has_endpoints,
}
use wa_calls.Call.Manager.Quiet.{is_there, is_over_now, init_srtp_keys-call, place_devices-call}

abbrev pub has_participants : List String → Bool
has_participants [] = false
has_participants (j ∷ jids) = true

-- What the late ack leaves: a call that is over, with contexts of SRTP.
abbrev pub IsArmed : CallManager → Type 0
IsArmed m = (is_over_now m.current_call ≡ true) × (is_there m.srtp ≡ true)

init_srtp_keys-there :
    (env : Env) (m : CallManager) (c : CallInfo) (key : List ℕ)
    → m.current_call ≡ some c
    → c.encryption_key ≡ some key
    → is_there (init_srtp_keys env m).srtp ≡ true
unfolding init_srtp_keys arm
init_srtp_keys-there env m c key e k = ground (arith, e, k)

ack_placed-IsArmed :
    (env : Env) (m : CallManager) (c : CallInfo) (key : List ℕ) (jids : List String)
    → m.current_call ≡ some c
    → c.encryption_key ≡ some key
    → is_over c ≡ true
    → has_participants jids ≡ true
    → IsArmed (ack_placed env m c jids)
unfolding apply_stream_ssrcs
ack_placed-IsArmed env m c key [] e k l p = absurd (ground arith)
ack_placed-IsArmed env m c key (j ∷ jids) e k l p =
    let placed = place_devices-call env m c (j ∷ jids) ∙ e in
    (
      ap is_over_now (init_srtp_keys-call env _ ∙ placed) ∙ l,
      init_srtp_keys-there env _ c key placed k,
    )

connect_relays-IsArmed :
    (m : CallManager) (es : List RelayEndpoint) → IsArmed m → IsArmed (connect_relays m es)
unfolding connect_relays apply_stream_ssrcs
connect_relays-IsArmed m es a = ground (arith, a.0, a.1)

abbrev pub key_of : Option CallInfo → Option (List ℕ)
key_of none = none
key_of (some c) = c.encryption_key

ack_taken-IsArmed :
    (env : Env) (m : CallManager) (o : Option CallInfo) (key : List ℕ) (parsed : ParsedRelayAck)
    → is_over_now o ≡ true
    → key_of o ≡ some key
    → has_participants parsed.participant_jids ≡ true
    → IsArmed (ack_taken env m o parsed)
ack_taken-IsArmed env m none key parsed l k p = absurd (ground arith)
ack_taken-IsArmed env m (some c) key parsed l k p =
    let c' : CallInfo = record c { relay_data = some parsed } in
    let armed = ack_placed-IsArmed env (with_call m c') c' key parsed.participant_jids refl k l p in
    connect_relays-IsArmed _ parsed.endpoints (if_cases IsArmed _ _ _ (λ _. armed) (λ _. armed))

-- An ack with relays and participants that comes to a call that is over and has a key sets up contexts
-- of SRTP, and the call stays over.
pub handle_call_ack-IsArmed :
    (env : Env) (m : CallManager) (key : List ℕ) (parsed : ParsedRelayAck)
    → is_over_now m.current_call ≡ true
    → key_of m.current_call ≡ some key
    → has_endpoints parsed.endpoints ≡ true
    → has_participants parsed.participant_jids ≡ true
    → IsArmed (handle_call_ack env m parsed)
unfolding handle_call_ack
handle_call_ack-IsArmed env m key parsed l k r p =
    if_cases IsArmed (has_endpoints parsed.endpoints) _ m
      (λ _. ack_taken-IsArmed env m m.current_call key parsed l k p)
      (λ no. absurd (ground (arith, sym no ∙ r)))

-- ===== src/Call/Diagram.antt =====
-- The transition diagram of callstate.go with the times left out, and what it connects.
use wa_calls.Base.{ℕ, ◌≡◌, refl, ◌≢◌, ◌↔◌, none, arith}
use wa_calls.Core.{
  CallState, initiating, ringing, incoming_ringing, connecting, active, on_hold, reconnecting,
  ended,
}
use wa_calls.Call.State.{
  CallInfo, Transition, TransitionType, offer_sent, offer_received, local_accepted, remote_accepted,
  local_rejected, remote_rejected, media_connected, media_lost, media_restored, terminated, hold,
  resume, audio_mute_changed, apply_transition,
}

-- `Edge t s s'`: a transition of type `t` takes state `s` to `s'`.
pub data Edge : TransitionType → CallState → CallState → Type 0 where
  send_offer : Edge offer_sent initiating ringing
  receive_offer : Edge offer_received initiating incoming_ringing
  accept_remote : Edge remote_accepted ringing connecting
  accept_local : Edge local_accepted incoming_ringing connecting
  reject_remote : Edge remote_rejected ringing ended
  reject_local : Edge local_rejected incoming_ringing ended
  connect_held : Edge media_connected on_hold on_hold
  connect : Edge media_connected connecting active
  lose : Edge media_lost active reconnecting
  lose_held : Edge media_lost on_hold reconnecting
  restore : Edge media_restored reconnecting active
  terminate : {s : CallState} → s ≢ ended → Edge terminated s ended
  hold_active : Edge hold active on_hold
  hold_connecting : Edge hold connecting on_hold
  resume_held : Edge resume on_hold active
  mute : Edge audio_mute_changed active active

ruleset edges = (
  send_offer, receive_offer, accept_remote, accept_local, reject_remote, reject_local, connect_held,
  connect, lose, lose_held, restore, terminate, hold_active, hold_connecting, resume_held, mute,
)

accepted-Edge :
    (c : CallInfo) (t : Transition) (now : ℕ)
    → (apply_transition c t now).1 ≡ none
    → Edge t.type c.state_data.state (apply_transition c t now).0.state_data.state
unfolding apply_transition
accepted-Edge c t now h = grind (arith, edges)

Edge-accepted :
    (c : CallInfo) (t : Transition) (now : ℕ) {type : TransitionType} {s s' : CallState}
    → t.type ≡ type
    → c.state_data.state ≡ s
    → Edge type s s'
    → ((apply_transition c t now).1 ≡ none) × ((apply_transition c t now).0.state_data.state ≡ s')
unfolding apply_transition
Edge-accepted c t now p q send_offer = ground arith
Edge-accepted c t now p q receive_offer = ground arith
Edge-accepted c t now p q accept_remote = ground arith
Edge-accepted c t now p q accept_local = ground arith
Edge-accepted c t now p q reject_remote = ground arith
Edge-accepted c t now p q reject_local = ground arith
Edge-accepted c t now p q connect_held = ground arith
Edge-accepted c t now p q connect = ground arith
Edge-accepted c t now p q lose = ground arith
Edge-accepted c t now p q lose_held = ground arith
Edge-accepted c t now p q restore = ground arith
Edge-accepted c t now p q (terminate live) = ground arith
Edge-accepted c t now p q hold_active = ground arith
Edge-accepted c t now p q hold_connecting = ground arith
Edge-accepted c t now p q resume_held = ground arith
Edge-accepted c t now p q mute = ground arith

-- ApplyTransition accepts a transition and moves the call to a state exactly when the diagram has
-- that edge: no other type is accepted in a state, and no edge leads elsewhere.
pub apply_transition-Edge_iff :
    (c : CallInfo) (t : Transition) (now : ℕ) (s' : CallState)
    → (((apply_transition c t now).1 ≡ none) × ((apply_transition c t now).0.state_data.state ≡ s'))
      ↔ Edge t.type c.state_data.state s'
apply_transition-Edge_iff c t now s' =
    (λ (ok, moved). rw moved at (accepted-Edge c t now ok), λ e. Edge-accepted c t now refl refl e)

-- ===== src/Runs/Calls.antt =====
-- The theorems on calls, at one history: an outgoing call that is accepted, connects and ends.
use Prim.Native.String.{String}
use wa_calls.Base.{ℕ, ◌≡◌, refl, ◌↔◌, none, some, List, [], ◌∷◌, false, arith}
use wa_calls.Core.{RelayEndpoint, initiating, ringing, active, audio, user_ended}
use wa_calls.Call.State.{
  CallInfo, Transition, TransitionType, offer_sent, remote_accepted, media_connected, terminated,
  hold, resume, apply_transition, new_outgoing_call,
}
use wa_calls.Call.Lifecycle.{IsCoherent, placed, run, run_new-IsCoherent}
use wa_calls.Call.Relays.{
  has_config, is_offered, IsApart, build_relay_configs, build_relay_configs-IsApart,
}
use wa_calls.Call.Diagram.{Edge, apply_transition-Edge_iff}
use wa_calls.Call.Deadline.{default_timeouts, IsPositive, phase_deadline, hold_while_connecting}

abbrev call : CallInfo
call = new_outgoing_call "c1" "peer" "self" audio 5

abbrev event : TransitionType → Transition
event t = record { type = t; reason = some user_ended; muted = false; silenced = false }

abbrev accepted_history : List (ℕ × Transition)
accepted_history =
    (6, event offer_sent)
    ∷ (8, event remote_accepted)
    ∷ (9, event media_connected)
    ∷ (3_000_000_020, event terminated)
    ∷ []

run_new-IsCoherent_example : IsCoherent 3_000_000_020 (run call accepted_history).state_data
run_new-IsCoherent_example =
    run_new-IsCoherent 5 call accepted_history (placed "c1" "peer" "self" audio)
      (omega arith, (omega arith, (omega arith, (omega arith, tt))))

apply_transition-Edge_iff_example :
    (((apply_transition call (event offer_sent) 6).1 ≡ none)
      × ((apply_transition call (event offer_sent) 6).0.state_data.state ≡ ringing))
    ↔ Edge offer_sent initiating ringing
unfolding new_outgoing_call
apply_transition-Edge_iff_example = apply_transition-Edge_iff call (event offer_sent) 6 ringing

abbrev ring_history : List (ℕ × Transition)
ring_history = (6, event offer_sent) ∷ (8, event remote_accepted) ∷ []

connecting_call : IsCoherent 8 (run call ring_history).state_data
connecting_call =
    run_new-IsCoherent 5 call ring_history (placed "c1" "peer" "self" audio)
      (omega arith, (omega arith, tt))

default-IsPositive : IsPositive default_timeouts
default-IsPositive = ground arith

hold_while_connecting_example :
    let c' = run (run call ring_history) ((10, event hold) ∷ (11, event resume) ∷ []) in
    (c'.state_data.state ≡ active) × (phase_deadline c' default_timeouts ≡ none)
unfolding run apply_transition new_outgoing_call
hold_while_connecting_example =
    hold_while_connecting (run call ring_history) default_timeouts (event hold) (event resume) 8 10
      11 connecting_call refl refl refl

abbrev endpoint : String → ℕ → RelayEndpoint
endpoint ip protocol = record {
  ip = ip;
  port = 3480;
  token = "t";
  auth_token = "a";
  raw_auth_token = none;
  raw_token = some (1 ∷ 2 ∷ []);
  key = "k";
  relay_id = 0;
  protocol = protocol;
  c2r_rtt = none;
  relay_name = "";
  address_bytes = none;
  auth_token_id = "";
}

abbrev relays : List RelayEndpoint
relays = endpoint "10.0.0.1" 0 ∷ endpoint "10.0.0.1" 0 ∷ endpoint "10.0.0.2" 1 ∷ []

build_relay_configs-IsApart_example :
    IsApart (build_relay_configs relays)
    × ((ip : String) → has_config ip (build_relay_configs relays) ≡ is_offered ip relays)
build_relay_configs-IsApart_example = build_relay_configs-IsApart relays

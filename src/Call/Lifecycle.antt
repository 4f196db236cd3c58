-- ===== src/Call/Lifecycle.antt =====
-- What holds of a call over any history of transitions.
use wa_calls.Base.{ℕ, ◌-◌, ◌/◌, ◌≤◌, ◌≡◌, refl, ◌⊎◌, ◌≢◌, Option, none, some, List, [], ◌∷◌, arith}
use wa_calls.Core.{
  CallState, initiating, ringing, incoming_ringing, connecting, active, on_hold, reconnecting,
  ended, CallMediaType,
}
use wa_calls.Call.State.{
  CallStateData, CallInfo, Transition, InvalidTransition, apply_transition, new_outgoing_call,
  new_incoming_call, nanos_per_second,
}
use Prim.Native.String.{String}

-- Moments of a history, each no earlier than the one before.
abbrev IsMonotone : ℕ → List (ℕ × Transition) → Type 0
IsMonotone now [] = Unit {0}
IsMonotone now ((t, tr) ∷ rest) = (now ≤ t) × IsMonotone t rest

unfoldable pub run : CallInfo → List (ℕ × Transition) → CallInfo
run c [] = c
run c ((t, tr) ∷ rest) = run (apply_transition c tr t).0 rest

abbrev AtMost : Option ℕ → ℕ → Type 0
AtMost none n = Unit {0}
AtMost (some m) n = m ≤ n

abbrev Before : Option ℕ → Option ℕ → Type 0
Before none _ = Unit {0}
Before (some m) none = ⊥
Before (some m) (some n) = m ≤ n

-- A state in which the call was accepted and is not over.
abbrev IsAccepted : CallState → Type 0
IsAccepted connecting = Unit {0}
IsAccepted active = Unit {0}
IsAccepted on_hold = Unit {0}
IsAccepted reconnecting = Unit {0}
IsAccepted _ = ⊥

abbrev IsRinging : CallState → Type 0
IsRinging initiating = Unit {0}
IsRinging ringing = Unit {0}
IsRinging incoming_ringing = Unit {0}
IsRinging _ = ⊥

abbrev seconds_between : Option ℕ → Option ℕ → ℕ
seconds_between (some a) (some b) = (b - a) / nanos_per_second
seconds_between _ _ = 0

-- The times that CallStateData keeps agree with its state; `now` is the last moment seen.
pub record IsCoherent (now : ℕ) (s : CallStateData) : Type 0 where
  pub accepted_past : AtMost s.accepted_at now
  pub connected_past : AtMost s.connected_at now
  pub lost_past : AtMost s.media_lost_at now
  pub ended_past : AtMost s.ended_at now
  pub ended_iff : (s.state ≡ ended → s.ended_at ≢ none) × (s.ended_at ≢ none → s.state ≡ ended)
  pub reason_late : s.end_reason ≢ none → s.state ≡ ended
  pub accepted_live : IsAccepted s.state → s.accepted_at ≢ none
  pub ringing_unaccepted : IsRinging s.state → s.accepted_at ≡ none
  pub connected_after : s.connected_at ≢ none → s.accepted_at ≢ none
  pub lost_known : s.state ≡ reconnecting → s.media_lost_at ≢ none
  pub lost_only : s.media_lost_at ≢ none → (s.state ≡ reconnecting) ⊎ (s.state ≡ ended)
  pub unconnected : IsRinging s.state ⊎ (s.state ≡ connecting) → s.connected_at ≡ none
  pub duration_live : s.state ≢ ended → s.duration_secs ≡ 0
  pub duration_exact : s.state ≡ ended → s.duration_secs ≡ seconds_between s.connected_at s.ended_at

-- One transition keeps the times coherent, on every branch, the refusals included.
pub apply_transition-IsCoherent :
    (c : CallInfo) (t : Transition) (before now : ℕ)
    → before ≤ now
    → IsCoherent before c.state_data
    → IsCoherent now (apply_transition c t now).0.state_data
unfolding apply_transition
apply_transition-IsCoherent c t before now h v = ground arith

new_outgoing_call-IsCoherent :
    (call_id peer our : String) (m : CallMediaType) (now : ℕ)
    → IsCoherent now (new_outgoing_call call_id peer our m now).state_data
unfolding new_outgoing_call
new_outgoing_call-IsCoherent call_id peer our m now = ground arith

new_incoming_call-IsCoherent :
    (call_id peer creator pn : String) (m : CallMediaType) (now : ℕ)
    → IsCoherent now (new_incoming_call call_id peer creator pn m now).state_data
unfolding new_incoming_call
new_incoming_call-IsCoherent call_id peer creator pn m now = ground arith

-- The moment of the last event of a history that began at `now`.
abbrev last_moment : ℕ → List (ℕ × Transition) → ℕ
last_moment now [] = now
last_moment now ((t, tr) ∷ rest) = last_moment t rest

run-IsCoherent :
    (c : CallInfo) (now : ℕ) (es : List (ℕ × Transition))
    → IsMonotone now es
    → IsCoherent now c.state_data
    → IsCoherent (last_moment now es) (run c es).state_data
unfolding run
run-IsCoherent c now [] m v = v
run-IsCoherent c now ((t, tr) ∷ rest) m v =
    run-IsCoherent (apply_transition c tr t).0 t rest m.1
      (apply_transition-IsCoherent c tr now t m.0 v)

-- A call that NewOutgoingCall or NewIncomingCall made.
pub data IsNew (now : ℕ) : CallInfo → Type 0 where
  placed :
      (call_id peer our : String) (m : CallMediaType)
      → IsNew now (new_outgoing_call call_id peer our m now)
  received :
      (call_id peer creator pn : String) (m : CallMediaType)
      → IsNew now (new_incoming_call call_id peer creator pn m now)

-- After any history of transitions at moments that do not go back, applied to a new call, accepted
-- or refused, the recorded times agree with the state: EndedAt is set exactly when the call is
-- ended, AcceptedAt before it connects, MediaLostAt while it reconnects, none lies in the future,
-- and DurationSecs is 0 until the end and then the whole seconds from ConnectedAt to EndedAt.
pub run_new-IsCoherent :
    (now : ℕ) (c : CallInfo) (es : List (ℕ × Transition))
    → IsNew now c
    → IsMonotone now es
    → IsCoherent (last_moment now es) (run c es).state_data
run_new-IsCoherent now c es (placed call_id peer our m) mono =
    run-IsCoherent _ now es mono (new_outgoing_call-IsCoherent call_id peer our m now)
run_new-IsCoherent now c es (received call_id peer creator pn m) mono =
    run-IsCoherent _ now es mono (new_incoming_call-IsCoherent call_id peer creator pn m now)

apply_transition_ended :
    (c : CallInfo) (t : Transition) (now : ℕ)
    → c.state_data.state ≡ ended
    → (apply_transition c t now).0 ≡ c
unfolding apply_transition
apply_transition_ended c t now h = ground arith

-- An ended call is left as it was by every history of transitions.
run_ended : (c : CallInfo) (es : List (ℕ × Transition)) → c.state_data.state ≡ ended → run c es ≡ c
unfolding run
run_ended c [] h = refl
run_ended c ((t, tr) ∷ rest) h = rw (apply_transition_ended c tr t h) (run_ended c rest h)

-- A refused transition leaves the call as it was, and the error names the state and the attempt.
apply_transition_refused :
    (c : CallInfo) (t : Transition) (now : ℕ) {e : InvalidTransition}
    → (apply_transition c t now).1 ≡ some e
    → ((apply_transition c t now).0 ≡ c)
      × (e ≡ record { current_state = c.state_data.state; attempted = t.type })
unfolding apply_transition
apply_transition_refused c t now h = ground arith

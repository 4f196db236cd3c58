-- ===== src/Call/Deadline.antt =====
-- internal/voip/call/callmanager_timeout.go: the deadline of each phase of a call. A duration is a
-- number of nanoseconds; one that is not positive, which Go compares with `<= 0`, is 0.
use wa_calls.Base.{
  ℕ, ◌+◌, ◌<◌, ◌≡◌, ◌⊎◌, ◌↔◌, Option, none, some, [], ◌∷◌, arith, ◌==◌, if◌then◌else◌,
}
use wa_calls.Core.{
  CallState, initiating, ringing, incoming_ringing, connecting, active, on_hold, reconnecting,
  ended,
}
use wa_calls.Call.State.{CallInfo, Transition, apply_transition, hold, resume}
use wa_calls.Call.Lifecycle.{IsCoherent, run}

pub record Timeouts : Type 0 where
  pub ring : ℕ
  pub answer : ℕ
  pub media_connect : ℕ
  pub media_inactivity : ℕ
  pub reconnect_grace : ℕ
  pub max_duration : ℕ

abbrev second : ℕ
second = 1_000_000_000

abbrev pub default_timeouts : Timeouts
default_timeouts = record {
  ring = 60_000_000_000;
  answer = 60_000_000_000;
  media_connect = 30_000_000_000;
  media_inactivity = 5_000_000_000;
  reconnect_grace = 75_000_000_000;
  max_duration = 14_400_000_000_000;
}

-- The deadline that a duration sets from a moment, if both are there.
abbrev pub after : Option ℕ → ℕ → Option ℕ
after none d = none
after (some t) d = if d == 0 then none else some (t + d)

abbrev deadline_of : CallState → CallInfo → Timeouts → Option ℕ
deadline_of initiating c t = after (some c.created_at) t.answer
deadline_of ringing c t = after (some c.created_at) t.answer
deadline_of incoming_ringing c t = after (some c.created_at) t.ring
deadline_of connecting c t = after c.state_data.accepted_at t.media_connect
deadline_of reconnecting c t = after c.state_data.media_lost_at t.reconnect_grace
deadline_of active c t = after c.state_data.connected_at t.max_duration
deadline_of on_hold c t = after c.state_data.connected_at t.max_duration
deadline_of ended c t = none

-- phaseDeadline; `none` is its `false`.
unfoldable pub phase_deadline : CallInfo → Timeouts → Option ℕ
phase_deadline c t = deadline_of c.state_data.state c t

pub record IsPositive (t : Timeouts) : Type 0 where
  pub ring_pos : 0 < t.ring
  pub answer_pos : 0 < t.answer
  pub connect_pos : 0 < t.media_connect
  pub grace_pos : 0 < t.reconnect_grace
  pub duration_pos : 0 < t.max_duration

-- With positive timeouts, a call whose recorded times agree with its state has no deadline exactly
-- when it is ended, or is active or on hold without ConnectedAt.
phase_deadline-none_iff :
    (c : CallInfo) (t : Timeouts) (now : ℕ)
    → IsPositive t
    → IsCoherent now c.state_data
    → (phase_deadline c t ≡ none) ↔ (
        (c.state_data.state ≡ ended)
        ⊎ (((c.state_data.state ≡ active) ⊎ (c.state_data.state ≡ on_hold))
            × (c.state_data.connected_at ≡ none)))
unfolding phase_deadline
phase_deadline-none_iff c t now p v = ground arith

-- A call that is put on hold while it connects, and then resumed, is active with no ConnectedAt:
-- whatever the timeouts, the watchdog has no deadline for it.
pub hold_while_connecting :
    (c : CallInfo) (t : Timeouts) (h r : Transition) (before now later : ℕ)
    → IsCoherent before c.state_data
    → c.state_data.state ≡ connecting
    → h.type ≡ hold
    → r.type ≡ resume
    → let c' = run c ((now, h) ∷ (later, r) ∷ []) in
      (c'.state_data.state ≡ active) × (phase_deadline c' t ≡ none)
unfolding phase_deadline run apply_transition
hold_while_connecting c t h r before now later v s hh hr = ground arith

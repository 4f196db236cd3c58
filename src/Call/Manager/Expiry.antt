-- ===== src/Call/Manager/Expiry.antt =====
-- The watchdog ends a call that has a deadline.
use wa_calls.Base.{
  subst, ◌⊎◌, inl, inr, ℕ, ◌+◌, ◌≤◌, ◌<◌, ◌≡◌, refl, sym, ap, ◌∙◌, Bool, true, false, ◌&&◌, Option,
  none, some, arith, if◌then◌else◌, if_cases,
}
use wa_calls.Core.{CallState, EndCallReason, active, reconnecting, ended}
use wa_calls.Call.State.{CallInfo, TransitionType, apply_transition, is_in}
use wa_calls.Call.Deadline.{Timeouts, phase_deadline}
use wa_calls.Call.Manager.State.{
  CallManager, emit_state, with_call, cleanup_media, is_over, state_of,
}
use wa_calls.Call.Manager.Locally.{end_call, end_current, plain}
use wa_calls.Call.Manager.Relay.{force_media_lost, retry_reconnect, force_of, forced, lose_active}
use wa_calls.Call.Manager.Watchdog.{expire_if_overdue, tick_of, end_if, is_overdue, is_inactive}
use wa_calls.Call.Manager.Quiet.{is_over_now, connect_relays-call}
use wa_calls.Call.Manager.Steps.{retry-IsAlike}

cleanup_media-call : (m : CallManager) → (cleanup_media m).current_call ≡ m.current_call
unfolding cleanup_media
cleanup_media-call m = ground arith

terminated-over :
    (c : CallInfo) (why : Option EndCallReason) (now : ℕ)
    → is_over (apply_transition c (plain TransitionType.terminated why) now).0 ≡ true
unfolding apply_transition
terminated-over c why now = ground arith

end_current-over :
    (m : CallManager) (why : Option EndCallReason) (now : ℕ) (o : Option CallInfo) (c : CallInfo)
    → m.current_call ≡ some c
    → o ≡ some c
    → is_over_now (end_current m why now o).current_call ≡ true
end_current-over m why now none c e h = absurd (ground arith)
end_current-over m why now (some d) c e h =
    if_cases (λ (x : CallManager). is_over_now x.current_call ≡ true) (is_over d) m _
      (λ l. ap is_over_now (e ∙ sym h) ∙ l)
      (λ _. ap is_over_now (cleanup_media-call _) ∙ terminated-over d why now)

end_call-over :
    (m : CallManager) (why : Option EndCallReason) (now : ℕ) (c : CallInfo)
    → m.current_call ≡ some c
    → is_over_now (end_call m why now).current_call ≡ true
unfolding end_call
end_call-over m why now c e = end_current-over m why now m.current_call c e e

-- A tick leaves a call that is over as it is.
tick-over :
    (m : CallManager) (t : Timeouts) (now : ℕ)
    → is_over_now m.current_call ≡ true
    → is_over_now (expire_if_overdue m t now).0.current_call ≡ true
unfolding expire_if_overdue
tick-over m t now l = go m.current_call l
  where
    go :
        (o : Option CallInfo)
        → is_over_now o ≡ true
        → is_over_now (tick_of m t now o).0.current_call ≡ true
    go none h = absurd (ground arith)
    go (some c) h = rw h l

-- What a tick at or after the deadline makes of a call: it is over, or it was active, has had no media
-- for the time of inactivity and waits from now on.
IsLost : CallManager → ℕ → Type 0
IsLost m now =
    (c : CallInfo) × ((m.current_call ≡ some c)
      × (state_of c ≡ reconnecting)
      × (c.state_data.media_lost_at ≡ some now))

-- An active call that loses its media.
abbrev lost_call : CallInfo → ℕ → CallInfo
lost_call c now = record c {
  state_data = record c.state_data { state = reconnecting; media_lost_at = some now };
}

lose_active-lost :
    (m : CallManager) (c : CallInfo) (now : ℕ)
    → state_of c ≡ active
    → lose_active m c now ≡ (true, emit_state (with_call m (lost_call c now)))
unfolding apply_transition
lose_active-lost m c now a = ground arith

IsLost-of :
    (m : CallManager) (c : CallInfo) (now : ℕ)
    → state_of c ≡ active
    → IsLost (force_of m (some c) now) now
unfolding IsLost
IsLost-of m c now a = (
  lost_call c now,
  (
    ap (λ (r : Bool × CallManager). (forced c now r).current_call) (lose_active-lost m c now a)
        ∙ (connect_relays-call _ _).0,
    refl,
    refl,
  ),
)

abbrev state_now : Option CallInfo → CallState
state_now none = ended
state_now (some c) = state_of c

force-IsLost :
    (m : CallManager) (c : CallInfo) (now : ℕ)
    → m.current_call ≡ some c
    → state_of c ≡ active
    → IsLost (force_media_lost m now) now
unfolding IsLost force_media_lost
force-IsLost m c now e a = go m.current_call e
  where
    go : (o : Option CallInfo) → o ≡ some c → IsLost (force_of m o now) now
    go none h = absurd (ground arith)
    go (some d) h = IsLost-of m d now (ap state_now h ∙ a)

end_if-over :
    (m : CallManager) (b : Bool) (now : ℕ) (c : CallInfo)
    → m.current_call ≡ some c
    → b ≡ true
    → is_over_now (end_if b m now).0.current_call ≡ true
end_if-over m true now c e h = end_call-over m (some EndCallReason.timeout) now c e
end_if-over m false now c e h = absurd (ground arith)

due-overdue : (o : Option ℕ) (d now : ℕ) → o ≡ some d → d ≤ now → is_overdue o now ≡ true
due-overdue none d now p h = absurd (ground arith)
due-overdue (some e) d now p h = ground arith

-- Where no tick forces a loss, the deadline ends the call.
overdue-over :
    (m : CallManager) (c : CallInfo) (t : Timeouts) (now d : ℕ)
    → m.current_call ≡ some c
    → phase_deadline c t ≡ some d
    → d ≤ now
    → (is_in (state_of c) active && is_inactive m t now) ≡ false
    → is_over_now (tick_of m t now (some c)).0.current_call ≡ true
overdue-over m c t now d e p h l =
    let waits : CallManager =
      if is_in (state_of c) reconnecting then retry_reconnect m now else m in
    if_cases (λ (r : CallManager × Bool). is_over_now r.0.current_call ≡ true) (is_over c) _ _
      (λ over. ap is_over_now e ∙ over)
      (λ _.
        if_cases (λ (r : CallManager × Bool). is_over_now r.0.current_call ≡ true)
          (is_in (state_of c) active && is_inactive m t now) _ _
          (λ yes. absurd (ground (arith, sym yes ∙ l)))
          (λ _.
            end_if-over waits (is_overdue (phase_deadline c t) now) now c
              (if_cases (λ (x : CallManager). x.current_call ≡ some c)
                (is_in (state_of c) reconnecting) (retry_reconnect m now) m
                (λ _. (retry-IsAlike m now).0 ∙ e) (λ _. e))
              (due-overdue (phase_deadline c t) d now p h)))

lost_deadline :
    (c : CallInfo) (t : Timeouts) (now : ℕ)
    → state_of c ≡ reconnecting
    → c.state_data.media_lost_at ≡ some now
    → 0 < t.reconnect_grace
    → phase_deadline c t ≡ some (now + t.reconnect_grace)
unfolding phase_deadline
lost_deadline c t now state lost pos = ground arith

-- The first tick, if it forces a loss: the next one after the grace ends the call.
lost-over :
    (m : CallManager) (t : Timeouts) (now later : ℕ)
    → IsLost m now
    → 0 < t.reconnect_grace
    → now + t.reconnect_grace ≤ later
    → is_over_now (tick_of m t later m.current_call).0.current_call ≡ true
unfolding IsLost
lost-over m t now later (c, (call, state, lost)) pos le =
    subst (λ (o : Option CallInfo). is_over_now (tick_of m t later o).0.current_call ≡ true)
      (sym call)
      (overdue-over m c t later (now + t.reconnect_grace) call
        (lost_deadline c t now state lost pos) le (ground (arith, state)))

later_tick :
    (m : CallManager) (t : Timeouts) (now later : ℕ)
    → IsLost m now
    → 0 < t.reconnect_grace
    → now + t.reconnect_grace ≤ later
    → is_over_now (expire_if_overdue m t later).0.current_call ≡ true
unfolding expire_if_overdue
later_tick m t now later l pos le = lost-over m t now later l pos le

active_of : (s : CallState) (b : Bool) → (is_in s active && b) ≡ true → s ≡ active
active_of s b h = ground arith

first_tick_of :
    (m : CallManager) (c : CallInfo) (t : Timeouts) (d now : ℕ) (b : Bool)
    → (is_in (state_of c) active && is_inactive m t now) ≡ b
    → m.current_call ≡ some c
    → phase_deadline c t ≡ some d
    → d ≤ now
    → let m' = (tick_of m t now (some c)).0 in (is_over_now m'.current_call ≡ true) ⊎ IsLost m' now
first_tick_of m c t d now false l e p due = inl (overdue-over m c t now d e p due l)
first_tick_of m c t d now true l e p due =
    if_cases (λ (r : CallManager × Bool). (is_over_now r.0.current_call ≡ true) ⊎ IsLost r.0 now)
      (is_over c) _ _ (λ over. inl (ap is_over_now e ∙ over))
      (λ _.
        if_cases
          (λ (r : CallManager × Bool). (is_over_now r.0.current_call ≡ true) ⊎ IsLost r.0 now)
          (is_in (state_of c) active && is_inactive m t now) _ _
          (λ _. inr (force-IsLost m c now e (active_of (state_of c) (is_inactive m t now) l)))
          (λ no. absurd (ground (arith, sym no ∙ l))))

first_tick :
    (m : CallManager) (c : CallInfo) (t : Timeouts) (d now : ℕ)
    → m.current_call ≡ some c
    → phase_deadline c t ≡ some d
    → d ≤ now
    → let m' = (expire_if_overdue m t now).0 in (is_over_now m'.current_call ≡ true) ⊎ IsLost m' now
unfolding expire_if_overdue
first_tick m c t d now e p due =
    subst
      (λ (o : Option CallInfo).
        let m' = (tick_of m t now o).0 in (is_over_now m'.current_call ≡ true) ⊎ IsLost m' now)
      (sym e)
      (first_tick_of m c t d now (is_in (state_of c) active && is_inactive m t now) refl e p due)

-- With a call whose deadline has passed and a positive grace to reconnect, the call is over after two
-- ticks of the watchdog, the second at least the grace after the first.
pub two_ticks-over :
    (m : CallManager) (c : CallInfo) (t : Timeouts) (d now later : ℕ)
    → m.current_call ≡ some c
    → phase_deadline c t ≡ some d
    → d ≤ now
    → 0 < t.reconnect_grace
    → now + t.reconnect_grace ≤ later
    → is_over_now (expire_if_overdue (expire_if_overdue m t now).0 t later).0.current_call ≡ true
two_ticks-over m c t d now later e p due pos le = elim (first_tick m c t d now e p due) [
  | inl over ↦ tick-over (expire_if_overdue m t now).0 t later over
  | inr lost ↦ later_tick (expire_if_overdue m t now).0 t now later lost pos le
]

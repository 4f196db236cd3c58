-- ===== src/Call/Manager/Watchdog.antt =====
-- expireIfOverdue of callmanager_timeout.go: a tick of the watchdog. The two reads of the clock in a
-- tick are one moment.
use wa_calls.Base.{
  ℕ, ◌+◌, ◌/◌, Bool, true, false, ◌&&◌, Option, none, some, if◌then◌else◌, ltb, leb,
}
use wa_calls.Core.{CallState, EndCallReason}
use wa_calls.Call.State.{CallInfo, is_in}
use wa_calls.Call.Deadline.{Timeouts, phase_deadline}
use wa_calls.Call.Manager.State.{CallManager, state_of, is_over}
use wa_calls.Call.Manager.Locally.{end_call}
use wa_calls.Call.Manager.Relay.{force_media_lost, retry_reconnect}

-- `inactivity > 0`, `last > 0` and more than the inactivity since then, in milliseconds.
abbrev pub is_inactive : CallManager → Timeouts → ℕ → Bool
is_inactive m t now =
    ltb 0 t.media_inactivity
    && (ltb 0 m.last_media_recv
        && ltb (m.last_media_recv + t.media_inactivity / 1_000_000) (now / 1_000_000))

abbrev pub is_overdue : Option ℕ → ℕ → Bool
is_overdue none now = false
is_overdue (some d) now = leb d now

abbrev pub end_if : Bool → CallManager → ℕ → CallManager × Bool
end_if true m now = (end_call m (some EndCallReason.timeout) now, true)
end_if false m now = (m, false)

abbrev pub tick_of : CallManager → Timeouts → ℕ → Option CallInfo → CallManager × Bool
tick_of m t now none = (m, false)
tick_of m t now (some c) =
    let m' = if is_in (state_of c) CallState.reconnecting then retry_reconnect m now else m in
    if is_over c
    then (m, true)
    else if is_in (state_of c) CallState.active && is_inactive m t now
    then (force_media_lost m now, false)
    else end_if (is_overdue (phase_deadline c t) now) m' now

-- The manager after a tick, and whether the watchdog stops.
unfoldable pub expire_if_overdue : CallManager → Timeouts → ℕ → CallManager × Bool
expire_if_overdue m t now = tick_of m t now m.current_call

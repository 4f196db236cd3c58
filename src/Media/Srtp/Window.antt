-- ===== src/Media/Srtp/Window.antt =====
-- The replay window of srtp.go after any sequence of offers, against the list of what it accepted.
use wa_calls.Base.{
  ℕ, ◌+◌, ◌≤◌, ◌<◌, ◌≡◌, refl, ◌≢◌, ◌↔◌, inl, inr, true, false, List, [], ◌∷◌, arith, Bool-cases,
  All,
}
use wa_calls.Media.Srtp.Context.{SrtpContext, replay_check, replay_update}
use wa_calls.Media.Srtp.Replay.{IsWindow, contains, replay_check_iff, replay_update-IsWindow}

-- A context that has accepted nothing stands for the empty list.
pub start-IsWindow : (c : SrtpContext) → c.replay_seen ≡ false → IsWindow c []
start-IsWindow c new = record {
  unstarted = λ e. refl;
  started = λ e. cc;
  bounded = λ n e. unfold contains in cc;
  bits = λ k h low e. cc;
}

-- replayCheck, and replayUpdate when it accepts; the list keeps the accepted indices.
abbrev offer : SrtpContext × List ℕ → ℕ → SrtpContext × List ℕ
offer (c, seen) index = elim (replay_check c index) [
  | true ↦ (replay_update c index, index ∷ seen)
  | false ↦ (c, seen)
]

pub offer_all : SrtpContext × List ℕ → List ℕ → SrtpContext × List ℕ
offer_all w [] = w
offer_all w (index ∷ rest) = offer_all (offer w index) rest

offer-IsWindow :
    (c : SrtpContext) (seen : List ℕ) (index : ℕ)
    → IsWindow c seen
    → IsWindow (offer (c, seen) index).0 (offer (c, seen) index).1
offer-IsWindow c seen index w = elim (Bool-cases (replay_check c index)) [
  | inl fresh ↦ rw (fresh, offer) (replay_update-IsWindow c seen index w fresh)
  | inr old ↦ rw (old, offer) w
]

pub offer_all-IsWindow :
    (c : SrtpContext) (seen rest : List ℕ)
    → IsWindow c seen
    → IsWindow (offer_all (c, seen) rest).0 (offer_all (c, seen) rest).1
unfolding offer_all
offer_all-IsWindow c seen [] w = w
offer_all-IsWindow c seen (index ∷ rest) w =
    offer_all-IsWindow (offer (c, seen) index).0 (offer (c, seen) index).1 rest
      (offer-IsWindow c seen index w)

All-below :
    (m h : ℕ) (seen : List ℕ)
    → h < m
    → ((n : ℕ) → contains n seen ≡ true → n ≤ h)
    → All (λ j. j < m) seen
unfolding contains
All-below m h [] lt bounded = tt
All-below m h (x ∷ xs) lt bounded =
    (ground (arith, bounded x), All-below m h xs lt (λ n e. bounded n (ground arith)))

contains-All : (m h : ℕ) (seen : List ℕ) → contains h seen ≡ true → All (λ j. j < m) seen → h < m
unfolding contains
contains-All m h [] e all = cc
contains-All m h (x ∷ xs) e (here, all) = ground (arith, contains-All m h xs)

recent_iff :
    (c : SrtpContext) (seen : List ℕ) (index : ℕ)
    → IsWindow c seen
    → (seen ≢ [] → c.replay_highest < index + 64) ↔ All (λ j. j < index + 64) seen
recent_iff c [] index w = (λ h. tt, λ all some_seen. absurd (some_seen refl))
recent_iff c (x ∷ xs) index w = (
  λ h. All-below (index + 64) c.replay_highest (x ∷ xs) (h (λ e. cc)) w.bounded,
  λ all some_seen.
      contains-All (index + 64) c.replay_highest (x ∷ xs) (w.started (ground (arith, w.unstarted)))
        all,
)

-- After any sequence of indices has been offered to a fresh 64-bit window, each recorded when it is
-- accepted, the window accepts an index exactly when it has not been accepted before and every
-- accepted index is less than it plus 64.
pub replay_check-offer_all_iff :
    (c : SrtpContext) (offered : List ℕ) (index : ℕ)
    → c.replay_seen ≡ false
    → (replay_check (offer_all (c, []) offered).0 index ≡ true) ↔ (
        (contains index (offer_all (c, []) offered).1 ≡ false)
        × All (λ j. j < index + 64) (offer_all (c, []) offered).1)
replay_check-offer_all_iff c offered index new =
    let w = offer_all-IsWindow c [] offered (start-IsWindow c new) in
    let (to, from) =
      replay_check_iff (offer_all (c, []) offered).0 (offer_all (c, []) offered).1 index w in
    let (recent, old) =
      recent_iff (offer_all (c, []) offered).0 (offer_all (c, []) offered).1 index w in
    (λ e. ((to e).0, recent (to e).1), λ (unseen, all). from (unseen, old all))

-- ===== src/Media/Srtp/Replay.antt =====
-- The 64-bit replay window of srtp.go against the list of all indices accepted so far.
use wa_calls.Base.{
  ℕ, zero, suc, ◌+◌, ◌-◌, ◌*◌, ◌^◌, ◌≤◌, ◌<◌, ◌≡◌, refl, ap, ◌∙◌, ◌↔◌, ◌≢◌, ◌⊎◌, Bool, true, false,
  ◌||◌, not, List, [], ◌∷◌, arith, leb, ◌==◌, bit_and, bit_or, if◌then◌else◌,
}
use wa_calls.Base.Bits.{
  bit_at, bit_at-le, bit_and_one_bit, bit_or-bit_at, two_pow-bit_at_self, two_pow-bit_at_ne,
  zero-bit_at, shift-bit_at_low, shift-bit_at_high, mod-bit_at,
}
use wa_calls.Bytes.{u64}
use wa_calls.Media.Srtp.Context.{SrtpContext, replay_check, replay_update}
use native.Mathlib.Nat.{one-le-pow}

unfoldable pub contains : ℕ → List ℕ → Bool
contains n [] = false
contains n (x ∷ xs) = n == x || contains n xs

abbrev as_digit : Bool → ℕ
as_digit true = 1
as_digit false = 0

-- The window of `c` stands for the accepted indices `seen`.
pub record IsWindow (c : SrtpContext) (seen : List ℕ) : Type 0 where
  pub unstarted : c.replay_seen ≡ false → seen ≡ []
  pub started : c.replay_seen ≡ true → contains c.replay_highest seen ≡ true
  pub bounded : (n : ℕ) → contains n seen ≡ true → n ≤ c.replay_highest
  pub bits :
      (k : ℕ)
      → k < 64
      → k ≤ c.replay_highest
      → c.replay_seen ≡ true
      → bit_at c.replay_window k ≡ as_digit (contains (c.replay_highest - k) seen)

bit_test : (w d : ℕ) → (bit_and w (2 ^ d) == 0) ≡ (bit_at w d == 0)
bit_test w d = ground (arith, bit_and_one_bit d w, bit_at-le w d, one-le-pow d 2, times)
  where
    times : bit_at w d ≡ 1 → bit_at w d * 2 ^ d ≡ 2 ^ d
    times e = rw e (omega arith)

old_check :
    (c : SrtpContext) (seen : List ℕ) (index : ℕ)
    → IsWindow c seen
    → c.replay_seen ≡ true
    → index ≤ c.replay_highest
    → c.replay_highest - index < 64
    → (bit_and c.replay_window (2 ^ (c.replay_highest - index)) == 0) ≡ not (contains index seen)
old_check c seen index w started low recent =
    let back : c.replay_highest - (c.replay_highest - index) ≡ index = omega arith in
    rw (bit_test, w.bits (c.replay_highest - index) recent (omega arith) started, back)
      (digit (contains index seen))
  where
    digit : (b : Bool) → (as_digit b == 0) ≡ not b
    digit true = refl
    digit false = refl

seen_nonempty :
    (c : SrtpContext) (seen : List ℕ) → IsWindow c seen → c.replay_seen ≡ true → seen ≢ []
unfolding contains
seen_nonempty c seen w started e = ground (arith, w.started started, e)

-- replayCheck passes exactly the indices that were never accepted and are less than 64 behind the
-- highest accepted one.
pub replay_check_iff :
    (c : SrtpContext) (seen : List ℕ) (index : ℕ)
    → IsWindow c seen
    → (replay_check c index ≡ true)
      ↔ ((contains index seen ≡ false) × (seen ≢ [] → c.replay_highest < index + 64))
unfolding replay_check
replay_check_iff c seen index w =
    ground
      (arith, w.unstarted, w.bounded index, seen_nonempty c seen w, old_check c seen index w, empty)
  where
    empty : seen ≡ [] → contains index seen ≡ false
    empty e = rw e (unfold contains in refl)

unseen_above :
    (c : SrtpContext) (seen : List ℕ) (n : ℕ)
    → IsWindow c seen
    → c.replay_highest < n
    → contains n seen ≡ false
unseen_above c seen n w h = ground (arith, w.bounded n)

bit_at-one : (k : ℕ) → bit_at 1 k ≡ as_digit (k == 0)
bit_at-one zero = unfold bit_at in refl
bit_at-one (suc k) = unfold bit_at in rw (zero-bit_at k) (ground arith)

-- A bit that the shift moved up.
moved_bit :
    (c : SrtpContext) (seen : List ℕ) (index k : ℕ)
    → IsWindow c seen
    → c.replay_seen ≡ true
    → c.replay_highest < index
    → k < 64
    → k ≤ index
    → index - c.replay_highest ≤ k
    → bit_at (c.replay_window * 2 ^ (index - c.replay_highest)) k
      ≡ as_digit (contains (index - k) seen)
moved_bit c seen index k w started up h low old =
    ap (bit_at (c.replay_window * 2 ^ delta)) place
    ∙ shift-bit_at_high c.replay_window delta (k - delta)
    ∙ w.bits (k - delta) (omega arith) (omega arith) started
    ∙ ap (λ (n : ℕ). as_digit (contains n seen)) (omega arith)
  where
    delta : ℕ
    delta = index - c.replay_highest

    place : k ≡ delta + (k - delta)
    place = omega arith

-- The bits of the shifted window below the 64th, but for the lowest.
shifted_bit :
    (c : SrtpContext) (seen : List ℕ) (index k : ℕ)
    → IsWindow c seen
    → c.replay_seen ≡ true
    → c.replay_highest < index
    → k < 64
    → k ≤ index
    → 0 < k
    → bit_at (c.replay_window * 2 ^ (index - c.replay_highest)) k
      ≡ as_digit (contains (index - k) seen)
shifted_bit c seen index k w started up h low pos = ground (
  arith,
  shift-bit_at_low c.replay_window (index - c.replay_highest) k,
  unseen_above c seen (index - k) w,
  moved_bit c seen index k w started up h low,
  total,
)
  where
    total : (k < index - c.replay_highest) ⊎ (index - c.replay_highest ≤ k)
    total = omega arith

abbrev moved_window : SrtpContext → ℕ → ℕ
moved_window c index =
    if leb 64 (index - c.replay_highest)
    then 1
    else bit_or (u64 (c.replay_window * 2 ^ (index - c.replay_highest))) 1

new_highest_bits :
    (c : SrtpContext) (seen : List ℕ) (index k : ℕ)
    → IsWindow c seen
    → c.replay_seen ≡ true
    → c.replay_highest < index
    → k < 64
    → k ≤ index
    → bit_at (moved_window c index) k ≡ as_digit (contains (index - k) (index ∷ seen))
unfolding contains
new_highest_bits c seen index k w started up h low = ground (
  arith,
  bit_or-bit_at k (u64 (c.replay_window * 2 ^ (index - c.replay_highest))) 1,
  mod-bit_at 64 (c.replay_window * 2 ^ (index - c.replay_highest)) k h,
  bit_at-le (c.replay_window * 2 ^ (index - c.replay_highest)) k,
  shifted_bit c seen index k w started up h low,
  unseen_above c seen (index - k) w,
  bit_at-one k,
)

old_index_bits :
    (c : SrtpContext) (seen : List ℕ) (index k : ℕ)
    → IsWindow c seen
    → c.replay_seen ≡ true
    → index ≤ c.replay_highest
    → k < 64
    → k ≤ c.replay_highest
    → bit_at (bit_or c.replay_window (u64 (2 ^ (c.replay_highest - index)))) k
      ≡ as_digit (contains (c.replay_highest - k) (index ∷ seen))
unfolding contains
old_index_bits c seen index k w started under h low = ground (
  arith,
  bit_or-bit_at k c.replay_window (u64 (2 ^ (c.replay_highest - index))),
  mod-bit_at 64 (2 ^ (c.replay_highest - index)) k h,
  two_pow-bit_at_self k,
  two_pow-bit_at_ne (c.replay_highest - index) k,
  bit_at-le c.replay_window k,
  w.bits k h low started,
)

first_bits : (index k : ℕ) → k ≤ index → bit_at 1 k ≡ as_digit (contains (index - k) (index ∷ []))
unfolding contains
first_bits index k low = ground (arith, bit_at-one k)

-- After replayUpdate the window stands for the accepted indices and the new one.
pub replay_update-IsWindow :
    (c : SrtpContext) (seen : List ℕ) (index : ℕ)
    → IsWindow c seen
    → replay_check c index ≡ true
    → IsWindow (replay_update c index) (index ∷ seen)
replay_update-IsWindow c seen index w h = record {
  unstarted = unfold replay_update in ground arith;
  started = unfold replay_update contains in ground (arith, w.started);
  bounded = λ n e. unfold replay_update contains in ground (arith, w.bounded n, w.unstarted);
  bits = λ k below low seen_now.
      unfold replay_update in
      ground (
        arith,
        w.unstarted,
        first_bits index k,
        new_highest_bits c seen index k w,
        old_index_bits c seen index k w,
      );
}

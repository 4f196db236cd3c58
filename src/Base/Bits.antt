-- ===== src/Base/Bits.antt =====
-- `&`, `|`, `^` and shifts of Go as arithmetic: masks, disjoint fields, single bits.
mod Step
use Step.{bit_or_step, bit_and_step, bit_xor_step}
use Prim.Native.Nat.{
  ℕ, zero, suc, ◌+◌, ◌-◌, ◌*◌, ◌/◌, ◌%◌, ◌^◌, ◌≤◌, ◌<◌, bit_and, bit_or, bit_xor, max, min, differ,
}
use Prim.Native.Nat.add
use mathlib.Core.Path.{◌≡◌, refl, ap, ◌∙◌}
use mathlib.Core.Logic.{◌≢◌, ◌⊎◌, inl, inr, ◌↔◌}
use mathlib.Core.Bool.{Bool, true, false, ◌&&◌}
use native.Mathlib.Nat.{pow-suc, one-le-pow, div-add-mod, div-div-eq-div-mul}
use native.Mathlib.Omega.{arith}
use wa_calls.Base.Tests.{◌==◌, ==_iff}

-- The digit of weight 2 ^ k.
unfoldable pub bit_at : ℕ → ℕ → ℕ
bit_at n zero = n % 2
bit_at n (suc k) = bit_at (n / 2) k

pub bit_at-le : (n k : ℕ) → bit_at n k ≤ 1
unfolding bit_at
bit_at-le n zero = omega arith
bit_at-le n (suc k) = bit_at-le (n / 2) k

pub zero-bit_at : (k : ℕ) → bit_at 0 k ≡ 0
unfolding bit_at
zero-bit_at zero = refl
zero-bit_at (suc k) = zero-bit_at k

two_pow-suc : (k : ℕ) → 2 ^ suc k ≡ 2 * 2 ^ k
two_pow-suc k = omega (arith, pow-suc 2 k)

two_pow_half : (k : ℕ) → (2 ^ suc k / 2 ≡ 2 ^ k) × (2 ^ suc k % 2 ≡ 0)
two_pow_half k = omega (arith, two_pow-suc k)

bit_and-zero_fuel : (f a : ℕ) → a ≤ f → bit_and a 0 ≡ 0
bit_and-zero_fuel f zero h = refl
bit_and-zero_fuel zero (suc a) h = absurd (omega arith)
bit_and-zero_fuel (suc f) (suc a) h =
    omega (arith, bit_and_step (suc a) 0, bit_and-zero_fuel f (suc a / 2) (omega arith))

pub bit_and-zero : (a : ℕ) → bit_and a 0 ≡ 0
bit_and-zero a = bit_and-zero_fuel a a (omega arith)

bit_or-zero_fuel : (f a : ℕ) → a ≤ f → bit_or a 0 ≡ a
bit_or-zero_fuel f zero h = refl
bit_or-zero_fuel zero (suc a) h = absurd (omega arith)
bit_or-zero_fuel (suc f) (suc a) h =
    omega (arith, bit_or_step (suc a) 0, bit_or-zero_fuel f (suc a / 2) (omega arith))

pub bit_or-zero : (a : ℕ) → bit_or a 0 ≡ a
bit_or-zero a = bit_or-zero_fuel a a (omega arith)

-- A mask of one bit.
pub bit_and_one_bit : (k a : ℕ) → bit_and a (2 ^ k) ≡ bit_at a k * 2 ^ k
unfolding bit_at
bit_and_one_bit zero a = omega (arith, bit_and_step a 1, bit_and-zero (a / 2))
bit_and_one_bit (suc k) a =
    rw (bit_and_step, (two_pow_half k).0, (two_pow_half k).1, bit_and_one_bit k (a / 2))
      (omega (arith, ap (λ (t : ℕ). bit_at (a / 2) k * t) (two_pow-suc k)))

pub bit_or-bit_at : (k a b : ℕ) → bit_at (bit_or a b) k ≡ max (bit_at a k) (bit_at b k)
unfolding bit_at
bit_or-bit_at zero a b = omega (arith, bit_or_step a b)
bit_or-bit_at (suc k) a b =
    let half : bit_or a b / 2 ≡ bit_or (a / 2) (b / 2) = omega (arith, bit_or_step a b) in
    rw half (bit_or-bit_at k (a / 2) (b / 2))

pub two_pow-bit_at_self : (k : ℕ) → bit_at (2 ^ k) k ≡ 1
unfolding bit_at
two_pow-bit_at_self zero = refl
two_pow-bit_at_self (suc k) = rw ((two_pow_half k).0) (two_pow-bit_at_self k)

pub two_pow-bit_at_ne : (j k : ℕ) → j ≢ k → bit_at (2 ^ j) k ≡ 0
unfolding bit_at
two_pow-bit_at_ne zero zero h = absurd (h refl)
two_pow-bit_at_ne zero (suc k) h = zero-bit_at k
two_pow-bit_at_ne (suc j) zero h = (two_pow_half j).1
two_pow-bit_at_ne (suc j) (suc k) h =
    rw ((two_pow_half j).0) (two_pow-bit_at_ne j k (λ e. h (ap suc e)))

-- A shift to the left.
double_half : (n d : ℕ) → n * 2 ^ suc d / 2 ≡ n * 2 ^ d
double_half n d = omega (arith, ap (λ (t : ℕ). n * t) (two_pow-suc d))

double_even : (n d : ℕ) → n * 2 ^ suc d % 2 ≡ 0
double_even n d = omega (arith, ap (λ (t : ℕ). n * t) (two_pow-suc d))

pub shift-bit_at_low : (n d k : ℕ) → k < d → bit_at (n * 2 ^ d) k ≡ 0
unfolding bit_at
shift-bit_at_low n zero k h = elim h [ ]
shift-bit_at_low n (suc d) zero h = double_even n d
shift-bit_at_low n (suc d) (suc k) h = rw (double_half n d) (shift-bit_at_low n d k (omega arith))

pub shift-bit_at_high : (n d k : ℕ) → bit_at (n * 2 ^ d) (d + k) ≡ bit_at n k
unfolding bit_at
shift-bit_at_high n zero k = let plain : n * 2 ^ 0 ≡ n = omega arith in rw (plain, add.zero)
shift-bit_at_high n (suc d) k =
    let half : bit_at (n * 2 ^ suc d / 2) (d + k) ≡ bit_at n k =
      rw (double_half n d) (shift-bit_at_high n d k) in
    rw add.suc half

mod_double : (n m : ℕ) → (n % (2 * m) / 2 ≡ n / 2 % m) × (n % (2 * m) % 2 ≡ n % 2)
mod_double n m = omega (
  arith,
  div-add-mod n (2 * m),
  div-add-mod (n / 2) m,
  ap (λ (t : ℕ). m * t) (div-div-eq-div-mul n 2 m),
)

mod_half : (n w : ℕ) → (n % 2 ^ suc w / 2 ≡ n / 2 % 2 ^ w) × (n % 2 ^ suc w % 2 ≡ n % 2)
mod_half n w = rw (two_pow-suc w) (mod_double n (2 ^ w))

-- A cut to w bits.
pub mod-bit_at : (w n k : ℕ) → k < w → bit_at (n % 2 ^ w) k ≡ bit_at n k
unfolding bit_at
mod-bit_at zero n k h = elim h [ ]
mod-bit_at (suc w) n zero h = (mod_half n w).1
mod-bit_at (suc w) n (suc k) h = rw ((mod_half n w).0) (mod-bit_at w (n / 2) k (omega arith))

low_mask_half : (k : ℕ) → ((2 ^ suc k - 1) / 2 ≡ 2 ^ k - 1) × ((2 ^ suc k - 1) % 2 ≡ 1)
low_mask_half k = omega (arith, two_pow-suc k, one-le-pow k 2)

-- A mask of k low bits is the remainder by 2 ^ k.
pub bit_and_mask : (k a : ℕ) → bit_and a (2 ^ k - 1) ≡ a % 2 ^ k
bit_and_mask zero a = omega (arith, bit_and-zero a)
bit_and_mask (suc k) a =
    rw (bit_and_step, (low_mask_half k).0, (low_mask_half k).1, bit_and_mask k (a / 2))
      (omega (arith, mod_half a k))

-- `(q << k) | r` is a sum where r fits k bits.
pub bit_or_fields : (k q r : ℕ) → r < 2 ^ k → bit_or (q * 2 ^ k) r ≡ q * 2 ^ k + r
bit_or_fields zero q r h = let none : r ≡ 0 = omega arith in rw (none, bit_or-zero) (omega arith)
bit_or_fields (suc k) q r h =
    rw
      (
        bit_or_step,
        double_half q k,
        double_even q k,
        bit_or_fields k q (r / 2) (omega (arith, two_pow-suc k)),
      )
      (omega (arith, ap (λ (t : ℕ). q * t) (two_pow-suc k)))

bit_xor-zero_fuel : (f a : ℕ) → a ≤ f → bit_xor a 0 ≡ a
bit_xor-zero_fuel f zero h = refl
bit_xor-zero_fuel zero (suc a) h = absurd (omega arith)
bit_xor-zero_fuel (suc f) (suc a) h = omega (
  arith,
  bit_xor_step (suc a) 0,
  bit_xor-zero_fuel f (suc a / 2) (omega arith),
  differ-zero (suc a % 2),
)
  where
    differ-zero : (d : ℕ) → differ d 0 ≡ d
    differ-zero zero = refl
    differ-zero (suc d) = refl

digit_twice : (x y : ℕ) → x < 2 → y < 2 → (differ (differ x y) y ≡ x) × (differ x y < 2)
digit_twice zero zero p q = omega arith
digit_twice zero (suc zero) p q = omega arith
digit_twice zero (suc (suc y)) p q = absurd (omega arith)
digit_twice (suc zero) zero p q = omega arith
digit_twice (suc zero) (suc zero) p q = omega arith
digit_twice (suc zero) (suc (suc y)) p q = absurd (omega arith)
digit_twice (suc (suc x)) y p q = absurd (omega arith)

-- Exclusive or with one number twice changes nothing.
bit_xor_twice_fuel : (f a b : ℕ) → a + b ≤ f → bit_xor (bit_xor a b) b ≡ a
bit_xor_twice_fuel zero a b h = let (p, q) : (a ≡ 0) × (b ≡ 0) = omega arith in rw (p, q)
bit_xor_twice_fuel (suc f) zero zero h = refl
bit_xor_twice_fuel (suc f) (suc a) zero h = rw (
  bit_xor-zero_fuel (suc a) (suc a) (omega arith),
  bit_xor-zero_fuel (suc a) (suc a) (omega arith),
)
bit_xor_twice_fuel (suc f) a (suc b) h =
    rw
      (
        bit_xor_step (bit_xor a (suc b)) (suc b),
        upper,
        lowest,
        bit_xor_twice_fuel f (a / 2) (suc b / 2) (omega arith),
      )
      (omega (arith, digit_twice (a % 2) (suc b % 2) (omega arith) (omega arith)))
  where
    upper : bit_xor a (suc b) / 2 ≡ bit_xor (a / 2) (suc b / 2)
    upper =
        omega (
          arith,
          bit_xor_step a (suc b),
          digit_twice (a % 2) (suc b % 2) (omega arith) (omega arith),
        )

    lowest : bit_xor a (suc b) % 2 ≡ differ (a % 2) (suc b % 2)
    lowest =
        omega (
          arith,
          bit_xor_step a (suc b),
          digit_twice (a % 2) (suc b % 2) (omega arith) (omega arith),
        )

pub bit_xor_twice : (a b : ℕ) → bit_xor (bit_xor a b) b ≡ a
bit_xor_twice a b = bit_xor_twice_fuel (a + b) a b (omega arith)

-- A test of every number below a bound, by evaluation.
unfoldable pub all_below : ℕ → (ℕ → Bool) → Bool
all_below zero p = true
all_below (suc n) p = p n && all_below n p

pub all_below_lem : (n : ℕ) (p : ℕ → Bool) (x : ℕ) → all_below n p ≡ true → x < n → p x ≡ true
unfolding all_below
all_below_lem zero p x h lt = absurd (omega arith)
all_below_lem (suc n) p x h lt = ground (arith, all_below_lem n p x)

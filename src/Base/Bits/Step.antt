-- ===== src/Base/Bits/Step.antt =====
-- What `&`, `|` and `^` do to the lowest binary digit, and to the rest. The native operations stand
-- for `bitwise`, whose recursion on digits has its first argument as fuel.
use Prim.Native.Nat.{
  ℕ, zero, suc, ◌+◌, ◌*◌, ◌/◌, ◌%◌, ◌≤◌, min, max, differ, digits, bitwise, bit_xor, bit_or,
  bit_and, bit_xor-bitwise, bit_or-bitwise, bit_and-bitwise,
}
use mathlib.Core.Path.{◌≡◌, refl}
use native.Mathlib.Omega.{arith}

module _ (other : ℕ → ℕ) (join : ℕ → ℕ → ℕ) where
  -- Any fuel from the first argument on gives what `bitwise` gives; the bound is for the induction.
  enough_fuel :
      (bound fuel x y : ℕ)
      → fuel ≤ bound
      → x ≤ fuel
      → digits other join fuel x y ≡ bitwise other join x y
  enough_fuel bound zero zero y low enough = refl
  enough_fuel bound zero (suc x) y low enough = absurd (omega arith)
  enough_fuel bound (suc fuel) zero y low enough = refl
  enough_fuel zero (suc fuel) (suc x) y low enough = absurd (omega arith)
  enough_fuel (suc bound) (suc fuel) (suc x) y low enough =
      rw
        (
          enough_fuel bound fuel (suc x / 2) (y / 2) (omega arith) (omega arith),
          enough_fuel bound x (suc x / 2) (y / 2) (omega arith) (omega arith),
        )
        refl

  lowest_digit :
      (x y : ℕ)
      → bitwise other join (suc x) y
        ≡ bitwise other join (suc x / 2) (y / 2) * 2 + join (suc x % 2) (y % 2)
  lowest_digit x y = rw (enough_fuel x x (suc x / 2) (y / 2) (omega arith) (omega arith)) refl

pub bit_xor_step : (x y : ℕ) → bit_xor x y ≡ bit_xor (x / 2) (y / 2) * 2 + differ (x % 2) (y % 2)
bit_xor_step zero y = simp bit_xor-bitwise (omega arith)
bit_xor_step (suc x) y = simp bit_xor-bitwise (lowest_digit (λ d. d) differ x y)

pub bit_and_step : (x y : ℕ) → bit_and x y ≡ bit_and (x / 2) (y / 2) * 2 + min (x % 2) (y % 2)
bit_and_step zero y = simp bit_and-bitwise (omega arith)
bit_and_step (suc x) y = simp bit_and-bitwise (lowest_digit (λ d. 0) min x y)

pub bit_or_step : (x y : ℕ) → bit_or x y ≡ bit_or (x / 2) (y / 2) * 2 + max (x % 2) (y % 2)
bit_or_step zero y = simp bit_or-bitwise (omega arith)
bit_or_step (suc x) y = simp bit_or-bitwise (lowest_digit (λ d. d) max x y)

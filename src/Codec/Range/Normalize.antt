-- ===== src/Codec/Range/Normalize.antt =====
-- The loop in normalize: where it ends, and what it keeps.
use wa_calls.Base.{ℕ, zero, suc, ◌+◌, ◌*◌, ◌^◌, ◌≤◌, ◌<◌, ◌≡◌, none, arith, List}
use native.Mathlib.Nat.{pow-suc}
use native.Mathlib.Decide.{dec_lt}
use wa_calls.Base.{Gives, ap, ◌∙◌, All, [], ◌∷◌}
use wa_calls.Base.Bits.{bit_and_mask}
use wa_calls.Bytes.{u32, IsByte}
use wa_calls.Codec.Range.Decoder.{
  RangeDecoder, code_bot, code_top, read_byte, next_code, normalize_round, normalize_in, normalize,
  rounds, new_range_decoder,
}

-- The code value lies in the range, and the range holds more than 23 bits.
pub record IsValid (d : RangeDecoder) : Type 0 where
  pub above : code_bot < d.rng
  pub below : d.rng ≤ code_top
  pub inside : d.val < d.rng

-- The state before normalize.
pub record IsNarrow (d : RangeDecoder) : Type 0 where
  pub some_range : 0 < d.rng
  pub below : d.rng ≤ code_top
  pub inside : d.val < d.rng

-- A round on a range of at most 23 bits gives it eight bits more.
normalize_round-rng : (d : RangeDecoder) → d.rng ≤ code_bot → (normalize_round d).rng ≡ d.rng * 256
normalize_round-rng d h = ground arith

normalize_round-val :
    (d : RangeDecoder) → d.rng ≤ code_bot → d.val < d.rng → (normalize_round d).val < d.rng * 256
normalize_round-val d h v =
    ground (arith, bit_and_mask 31 (u32 (u32 (d.val * 2 ^ 8) + next_code d.rem (read_byte d).0)))

normalize_round-IsNarrow :
    (d : RangeDecoder) → d.rng ≤ code_bot → IsNarrow d → IsNarrow (normalize_round d)
normalize_round-IsNarrow d h w =
    ground (arith, normalize_round-rng d h, normalize_round-val d h w.inside)

-- n rounds are enough where they would take the range past 23 bits.
normalize_in-IsValid :
    (n : ℕ) (d : RangeDecoder)
    → code_bot < d.rng * 256 ^ n
    → IsNarrow d
    → Gives (normalize_in n d) IsValid
unfolding normalize_in
normalize_in-IsValid zero d h w = ground arith
normalize_in-IsValid (suc n) d h w = elim (dec_lt code_bot d.rng) [
  | yes p ↦ ground arith
  | no p ↦ ground (
    arith,
    normalize_in-IsValid n (normalize_round d)
        (rw (normalize_round-rng d (omega arith))
          (omega (arith, pow-suc 256 n, ap (λ t. d.rng * t) (pow-suc 256 n))))
        (normalize_round-IsNarrow d (omega arith) w),
  )
]

-- On a range that is not empty, of at most 2 ^ 31, with the code value in it, normalize ends within
-- the rounds it is given, with a range of more than 2 ^ 23 and the code value in it.
pub normalize-IsValid : (d : RangeDecoder) → IsNarrow d → Gives (normalize d) IsValid
unfolding normalize
normalize-IsValid d w = normalize_in-IsValid rounds d (omega (arith, w.some_range)) w

-- On an empty range the loop never ends.
pub normalize_in-none : (n : ℕ) (d : RangeDecoder) → d.rng ≡ 0 → normalize_in n d ≡ none
unfolding normalize_in
normalize_in-none zero d h = ground arith
normalize_in-none (suc n) d h = ground (
  arith,
  normalize_in-none n (normalize_round d) (normalize_round-rng d (omega arith) ∙ omega arith),
)

-- A new decoder reads four bytes, and its code value lies in its range.
pub new_range_decoder-IsValid :
    (buf : List ℕ) → All IsByte buf → Gives (new_range_decoder buf) IsValid
unfolding new_range_decoder
new_range_decoder-IsValid [] h = normalize-IsValid _ (ground arith)
new_range_decoder-IsValid (x ∷ xs) h = normalize-IsValid _ (ground arith)

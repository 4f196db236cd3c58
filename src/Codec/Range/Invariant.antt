-- ===== src/Codec/Range/Invariant.antt =====
-- What decoding a symbol keeps of a decoder.
use wa_calls.Base.{and_then, Gives, and_then-Gives}
use wa_calls.Base.{ℕ, zero, suc, ◌+◌, ◌-◌, ◌*◌, ◌/◌, ◌^◌, ◌≤◌, ◌<◌, ◌≡◌, Option, some, arith}
use native.Mathlib.Nat.{
  mul-le-mul_left, mul-le-mul_right, lt-mul-div-succ, mul-div-le, pow-le-pow_right, one-le-pow,
  mul-add, le-div_iff_mul-le, div-lt_iff_lt-mul,
}
use native.Mathlib.Decide.{dec_lt}
use wa_calls.Bytes.{u32, sub_u32-exact}
use wa_calls.Codec.Range.Decoder.{
  RangeDecoder, code_bot, frequency, decode, decode_bin, narrow, update, decode_raw_symbol,
  split_bit, bit_logp,
}
use wa_calls.Codec.Range.Normalize.{IsValid, IsNarrow, normalize-IsValid}

-- The `ext` that Decode set, and the frequency it returned: the code value lies in its slice.
pub record HasFrequency (d : RangeDecoder) (ft fs : ℕ) : Type 0 where
  pub valid : IsValid d
  pub step_pos : 0 < d.ext
  pub fits : d.ext * ft ≤ d.rng
  pub freq_below : fs < ft
  pub low_end : d.ext * (ft - fs - 1) ≤ d.val
  pub high_end : 0 < fs → d.val < d.ext * (ft - fs)

pub frequency-HasFrequency :
    (d : RangeDecoder) (ft e : ℕ)
    → IsValid d
    → 0 < ft
    → suc e * ft ≤ d.rng
    → let (fs, d') = frequency d ft (suc e) in HasFrequency d' ft fs
frequency-HasFrequency d ft e v p h = elim (dec_lt (d.val / suc e + 1) ft) [
  | yes near ↦
      let value : (frequency d ft (suc e)).0 ≡ ft - (d.val / suc e + 1) = ground (arith, small) in
      let top : ft - (ft - (d.val / suc e + 1)) ≡ d.val / suc e + 1 = omega arith in
      let below_top : ft - (ft - (d.val / suc e + 1)) - 1 ≡ d.val / suc e = omega arith in
      rw value (record {
        valid = record { above = v.above; below = v.below; inside = v.inside };
        step_pos = omega arith;
        fits = h;
        freq_below = omega arith;
        low_end = rw below_top (omega (arith, mul-div-le d.val (suc e)));
        high_end = λ _. rw top (lt-mul-div-succ d.val (omega arith));
      })
  | no far ↦
      let value : (frequency d ft (suc e)).0 ≡ 0 = ground (arith, small) in
      let none_below : ft - 0 - 1 ≡ ft - 1 = omega arith in
      rw value (record {
        valid = record { above = v.above; below = v.below; inside = v.inside };
        step_pos = omega arith;
        fits = h;
        freq_below = p;
        low_end = rw none_below (
            omega (
              arith,
              mul-div-le d.val (suc e),
              mul-le-mul_left {m = ft - 1} {n = d.val / suc e} (suc e) (omega arith),
            ));
        high_end = λ pos. absurd (omega arith);
      })
]
  where
    small : ft ≤ d.rng
    small = omega (arith, mul-le-mul_right {m = 1} {n = suc e} ft (omega arith))

-- Decode gives a frequency below the total, in whose slice of the range the code value lies.
pub decode-HasFrequency :
    (d : RangeDecoder) (ft : ℕ)
    → IsValid d
    → 0 < ft
    → ft ≤ code_bot
    → let (fs, d') = decode d ft in HasFrequency d' ft fs
unfolding decode
decode-HasFrequency d ft v p h = ground (
  arith,
  positive (d.rng / ft) (mul-div-le d.rng ft)
      ((le-div_iff_mul-le {k = ft} {x = 1} {y = d.rng} p).1 (omega arith)),
)
  where
    positive :
        (e : ℕ) → ft * e ≤ d.rng → 0 < e → let (fs, d') = frequency d ft e in HasFrequency d' ft fs
    positive zero le pos = absurd (omega arith)
    positive (suc e) le pos = frequency-HasFrequency d ft e v p (omega arith)

-- The interval [fl, fh) of a symbol, in a total of ft, holds the frequency fs.
pub record Holds (fl fh ft fs : ℕ) : Type 0 where
  pub from : fl ≤ fs
  pub to : fs < fh
  pub total : fh ≤ ft

frequency_total : (d : RangeDecoder) (ft fs : ℕ) → HasFrequency d ft fs → ft ≤ d.rng
frequency_total d ft fs f =
    omega (arith, f.fits, mul-le-mul_right {m = 1} {n = d.ext} ft f.step_pos)

-- Update keeps the code value in the range, since the symbol holds the frequency of Decode.
narrow-IsNarrow :
    (d : RangeDecoder) (fl fh ft fs : ℕ)
    → HasFrequency d ft fs
    → Holds fl fh ft fs
    → IsNarrow (narrow d fl fh ft)
narrow-IsNarrow d fl fh ft fs f c =
    rw
      (
        sub_u32-exact {a = ft} {b = fh} c.total (omega (arith, low)),
        sub_u32-exact {a = fh} {b = fl} (omega arith) (omega (arith, low)),
      )
      (ground (arith, below_symbol, symbol, symbol_pos, whole, low))
  where
    low : ft ≤ d.rng
    low = frequency_total d ft fs f

    below_symbol : d.ext * (ft - fh) ≤ d.val
    below_symbol =
        omega
          (arith, f.low_end, mul-le-mul_left {m = ft - fh} {n = ft - fs - 1} d.ext (omega arith))

    whole : 0 < fl → d.ext * (ft - fs) ≤ d.ext * (ft - fh) + d.ext * (fh - fl)
    whole p = omega (
      arith,
      mul-add d.ext (ft - fh) (fh - fl),
      mul-le-mul_left {m = ft - fs} {n = (ft - fh) + (fh - fl)} d.ext (omega arith),
    )

    symbol : d.ext * (fh - fl) ≤ d.rng
    symbol = omega (arith, f.fits, mul-le-mul_left {m = fh - fl} {n = ft} d.ext (omega arith))

    symbol_pos : 0 < d.ext * (fh - fl)
    symbol_pos =
        omega (arith, mul-le-mul_left {m = 1} {n = fh - fl} d.ext (omega arith), f.step_pos)

-- After Decode, Update with the symbol that holds the frequency returns, and keeps the decoder valid.
pub update-IsValid :
    (d : RangeDecoder) (fl fh ft fs : ℕ)
    → HasFrequency d ft fs
    → Holds fl fh ft fs
    → Gives (update d fl fh ft) IsValid
unfolding update
update-IsValid d fl fh ft fs f c =
    normalize-IsValid (narrow d fl fh ft) (narrow-IsNarrow d fl fh ft fs f c)

-- On a valid decoder and a total from 1 to 2 ^ 23, Update after Decode, with the interval of a symbol
-- that holds the frequency Decode returned, ends and leaves a valid decoder.
pub decode-update-IsValid :
    (d : RangeDecoder) (fl fh ft : ℕ)
    → IsValid d
    → 0 < ft
    → ft ≤ code_bot
    → let (fs, d') = decode d ft in Holds fl fh ft fs → Gives (update d' fl fh ft) IsValid
decode-update-IsValid d fl fh ft v p h c =
    update-IsValid (decode d ft).1 fl fh ft (decode d ft).0 (decode-HasFrequency d ft v p h) c

-- The symbol that is returned, in its bounds, and the decoder after it.
abbrev pub IsSymbol : ℕ → ℕ × RangeDecoder → Type 0
IsSymbol n (sym, d) = (sym < n) × IsValid d

pub and_then-IsSymbol :
    (n sym : ℕ) (o : Option RangeDecoder)
    → sym < n
    → Gives o IsValid
    → Gives (and_then o (λ d. some (sym, d))) (IsSymbol n)
and_then-IsSymbol n sym o h v = and_then-Gives IsValid (IsSymbol n) o _ v (λ d v'. (h, v'))

-- A symbol one frequency wide is returned as the frequency itself.
pub update_one-IsSymbol :
    (d : RangeDecoder) (ft fs : ℕ)
    → HasFrequency d ft fs
    → Gives (and_then (update d fs (u32 (fs + 1)) ft) (λ d'. some (fs, d'))) (IsSymbol ft)
update_one-IsSymbol d ft fs f = and_then-IsSymbol ft fs _ f.freq_below (
    rw next (
      update-IsValid d fs (fs + 1) ft fs f
        (record { from = omega arith; to = omega arith; total = omega (arith, f.freq_below) })))
  where
    next : u32 (fs + 1) ≡ fs + 1
    next = omega (arith, frequency_total d ft fs f)

decode_bin-decode :
    (d : RangeDecoder) (bits : ℕ) → bits ≤ 23 → decode_bin d bits ≡ decode d (2 ^ bits)
unfolding decode_bin decode
decode_bin-decode d bits h = ground (
  arith,
  pow-le-pow_right {n = 2} (omega arith) {i = bits} {j = 23} h,
  one-le-pow bits 2 (omega arith),
)

-- DecodeRawSymbol of at most 23 bits returns, with a symbol of that many bits.
pub decode_raw_symbol-IsSymbol :
    (d : RangeDecoder) (bits : ℕ)
    → bits ≤ 23
    → IsValid d
    → Gives (decode_raw_symbol d bits) (IsSymbol (2 ^ bits))
unfolding decode_raw_symbol
decode_raw_symbol-IsSymbol d bits h v =
    let small : 2 ^ bits ≤ 8388608 = pow-le-pow_right {n = 2} (omega arith) {i = bits} {j = 23} h in
    let exact : u32 (2 ^ bits) ≡ 2 ^ bits = omega arith in
    rw (decode_bin-decode d bits h, exact)
      (update_one-IsSymbol _ (2 ^ bits) _
        (decode-HasFrequency d (2 ^ bits) v (one-le-pow bits 2 (omega arith)) small))

split_bit-IsNarrow :
    (d : RangeDecoder) (s : ℕ)
    → IsValid d
    → 0 < s
    → s < d.rng
    → let (ret, d') = split_bit d s in (ret < 2) × IsNarrow d'
split_bit-IsNarrow d s v pos below = ground arith

part_of_range :
    (d : RangeDecoder) (logp : ℕ)
    → 1 ≤ logp
    → logp ≤ 23
    → IsValid d
    → (0 < d.rng / 2 ^ logp) × (d.rng / 2 ^ logp < d.rng)
part_of_range d logp one h v =
    let low : 2 ^ 1 ≤ 2 ^ logp = pow-le-pow_right {n = 2} (omega arith) {i = 1} {j = logp} one in
    let high : 2 ^ logp ≤ 2 ^ 23 = pow-le-pow_right {n = 2} (omega arith) {i = logp} {j = 23} h in
    let some_part : 1 ≤ d.rng / 2 ^ logp =
      (le-div_iff_mul-le {k = 2 ^ logp} {x = 1} {y = d.rng} (omega arith)).1 (omega arith) in
    let less : d.rng / 2 ^ logp < d.rng =
      (div-lt_iff_lt-mul {k = 2 ^ logp} {x = d.rng} {y = d.rng} (omega arith)).1
        (omega (arith, mul-le-mul_left {m = 2} {n = 2 ^ logp} d.rng low)) in
    (omega arith, less)

-- BitLogp returns a bit, and keeps the decoder valid, where it cuts the range in two parts.
pub bit_logp-IsSymbol :
    (d : RangeDecoder) (logp : ℕ)
    → 1 ≤ logp
    → logp ≤ 23
    → IsValid d
    → Gives (bit_logp d logp) (IsSymbol 2)
unfolding bit_logp
bit_logp-IsSymbol d logp one h v =
    let (pos, less) = part_of_range d logp one h v in
    let (bit, narrowed) = split_bit-IsNarrow d (d.rng / 2 ^ logp) v pos less in
    and_then-IsSymbol 2 _ _ bit (normalize-IsValid _ narrowed)

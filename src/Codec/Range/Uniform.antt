-- ===== src/Codec/Range/Uniform.antt =====
-- BitsN, DecodeUint and Decode64FineSym: raw bits and uniform integers stay in their bounds.
use wa_calls.Base.{and_then, Gives, and_then-Gives}
use wa_calls.Base.{ℕ, zero, suc, ◌+◌, ◌-◌, ◌*◌, ◌/◌, ◌^◌, ◌≤◌, ◌<◌, ◌≡◌, some, arith, subst}
use native.Mathlib.Nat.{pow-suc, pow-le-pow_right, one-le-pow, div-lt_iff_lt-mul}
use native.Mathlib.Decide.{dec_lt}
use wa_calls.Base.Bits.{bit_and_mask}
use wa_calls.Bytes.{u32, sub_u32, IsU32}
use wa_calls.Codec.Range.Decoder.{RangeDecoder, code_bot, frequency, update, ilog, len_bits}
use wa_calls.Codec.Range.Symbols.{
  uint_up_to, fill_rounds, fill_round, fill_window, take_bits, bits_n, uniform, checked, wide_uint,
  decode_uint, fine_symbol, decode_64_fine_sym,
}
use wa_calls.Codec.Range.Normalize.{IsValid}
use wa_calls.Codec.Range.Invariant.{
  HasFrequency, IsSymbol, frequency-HasFrequency, decode-HasFrequency, update_one-IsSymbol,
}

fill_round_fields :
    (d : RangeDecoder)
    → IsValid d
    → d.nend_bits ≤ 24
    → IsValid (fill_round d) × ((fill_round d).nend_bits ≡ d.nend_bits + 8)
fill_round_fields d v h = ground arith

fill_window-IsValid :
    (n : ℕ) (d : RangeDecoder)
    → IsValid d
    → d.nend_bits ≤ 24
    → 24 < d.nend_bits + 8 * n
    → Gives (fill_window n d) IsValid
unfolding fill_window
fill_window-IsValid zero d v h e = absurd (omega arith)
fill_window-IsValid (suc n) d v h e = elim (dec_lt 24 (d.nend_bits + 8)) [
  | yes p ↦ ground (arith, fill_round_fields d v h)
  | no p ↦ ground (arith, fill_round_fields d v h, fill_window-IsValid n (fill_round d))
]

take_bits-IsSymbol :
    (d : RangeDecoder) (n : ℕ) → n ≤ 24 → IsValid d → IsSymbol (2 ^ n) (take_bits n d)
take_bits-IsSymbol d n h v =
    let high : 2 ^ n ≤ 2 ^ 24 = pow-le-pow_right {n = 2} (omega arith) {i = n} {j = 24} h in
    let low : 1 ≤ 2 ^ n = one-le-pow n 2 (omega arith) in
    let mask : sub_u32 (u32 (2 ^ n)) 1 ≡ 2 ^ n - 1 = omega arith in
    (
      rw (mask, bit_and_mask n d.end_window) (omega arith),
      record { above = v.above; below = v.below; inside = v.inside },
    )

-- BitsN of at most 24 bits returns a number of that many bits: the rounds given to its loop are enough.
pub bits_n-IsSymbol :
    (d : RangeDecoder) (n : ℕ) → n ≤ 24 → IsValid d → Gives (bits_n d n) (IsSymbol (2 ^ n))
unfolding bits_n
bits_n-IsSymbol d n h v = elim (dec_lt d.nend_bits n) [
  | yes p ↦ ground (
    arith,
    and_then-Gives IsValid (IsSymbol (2 ^ n)) (fill_window fill_rounds d)
        (λ d'. some (take_bits n d'))
        (fill_window-IsValid fill_rounds d v (omega arith) (omega arith))
        (λ d' v'. take_bits-IsSymbol d' n h v'),
  )
  | no p ↦ ground (arith, take_bits-IsSymbol d n h v)
]

pub uniform-IsSymbol :
    (d : RangeDecoder) (ft : ℕ)
    → IsValid d
    → 0 < ft
    → ft ≤ code_bot
    → Gives (uniform d ft) (IsSymbol ft)
uniform-IsSymbol d ft v p h = update_one-IsSymbol _ ft _ (decode-HasFrequency d ft v p h)

-- bits.Len32 counts the bits of a word.
len_bits-lt : (w x : ℕ) → x < 2 ^ w → x < 2 ^ len_bits w x
unfolding len_bits
len_bits-lt zero x h = h
len_bits-lt (suc w) zero h = omega arith
len_bits-lt (suc w) (suc x) h =
    let half : suc x / 2 < 2 ^ len_bits w (suc x / 2) =
      len_bits-lt w (suc x / 2) (omega (arith, pow-suc 2 w)) in
    ground (arith, pow-suc 2 (len_bits w (suc x / 2)))

len_bits-le : (w x : ℕ) → len_bits w x ≤ w
unfolding len_bits
len_bits-le zero x = omega arith
len_bits-le (suc w) x = ground (arith, len_bits-le w (x / 2))

pub ilog_bounds : (x : ℕ) → IsU32 x → (x < 2 ^ ilog x) × (ilog x ≤ 32)
unfolding ilog
ilog_bounds x h = (len_bits-lt 32 x (omega arith), len_bits-le 32 x)

two_pow_byte : (m n : ℕ) → n ≡ m + 8 → 2 ^ n ≡ 256 * 2 ^ m
two_pow_byte m n e =
    let chain : n ≡ suc (suc (suc (suc (suc (suc (suc (suc m))))))) = omega arith in
    rw (chain, pow-suc, pow-suc, pow-suc, pow-suc, pow-suc, pow-suc, pow-suc, pow-suc) (omega arith)

-- The top of a value of more than eight bits, as a total of the range coder.
ilog_top : (ft : ℕ) → IsU32 ft → 8 < ilog ft → ft / 2 ^ (ilog ft - 8) < 256
ilog_top ft h p =
    (div-lt_iff_lt-mul {k = 2 ^ (ilog ft - 8)} {x = ft} {y = 256}
        (one-le-pow (ilog ft - 8) 2 (omega arith))).1
      (omega (arith, (ilog_bounds ft h).0, two_pow_byte (ilog ft - 8) (ilog ft) (omega arith)))

small_total : (ft : ℕ) → ilog ft ≤ 8 → IsU32 ft → ft < 256
small_total ft p h =
    omega
      (arith, (ilog_bounds ft h).0, pow-le-pow_right {n = 2} (omega arith) {i = ilog ft} {j = 8} p)

checked-IsSymbol : (ft v : ℕ) (d : RangeDecoder) → IsValid d → IsSymbol (ft + 1) (checked ft (v, d))
checked-IsSymbol ft v d h = ground arith

wide_uint-IsSymbol :
    (d : RangeDecoder) (ft ftb : ℕ)
    → IsValid d
    → ftb ≤ 24
    → ft / 2 ^ ftb < 256
    → Gives (wide_uint d ft ftb) (IsSymbol (ft + 1))
wide_uint-IsSymbol d ft ftb v b t =
    let top : u32 (ft / 2 ^ ftb + 1) ≡ ft / 2 ^ ftb + 1 = omega arith in
    rw top (
      and_then-Gives (IsSymbol (ft / 2 ^ ftb + 1)) (IsSymbol (ft + 1)) _ _
        (uniform-IsSymbol d (ft / 2 ^ ftb + 1) v (omega arith) (omega arith))
        (λ (s, d') h.
          and_then-Gives (IsSymbol (2 ^ ftb)) (IsSymbol (ft + 1)) (bits_n d' ftb) _
            (bits_n-IsSymbol d' ftb b h.1) (λ (low, d'') h'. checked-IsSymbol ft _ d'' h'.1)))

uint_up_to-IsSymbol :
    (d : RangeDecoder) (ft : ℕ)
    → IsValid d
    → 1 ≤ ft
    → IsU32 (ft + 1)
    → Gives (uint_up_to d ft) (IsSymbol (ft + 1))
uint_up_to-IsSymbol d ft v low high = elim (dec_lt 8 (ilog ft)) [
  | yes p ↦ ground (
    arith,
    wide_uint-IsSymbol d ft (ilog ft - 8) v (omega (arith, (ilog_bounds ft (omega arith)).1))
        (ilog_top ft (omega arith) p),
  )
  | no p ↦
      let small = small_total ft (omega arith) (omega arith) in
      let exact : u32 (ft + 1) ≡ ft + 1 = omega arith in
      ground (arith, exact, uniform-IsSymbol d (ft + 1) v (omega arith) (omega (arith, small)))
]

-- DecodeUint of a bound from 2 to 2 ^ 32 - 1 returns a number below it.
pub decode_uint-IsSymbol :
    (d : RangeDecoder) (ft0 : ℕ)
    → IsValid d
    → 2 ≤ ft0
    → IsU32 ft0
    → Gives (decode_uint d ft0) (IsSymbol ft0)
unfolding decode_uint
decode_uint-IsSymbol d ft0 v low high =
    let minus : ft0 - 1 ≡ sub_u32 ft0 1 = omega arith in
    let back : ft0 - 1 + 1 ≡ ft0 = omega arith in
    subst (λ ft. Gives (uint_up_to d ft) (IsSymbol ft0)) minus
      (subst (λ n. Gives (uint_up_to d (ft0 - 1)) (IsSymbol n)) back
        (uint_up_to-IsSymbol d (ft0 - 1) v (omega arith) (omega arith)))

fine_symbol-IsSymbol :
    (d : RangeDecoder) (e : ℕ)
    → IsValid d
    → e * 64 ≤ d.rng
    → 0 < e
    → Gives (fine_symbol d e) (IsSymbol 64)
fine_symbol-IsSymbol d zero v le h = absurd (omega arith)
fine_symbol-IsSymbol d (suc e) v le h =
    let value : (frequency d 64 (suc e)).0 ≡ 63 - d.val / suc e = ground arith in
    let next : u32 (63 - d.val / suc e + 1) ≡ 63 - d.val / suc e + 1 = omega arith in
    let f : HasFrequency (record d { ext = suc e }) 64 (63 - d.val / suc e) =
      subst (λ fs. HasFrequency (record d { ext = suc e }) 64 fs) value
        (frequency-HasFrequency d 64 e v (omega arith) le) in
    subst
      (λ n.
        Gives
          (and_then (update (record d { ext = suc e }) (63 - d.val / suc e) n 64)
            (λ d'. some (63 - d.val / suc e, d')))
          (IsSymbol 64))
      next (update_one-IsSymbol (record d { ext = suc e }) 64 (63 - d.val / suc e) f)

-- Decode64FineSym returns a number below 64.
pub decode_64_fine_sym-IsSymbol :
    (d : RangeDecoder) → IsValid d → Gives (decode_64_fine_sym d) (IsSymbol 64)
unfolding decode_64_fine_sym
decode_64_fine_sym-IsSymbol d v =
    fine_symbol-IsSymbol d (d.rng / 2 ^ 6) v (omega arith) (omega (arith, v.above))

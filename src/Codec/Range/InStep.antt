-- ===== src/Codec/Range/InStep.antt =====
-- The encoder and the decoder of the range coder side by side.
use wa_calls.Base.{and_then}
use wa_calls.Base.{
  ℕ, zero, suc, ◌+◌, ◌-◌, ◌*◌, ◌/◌, ◌^◌, ◌≤◌, ◌<◌, ◌≡◌, refl, ap, Option, none, some, arith, List,
  [], ◌∷◌, bit_and,
}
use native.Mathlib.Nat.{pow-suc, mul-add, mul-le-mul_left, div-mul-le_self, le-div_iff_mul-le}
use native.Mathlib.Decide.{dec_lt}
use wa_calls.Bytes.{sub_u32-exact}
use wa_calls.Codec.Range.Decoder.{
  RangeDecoder, code_bot, code_top, rounds, normalize_round, normalize_in, normalize, decode,
  frequency, narrow, update, new_range_decoder,
}
use wa_calls.Codec.Range.Encoder.{
  RangeEncoder, new_range_encoder, write_byte, write_held, write_rem, carry_out, encoder_round,
  renormalize_in, renormalize, enclose, range_encode,
}

-- The range and the count of bits are the same on both sides.
pub record IsInStep (e : RangeEncoder) (d : RangeDecoder) : Type 0 where
  pub same_rng : e.rng ≡ d.rng
  pub same_bits : e.nbits_total ≡ d.nbits_total

-- A range of more than 23 bits.
pub record InRange (rng : ℕ) : Type 0 where
  pub above : code_bot < rng
  pub below : rng ≤ code_top

abbrev pub Both : Option RangeEncoder → Option RangeDecoder → Type 0
Both (some e) (some d) = IsInStep e d × InRange e.rng
Both _ _ = ⊥

-- What is written leaves the range and the count of bits as they are.
write_held_keeps :
    (n sym : ℕ) (e : RangeEncoder)
    → ((write_held n sym e).rng ≡ e.rng) × ((write_held n sym e).nbits_total ≡ e.nbits_total)
write_held_keeps zero sym e = (refl, refl)
write_held_keeps (suc n) sym e = ground (arith, write_held_keeps n sym (write_byte e sym))

write_rem_keeps :
    (b : Option ℕ) (carry : ℕ) (e : RangeEncoder)
    → ((write_rem b carry e).rng ≡ e.rng) × ((write_rem b carry e).nbits_total ≡ e.nbits_total)
write_rem_keeps none carry e = (refl, refl)
write_rem_keeps (some b) carry e = ground arith

carry_out_keeps :
    (e : RangeEncoder) (c : ℕ)
    → ((carry_out e c).rng ≡ e.rng) × ((carry_out e c).nbits_total ≡ e.nbits_total)
carry_out_keeps e c =
    let carry = c / 2 ^ 8 in
    ground (
      arith,
      write_held_keeps e.ext (bit_and (255 + carry) 255) (write_rem e.rem carry e),
      write_rem_keeps e.rem carry e,
    )

round-IsInStep :
    (e : RangeEncoder) (d : RangeDecoder)
    → IsInStep e d
    → IsInStep (encoder_round e) (normalize_round d)
round-IsInStep e d s = ground (arith, carry_out_keeps e (e.val / 2 ^ 23))

renormalize_in-Both :
    (n : ℕ) (e : RangeEncoder) (d : RangeDecoder)
    → IsInStep e d
    → code_bot < e.rng * 256 ^ n
    → e.rng ≤ code_top
    → Both (renormalize_in n e) (normalize_in n d)
unfolding renormalize_in normalize_in
renormalize_in-Both zero e d s low high = ground arith
renormalize_in-Both (suc n) e d s low high = elim (dec_lt code_bot e.rng) [
  | yes p ↦ ground arith
  | no p ↦
      let wider : (encoder_round e).rng ≡ e.rng * 256 =
        omega (arith, carry_out_keeps e (e.val / 2 ^ 23)) in
      ground (
        arith,
        renormalize_in-Both n (encoder_round e) (normalize_round d) (round-IsInStep e d s)
            (rw wider (omega (arith, pow-suc 256 n, ap (λ t. e.rng * t) (pow-suc 256 n))))
            (omega arith),
      )
]

renormalize-Both :
    (e : RangeEncoder) (d : RangeDecoder)
    → IsInStep e d
    → 0 < e.rng
    → e.rng ≤ code_top
    → Both (renormalize e) (normalize d)
unfolding renormalize normalize
renormalize-Both e d s low high = renormalize_in-Both rounds e d s (omega (arith, low)) high

-- The interval [fl, fh) of a symbol in a total of at most 23 bits.
pub record IsInterval (fl fh ft : ℕ) : Type 0 where
  pub some_part : fl < fh
  pub inside : fh ≤ ft
  pub total : ft ≤ code_bot

frequency_keeps :
    (d : RangeDecoder) (ft e : ℕ)
    → 0 < e
    → let d' = (frequency d ft e).1 in
      (d'.ext ≡ e) × (d'.rng ≡ d.rng) × (d'.nbits_total ≡ d.nbits_total)
frequency_keeps d ft zero h = absurd (omega arith)
frequency_keeps d ft (suc e) h = (refl, refl, refl)

module _ (e : RangeEncoder) (fl fh ft : ℕ) (r : InRange e.rng) (i : IsInterval fl fh ft) where
  step_pos : 0 < e.rng / ft
  step_pos = omega (
    arith,
    (le-div_iff_mul-le {k = ft} {x = 1} {y = e.rng} (omega (arith, i.some_part, i.inside))).1
        (omega (arith, r.above, i.total)),
  )

  enclose_range : (0 < (enclose e fl fh ft).rng) × ((enclose e fl fh ft).rng ≤ code_top)
  enclose_range =
      rw
        (
          sub_u32-exact {a = fh} {b = fl} (omega arith) (omega arith),
          sub_u32-exact {a = ft} {b = fh} (omega arith) (omega arith),
        )
        (ground (
          arith,
          r.below,
          div-mul-le_self e.rng ft,
          mul-le-mul_left {m = 1} {n = fh - fl} (e.rng / ft) (omega arith),
          mul-le-mul_left {m = fh - fl} {n = ft} (e.rng / ft) (omega arith),
          mul-le-mul_left {m = ft - fh + 1} {n = ft} (e.rng / ft) (omega arith),
          mul-add (e.rng / ft) (ft - fh) 1,
          step_pos,
        ))

  symbol-IsInStep :
      (d : RangeDecoder)
      → IsInStep e d
      → IsInStep (enclose e fl fh ft) (narrow (decode d ft).1 fl fh ft)
  unfolding decode
  symbol-IsInStep d s = ground (arith, frequency_keeps d ft (d.rng / ft), step_pos)

  -- Encode on one side, Decode and Update on the other.
  symbol-Both :
      (d : RangeDecoder)
      → IsInStep e d
      → Both (range_encode e fl fh ft) (update (decode d ft).1 fl fh ft)
  unfolding range_encode update
  symbol-Both d s = ground (
    arith,
    i.some_part,
    i.inside,
    renormalize-Both (enclose e fl fh ft) (narrow (decode d ft).1 fl fh ft) (symbol-IsInStep d s)
        enclose_range.0 enclose_range.1,
  )

abbrev pub IsSymbols : List (ℕ × ℕ × ℕ) → Type 0
IsSymbols [] = Unit
IsSymbols ((fl, fh, ft) ∷ ss) = IsInterval fl fh ft × IsSymbols ss

unfoldable pub encode_all : RangeEncoder → List (ℕ × ℕ × ℕ) → Option RangeEncoder
encode_all e [] = some e
encode_all e ((fl, fh, ft) ∷ ss) = and_then (range_encode e fl fh ft) (λ e'. encode_all e' ss)

unfoldable pub decode_all : RangeDecoder → List (ℕ × ℕ × ℕ) → Option RangeDecoder
decode_all d [] = some d
decode_all d ((fl, fh, ft) ∷ ss) =
    and_then (update (decode d ft).1 fl fh ft) (λ d'. decode_all d' ss)

and_then-Both :
    (o : Option RangeEncoder) (p : Option RangeDecoder) (f : RangeEncoder → Option RangeEncoder)
    (g : RangeDecoder → Option RangeDecoder)
    → Both o p
    → ((e : RangeEncoder) (d : RangeDecoder) → IsInStep e d → InRange e.rng → Both (f e) (g d))
    → Both (and_then o f) (and_then p g)
and_then-Both (some e) (some d) f g h k = k e d h.0 h.1
and_then-Both (some e) none f g h k = absurd h
and_then-Both none (some d) f g h k = absurd h
and_then-Both none none f g h k = absurd h

pub encode_all-Both :
    (e : RangeEncoder) (d : RangeDecoder) (ss : List (ℕ × ℕ × ℕ))
    → IsInStep e d
    → InRange e.rng
    → IsSymbols ss
    → Both (encode_all e ss) (decode_all d ss)
unfolding encode_all decode_all
encode_all-Both e d [] s r h = (s, r)
encode_all-Both e d ((fl, fh, ft) ∷ ss) s r h =
    and_then-Both (range_encode e fl fh ft) (update (decode d ft).1 fl fh ft) _ _
      (symbol-Both e fl fh ft r h.0 d s) (λ e' d' s' r'. encode_all-Both e' d' ss s' r' h.1)

-- The first state of a decoder, before normalize, on the side of an encoder.
abbrev before_start : RangeEncoder
before_start = record (new_range_encoder 0) { rng = 2 ^ 7; nbits_total = 9 }

encoder_alike :
    (e e' : RangeEncoder) (o : Option RangeDecoder)
    → e.rng ≡ e'.rng
    → e.nbits_total ≡ e'.nbits_total
    → Both (some e) o
    → Both (some e') o
encoder_alike e e' none p q h = h
encoder_alike e e' (some d) p q h = ground arith

new_range_decoder-Both :
    (size : ℕ) (buf : List ℕ) → Both (some (new_range_encoder size)) (new_range_decoder buf)
unfolding new_range_decoder renormalize renormalize_in
new_range_decoder-Both size buf =
    encoder_alike _ (new_range_encoder size) _ refl refl
      (renormalize-Both before_start _ (ground arith) (omega arith) (omega arith))

-- A new encoder and a new decoder, whatever bytes the decoder is given, have the same range and the
-- same count of bits after the same sequence of symbols, and neither stops on the way.
pub new_coders-Both :
    (size : ℕ) (buf : List ℕ) (ss : List (ℕ × ℕ × ℕ))
    → IsSymbols ss
    → Both
        (encode_all (new_range_encoder size) ss)
        (and_then (new_range_decoder buf) (λ d. decode_all d ss))
new_coders-Both size buf ss h =
    and_then-Both (some (new_range_encoder size)) (new_range_decoder buf) (λ e. encode_all e ss)
      (λ d. decode_all d ss) (new_range_decoder-Both size buf)
      (λ e d s r. encode_all-Both e d ss s r h)

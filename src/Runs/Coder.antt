-- ===== src/Runs/Coder.antt =====
-- The range coder on a table of three symbols and on the bytes of a short payload.
use wa_calls.Base.{ℕ, ◌≡◌, refl, Option, some, List, [], ◌∷◌, arith, Gives, and_then}
use wa_calls.Codec.Range.Decoder.{
  RangeDecoder, start, normalize, normalize_in, new_range_decoder, decode, decode_bin, update, ilog,
  len_bits, decode_raw_symbol, bit_logp,
}
use wa_calls.Codec.Range.Symbols.{
  decode_cdf, decode_uint, decode_icdf, bits_n, fill_window, decode_64_fine_sym,
}
use wa_calls.Codec.Range.Normalize.{IsValid}
use wa_calls.Codec.Range.Invariant.{IsSymbol, decode-update-IsValid}
use wa_calls.Codec.Range.Table.{decode_cdf-IsSymbol}
use wa_calls.Codec.Range.Encoder.{
  RangeEncoder, new_range_encoder, range_encode, renormalize, renormalize_in, encode_cdf,
  encode_bit_logp, encode_icdf,
}
use wa_calls.Codec.Range.RawBits.{
  encode_bits_n, encode_uint, flush_window, write_code, drain_window, done,
}
use wa_calls.Codec.Range.InStep.{Both, encode_all, decode_all, new_coders-Both}

program : Unit {0}
unfolding normalize normalize_in new_range_decoder decode decode_bin update ilog len_bits
    decode_raw_symbol bit_logp decode_cdf decode_uint decode_icdf bits_n fill_window
    decode_64_fine_sym range_encode renormalize renormalize_in encode_cdf encode_bit_logp
    encode_icdf encode_bits_n encode_uint flush_window write_code drain_window done
program = tt

abbrev table : List ℕ
table = 0 ∷ 100 ∷ 700 ∷ 1000 ∷ []

-- Five symbols of the table, four raw bits and a number below 1000.
abbrev write_some : Option RangeEncoder
write_some = and_then (encode_cdf (new_range_encoder 12) 1 table) (λ a.
    and_then (encode_cdf a 2 table) (λ b.
      and_then (encode_cdf b 0 table) (λ c.
        and_then (encode_bits_n c 9 4) (λ d. and_then (encode_uint d 777 1000) (λ e. done e)))))

abbrev read_some : List ℕ → Option (List ℕ)
read_some buf = and_then (new_range_decoder buf) (λ d. and_then (decode_cdf d table) (λ (w, a).
    and_then (decode_cdf a table) (λ (x, b). and_then (decode_cdf b table) (λ (y, c).
      and_then (bits_n c 4)
        (λ (z, e). and_then (decode_uint e 1000) (λ (u, f). some (w ∷ x ∷ y ∷ z ∷ u ∷ [])))))))

coder_runs : and_then write_some (λ e. read_some e.buf) ≡ some (1 ∷ 2 ∷ 0 ∷ 9 ∷ 777 ∷ [])
unfolding program
coder_runs = refl

-- A decoder in the middle of a payload.
abbrev midway : RangeDecoder
midway = record (start (200 ∷ 17 ∷ 3 ∷ 99 ∷ [])) {
  rng = 2000000000;
  val = 1234567890;
  nbits_total = 33;
}

midway-IsValid : IsValid midway
midway-IsValid = omega arith

decode-update-IsValid_example : Gives (update (decode midway 1000).1 100 700 1000) IsValid
unfolding decode
decode-update-IsValid_example =
    decode-update-IsValid midway 100 700 1000 midway-IsValid (omega arith) (omega arith)
      (record { from = omega arith; to = omega arith; total = omega arith })

decode_cdf-IsSymbol_example : Gives (decode_cdf midway table) (IsSymbol 3)
decode_cdf-IsSymbol_example =
    decode_cdf-IsSymbol midway 0 100 (700 ∷ 1000 ∷ []) midway-IsValid (omega arith) (omega arith)
      (omega arith)

abbrev two_symbols : List (ℕ × ℕ × ℕ)
two_symbols = (100, 700, 1000) ∷ (0, 1, 64) ∷ []

new_coders-Both_example :
    Both
      (encode_all (new_range_encoder 8) two_symbols)
      (and_then (new_range_decoder (200 ∷ 17 ∷ 3 ∷ [])) (λ d. decode_all d two_symbols))
new_coders-Both_example = new_coders-Both 8 (200 ∷ 17 ∷ 3 ∷ []) two_symbols (
  record { some_part = omega arith; inside = omega arith; total = omega arith },
  (record { some_part = omega arith; inside = omega arith; total = omega arith }, tt),
)

-- ===== src/Codec/Range/Encoder.antt =====
-- RangeEncoder. The field `rem` of -1 is `none`, and `err` of -1 is `true`.
use wa_calls.Base.{
  ℕ, zero, suc, ◌+◌, ◌-◌, ◌*◌, ◌/◌, ◌^◌, Bool, true, false, ◌||◌, Option, none, some, List,
  if◌then◌else◌, ltb, leb, ◌==◌, bit_and, get_or, set, replicate, length,
}
use wa_calls.Bytes.{u8, u32, sub_u32}
use wa_calls.Codec.Range.Decoder.{code_bot, code_top, rounds}

pub record RangeEncoder : Type 0 where
  pub buf : List ℕ
  pub storage : ℕ
  pub end_offs : ℕ
  pub end_window : ℕ
  pub nend_bits : ℕ
  pub nbits_total : ℕ
  pub offs : ℕ
  pub rng : ℕ
  pub val : ℕ
  pub ext : ℕ
  pub rem : Option ℕ
  pub err : Bool

abbrev pub new_range_encoder : ℕ → RangeEncoder
new_range_encoder size = record {
  buf = replicate size 0;
  storage = u32 size;
  end_offs = 0;
  end_window = 0;
  nend_bits = 0;
  nbits_total = 33;
  offs = 0;
  rng = code_top;
  val = 0;
  ext = 0;
  rem = none;
  err = false;
}

abbrev pub write_byte : RangeEncoder → ℕ → RangeEncoder
write_byte e b =
    if ltb (u32 (e.offs + e.end_offs)) e.storage
    then record e { buf = set e.buf e.offs (u8 b); offs = u32 (e.offs + 1) }
    else record e { err = true }

abbrev pub write_byte_at_end : RangeEncoder → ℕ → RangeEncoder
write_byte_at_end e b =
    let end_offs = u32 (e.end_offs + 1) in
    if ltb (u32 (e.offs + e.end_offs)) e.storage
    then record e { end_offs = end_offs; buf = set e.buf (sub_u32 e.storage end_offs) (u8 b) }
    else record e { err = true }

-- The loop that writes the bytes that were held back for a carry.
abbrev pub write_held : ℕ → ℕ → RangeEncoder → RangeEncoder
write_held zero sym e = e
write_held (suc n) sym e = write_held n sym (write_byte e sym)

abbrev pub write_rem : Option ℕ → ℕ → RangeEncoder → RangeEncoder
write_rem none carry e = e
write_rem (some b) carry e = write_byte e (b + carry)

abbrev pub carry_out : RangeEncoder → ℕ → RangeEncoder
carry_out e c =
    let carry = c / 2 ^ 8 in
    let written = write_held e.ext (bit_and (255 + carry) 255) (write_rem e.rem carry e) in
    if c == 255
    then record e { ext = u32 (e.ext + 1) }
    else record written { ext = 0; rem = some (bit_and c 255) }

abbrev pub encoder_round : RangeEncoder → RangeEncoder
encoder_round e =
    let e' = carry_out e (e.val / 2 ^ 23) in
    record e' {
      val = bit_and (u32 (e.val * 2 ^ 8)) (2 ^ 31 - 1);
      rng = u32 (e'.rng * 2 ^ 8);
      nbits_total = u32 (e'.nbits_total + 8);
    }

unfoldable pub renormalize_in : ℕ → RangeEncoder → Option RangeEncoder
renormalize_in zero e = if leb e.rng code_bot then none else some e
renormalize_in (suc n) e = elim (leb e.rng code_bot) [
  | true ↦ renormalize_in n (encoder_round e)
  | false ↦ some e
]

-- RangeEncoder.normalize
unfoldable pub renormalize : RangeEncoder → Option RangeEncoder
renormalize e = renormalize_in rounds e

-- Encode before normalize.
abbrev pub enclose : RangeEncoder → ℕ → ℕ → ℕ → RangeEncoder
enclose e fl fh ft =
    let r = e.rng / ft in
    if ltb 0 fl
    then record e {
      val = u32 (e.val + sub_u32 e.rng (u32 (r * sub_u32 ft fl)));
      rng = u32 (r * sub_u32 fh fl);
    }
    else record e { rng = sub_u32 e.rng (u32 (r * sub_u32 ft fh)) }

unfoldable pub range_encode : RangeEncoder → ℕ → ℕ → ℕ → Option RangeEncoder
range_encode e fl fh ft =
    if ft == 0 then some (record e { err = true }) else renormalize (enclose e fl fh ft)

unfoldable pub encode_bit_logp : RangeEncoder → Bool → ℕ → Option RangeEncoder
encode_bit_logp e one logp =
    let s = e.rng / 2 ^ logp in
    let r2 = sub_u32 e.rng s in
    renormalize
      (if one then record e { val = u32 (e.val + r2); rng = s } else record e { rng = r2 })

-- EncodeICDF; `icdf[s-1]-icdf[s]` is a subtraction of bytes. `none` is also an index past the table.
unfoldable pub encode_icdf : RangeEncoder → ℕ → List ℕ → ℕ → Option RangeEncoder
encode_icdf e s icdf ftb =
    let r = e.rng / 2 ^ ftb in
    let before = get_or icdf (s - 1) 0 in
    let here = get_or icdf s 0 in
    if leb (length icdf) s
    then none
    else renormalize (
        if ltb 0 s
        then record e {
          val = u32 (e.val + sub_u32 e.rng (u32 (r * before)));
          rng = u32 (r * u8 (before + 256 - here));
        }
        else record e { rng = sub_u32 e.rng (u32 (r * here)) })

abbrev pub failing : RangeEncoder → Option RangeEncoder
failing e = some (record e { err = true })

-- EncodeCDF, for the index of a symbol that is not negative.
unfoldable pub encode_cdf : RangeEncoder → ℕ → List ℕ → Option RangeEncoder
encode_cdf e s cdf =
    let n = length cdf in
    let base = get_or cdf 0 0 in
    let top = get_or cdf (n - 1) 0 in
    if ltb n 2 || leb n (s + 1)
    then failing e
    else if leb top base
    then failing e
    else range_encode e (sub_u32 (get_or cdf s 0) base) (sub_u32 (get_or cdf (s + 1) 0) base)
        (sub_u32 top base)

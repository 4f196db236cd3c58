-- ===== src/Codec/Range/RawBits.antt =====
-- RangeEncoder: raw bits, uniform integers, and Done, which ends the payload.
use wa_calls.Base.{and_then}
use wa_calls.Base.{
  ℕ, zero, suc, ◌+◌, ◌-◌, ◌*◌, ◌/◌, ◌^◌, Bool, true, false, ◌&&◌, ◌||◌, Option, none, some, List,
  if◌then◌else◌, ltb, leb, bit_and, bit_or, get_or, set,
}
use wa_calls.Bytes.{u8, u32, sub_u32}
use wa_calls.Codec.Range.Decoder.{code_top, rounds, ilog}
use wa_calls.Codec.Range.Encoder.{RangeEncoder, write_byte_at_end, carry_out, range_encode}

-- `used < 8` of int32.
abbrev below_byte : ℕ → Bool
below_byte used = ltb used 8 || leb code_top used

abbrev flush_byte : RangeEncoder → RangeEncoder
flush_byte e =
    let e' = write_byte_at_end e (bit_and e.end_window 255) in
    record e' { end_window = e.end_window / 2 ^ 8; nend_bits = sub_u32 e.nend_bits 8 }

-- The loop of BitsN, which tests after each byte.
unfoldable pub flush_window : ℕ → RangeEncoder → Option RangeEncoder
flush_window zero e = none
flush_window (suc n) e =
    let e' = flush_byte e in
    elim (below_byte e'.nend_bits) [ true ↦ some e' | false ↦ flush_window n e' ]

abbrev put_bits : ℕ → ℕ → RangeEncoder → RangeEncoder
put_bits fl n e = record e {
  end_window = bit_or e.end_window (u32 (fl * 2 ^ e.nend_bits));
  nend_bits = u32 (e.nend_bits + n);
  nbits_total = u32 (e.nbits_total + n);
}

unfoldable pub encode_bits_n : RangeEncoder → ℕ → ℕ → Option RangeEncoder
encode_bits_n e fl n =
    let used = u32 (e.nend_bits + n) in
    elim (ltb 32 used && ltb used code_top) [
      | true ↦ and_then (flush_window rounds e) (λ e'. some (put_bits fl n e'))
      | false ↦ some (put_bits fl n e)
    ]

unfoldable pub encode_uint : RangeEncoder → ℕ → ℕ → Option RangeEncoder
encode_uint e fl ft0 =
    let ft = sub_u32 ft0 1 in
    let shift = ilog ft - 8 in
    elim (ltb 8 (ilog ft)) [
      | true ↦
          and_then
            (range_encode e (fl / 2 ^ shift) (u32 (fl / 2 ^ shift + 1)) (u32 (ft / 2 ^ shift + 1)))
            (λ e'. encode_bits_n e' (bit_and fl (sub_u32 (u32 (2 ^ shift)) 1)) shift)
      | false ↦ range_encode e fl (u32 (fl + 1)) (u32 (ft + 1))
    ]

unfoldable pub encode_raw_symbol : RangeEncoder → ℕ → ℕ → Option RangeEncoder
encode_raw_symbol e sym nbits = range_encode e sym (u32 (sym + 1)) (u32 (2 ^ nbits))

unfoldable pub encode_64_fine_sym : RangeEncoder → ℕ → Option RangeEncoder
encode_64_fine_sym e sym = range_encode e sym (u32 (sym + 1)) 64

-- `(e.val + msk) &^ msk`
abbrev round_up : ℕ → ℕ → ℕ
round_up val msk = u32 (val + msk) - bit_and (u32 (val + msk)) msk

-- The bits to write and their value: one bit more where the first choice leaves the range.
abbrev last_code : RangeEncoder → ℕ × ℕ
last_code e =
    let l = 32 - ilog e.rng in
    let msk = (code_top - 1) / 2 ^ l in
    let last = round_up e.val msk in
    if leb (u32 (e.val + e.rng)) (bit_or last msk)
    then (l + 1, round_up e.val (msk / 2))
    else (l, last)

-- The loop that writes them; a count that falls below zero ends it as zero does.
unfoldable pub write_code : ℕ → ℕ → ℕ → RangeEncoder → Option RangeEncoder
write_code zero l last e = none
write_code (suc n) l last e = elim (ltb 0 l) [
  | true ↦
      write_code n (l - 8) (bit_and (u32 (last * 2 ^ 8)) (code_top - 1))
        (carry_out e (last / 2 ^ 23))
  | false ↦ some e
]

abbrev holds_byte : Option ℕ → ℕ → Bool
holds_byte none ext = ltb 0 ext
holds_byte (some b) ext = true

abbrev release : RangeEncoder → RangeEncoder
release e = if holds_byte e.rem e.ext then carry_out e 0 else e

-- The loop of Done over the window, on its two local variables.
unfoldable pub drain_window : ℕ → ℕ → ℕ → RangeEncoder → Option (ℕ × ℕ × RangeEncoder)
drain_window zero window used e = none
drain_window (suc n) window used e = elim (below_byte used) [
  | true ↦ some (window, used, e)
  | false ↦
      drain_window n (window / 2 ^ 8) (sub_u32 used 8) (write_byte_at_end e (bit_and window 255))
]

abbrev zero_from : ℕ → ℕ → List ℕ → List ℕ
zero_from zero i buf = buf
zero_from (suc n) i buf = zero_from n (i + 1) (set buf i 0)

abbrev put_window : ℕ × ℕ × RangeEncoder → RangeEncoder
put_window (window, used, e) =
    let limit = sub_u32 e.storage e.end_offs in
    let zeroed = record e { buf = zero_from (limit - e.offs) e.offs e.buf } in
    let at = sub_u32 limit 1 in
    if e.err
    then e
    else if ltb 0 used && ltb used code_top
    then if leb (sub_u32 e.storage e.offs) e.end_offs
      then record zeroed { err = true }
      else record zeroed { buf = set zeroed.buf at (bit_or (get_or zeroed.buf at 0) (u8 window)) }
    else zeroed

-- The rounds given to the loops of Done: each shifts a word of at most 33 bits by eight.
abbrev last_rounds : ℕ
last_rounds = 6

unfoldable pub done : RangeEncoder → Option RangeEncoder
done e =
    let (l, last) = last_code e in
    and_then (write_code last_rounds l last e) (λ e'.
      let e'' = release e' in
      and_then (drain_window last_rounds e''.end_window e''.nend_bits e'')
        (λ r. some (put_window r)))

abbrev consumed_len : RangeEncoder → ℕ
consumed_len e = u32 (e.offs + e.end_offs)

-- ===== src/Codec/Range/Decoder.antt =====
-- RangeDecoder: its state and the operations on single frequencies and bits.
use wa_calls.Base.{
  ℕ, zero, suc, ◌+◌, ◌-◌, ◌*◌, ◌/◌, ◌^◌, true, false, Option, none, some, List, if◌then◌else◌, ltb,
  leb, ◌==◌, bit_and, bit_or, length, get_or, and_then,
}
use wa_calls.Bytes.{u32, sub_u32}

abbrev pub code_top : ℕ
code_top = 2147483648

abbrev pub code_bot : ℕ
code_bot = 8388608

-- The rounds given to a loop that shifts a 32-bit word by whole bytes.
abbrev pub rounds : ℕ
rounds = 4

-- bits.Len32, on a word of so many bits.
unfoldable pub len_bits : ℕ → ℕ → ℕ
len_bits zero x = 0
len_bits (suc w) x = let rest = len_bits w (x / 2) in if x == 0 then 0 else suc rest

unfoldable pub ilog : ℕ → ℕ
ilog x = len_bits 32 x

abbrev pub ec_mini : ℕ → ℕ → ℕ
ec_mini a b = if ltb a b then a else b

pub record RangeDecoder : Type 0 where
  pub buf : List ℕ
  pub storage : ℕ
  pub end_offs : ℕ
  pub end_window : ℕ
  pub nend_bits : ℕ
  pub nbits_total : ℕ
  pub offs : ℕ
  pub rng : ℕ
  pub val : ℕ
  pub ext : ℕ
  pub rem : ℕ
  pub err : ℕ

abbrev pub read_byte : RangeDecoder → ℕ × RangeDecoder
read_byte d =
    if ltb d.offs d.storage
    then (get_or d.buf d.offs 0, record d { offs = u32 (d.offs + 1) })
    else (0, d)

abbrev pub read_byte_from_end : RangeDecoder → ℕ × RangeDecoder
read_byte_from_end d =
    if ltb d.end_offs d.storage
    then (
      get_or d.buf (sub_u32 d.storage (u32 (d.end_offs + 1))) 0,
      record d { end_offs = u32 (d.end_offs + 1) },
    )
    else (0, d)

-- `(sym0<<8 | rem) >> 1`, complemented in its low byte.
abbrev pub next_code : ℕ → ℕ → ℕ
next_code sym0 b = 255 - bit_and 255 (bit_or (sym0 * 2 ^ 8) b / 2)

-- A round of the loop in normalize, with the byte read.
abbrev pub shift_in : RangeDecoder → ℕ → ℕ → RangeDecoder
shift_in d sym0 b = record d {
  nbits_total = u32 (d.nbits_total + 8);
  rng = u32 (d.rng * 2 ^ 8);
  rem = b;
  val = bit_and (u32 (u32 (d.val * 2 ^ 8) + next_code sym0 b)) (2 ^ 31 - 1);
}

abbrev pub normalize_round : RangeDecoder → RangeDecoder
normalize_round d = let (b, d') = read_byte d in shift_in d' d.rem b

unfoldable pub normalize_in : ℕ → RangeDecoder → Option RangeDecoder
normalize_in zero d = if leb d.rng code_bot then none else some d
normalize_in (suc n) d = elim (leb d.rng code_bot) [
  | true ↦ normalize_in n (normalize_round d)
  | false ↦ some d
]

unfoldable pub normalize : RangeDecoder → Option RangeDecoder
normalize d = normalize_in rounds d

abbrev pub start : List ℕ → RangeDecoder
start buf = record {
  buf = buf;
  storage = u32 (length buf);
  end_offs = 0;
  end_window = 0;
  nend_bits = 0;
  nbits_total = 9;
  offs = 0;
  rng = 2 ^ 7;
  val = 0;
  ext = 0;
  rem = 0;
  err = 0;
}

unfoldable pub new_range_decoder : List ℕ → Option RangeDecoder
new_range_decoder buf =
    let (b, d) = read_byte (start buf) in
    normalize (record d { rem = b; val = sub_u32 (d.rng - 1) (b / 2) })

-- What Decode and decodeBin do once `ext` is set.
abbrev pub frequency : RangeDecoder → ℕ → ℕ → ℕ × RangeDecoder
frequency d ft zero = (0, record d { ext = 1; err = 1 })
frequency d ft (suc e) =
    (sub_u32 ft (ec_mini (u32 (d.val / suc e + 1)) ft), record d { ext = suc e })

unfoldable pub decode : RangeDecoder → ℕ → ℕ × RangeDecoder
decode d ft = if ft == 0 then (0, record d { ext = 1; err = 1 }) else frequency d ft (d.rng / ft)

unfoldable pub decode_bin : RangeDecoder → ℕ → ℕ × RangeDecoder
decode_bin d bits = frequency d (u32 (2 ^ bits)) (d.rng / 2 ^ bits)

-- Update before normalize.
abbrev pub narrow : RangeDecoder → ℕ → ℕ → ℕ → RangeDecoder
narrow d fl fh ft =
    let s = u32 (d.ext * sub_u32 ft fh) in
    record d {
      val = sub_u32 d.val s;
      rng = if ltb 0 fl then u32 (d.ext * sub_u32 fh fl) else sub_u32 d.rng s;
    }

unfoldable pub update : RangeDecoder → ℕ → ℕ → ℕ → Option RangeDecoder
update d fl fh ft = normalize (narrow d fl fh ft)

unfoldable pub decode_raw_symbol : RangeDecoder → ℕ → Option (ℕ × RangeDecoder)
decode_raw_symbol d nbits =
    let (sym, d') = decode_bin d nbits in
    and_then (update d' sym (u32 (sym + 1)) (u32 (2 ^ nbits))) (λ d''. some (sym, d''))

abbrev pub split_bit : RangeDecoder → ℕ → ℕ × RangeDecoder
split_bit d s =
    if ltb d.val s
    then (1, record d { rng = s })
    else (0, record d { val = sub_u32 d.val s; rng = sub_u32 d.rng s })

unfoldable pub bit_logp : RangeDecoder → ℕ → Option (ℕ × RangeDecoder)
bit_logp d logp =
    let (ret, d') = split_bit d (d.rng / 2 ^ logp) in
    and_then (normalize d') (λ d''. some (ret, d''))

abbrev pub tell : RangeDecoder → ℕ
tell d = sub_u32 d.nbits_total (ilog d.rng)

abbrev pub bytes_consumed : RangeDecoder → ℕ
bytes_consumed d = d.offs + d.end_offs

abbrev pub body_len : RangeDecoder → ℕ
body_len d = d.storage

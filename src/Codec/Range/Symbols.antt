-- ===== src/Codec/Range/Symbols.antt =====
-- RangeDecoder: symbols of a table, raw bits and uniform integers.
use wa_calls.Base.{and_then}
use wa_calls.Base.{
  ℕ, zero, suc, ◌+◌, ◌-◌, ◌*◌, ◌/◌, ◌^◌, true, false, Option, none, some, List, [], ◌∷◌,
  if◌then◌else◌, ltb, leb, bit_and, bit_or,
}
use wa_calls.Bytes.{u32, sub_u32}
use wa_calls.Codec.Range.Decoder.{RangeDecoder, ilog, read_byte_from_end, normalize, decode, update}

-- The loop of DecodeICDF over the entries that are left, of which there is at least one: `t` and
-- `s` when it breaks, and the index.
abbrev pub icdf_search : (r dv t index entry : ℕ) → List ℕ → ℕ × ℕ × ℕ
icdf_search r dv t index entry [] = (t, u32 (r * entry), index)
icdf_search r dv t index entry (e ∷ es) =
    let rest = icdf_search r dv (u32 (r * entry)) (index + 1) e es in
    if leb (u32 (r * entry)) dv then (t, u32 (r * entry), index) else rest

unfoldable pub decode_icdf : RangeDecoder → List ℕ → ℕ → Option (ℕ × RangeDecoder)
decode_icdf d [] ftb = some (0, record d { err = 1 })
decode_icdf d (e ∷ es) ftb =
    let (t, s, index) = icdf_search (d.rng / 2 ^ ftb) d.val d.rng 0 e es in
    and_then (normalize (record d { val = sub_u32 d.val s; rng = sub_u32 t s }))
      (λ d'. some (index, d'))

-- The loop of DecodeCDF from the index of `low` on: the index where it breaks, and the two entries
-- there. `none` is the index past the table.
abbrev pub cdf_search : (target index low : ℕ) → List ℕ → Option (ℕ × ℕ × ℕ)
cdf_search target index low [] = none
cdf_search target index low (high ∷ es) =
    let rest = cdf_search target (index + 1) high es in
    if ltb target high then some (index, low, high) else rest

-- The last entry of `x ∷ xs`.
abbrev pub last_of : ℕ → List ℕ → ℕ
last_of x [] = x
last_of x (y ∷ ys) = last_of y ys

abbrev pub found_in : RangeDecoder → (base ft : ℕ) → ℕ × ℕ × ℕ → Option (ℕ × RangeDecoder)
found_in d base ft (index, low, high) =
    and_then (update d (sub_u32 low base) (sub_u32 high base) ft) (λ d'. some (index, d'))

abbrev pub cdf_symbol : RangeDecoder → (base ft : ℕ) → List ℕ → Option (ℕ × RangeDecoder)
cdf_symbol d base ft es =
    let (fs, d') = decode d ft in
    and_then (cdf_search (u32 (base + fs)) 0 base es) (found_in d' base ft)

unfoldable pub decode_cdf : RangeDecoder → List ℕ → Option (ℕ × RangeDecoder)
decode_cdf d [] = some (0, record d { err = 1 })
decode_cdf d (base ∷ []) = some (0, record d { err = 1 })
decode_cdf d (base ∷ e ∷ es) =
    let top = last_of e es in
    if leb top base
    then some (0, record d { err = 1 })
    else cdf_symbol d base (sub_u32 top base) (e ∷ es)

-- The loop of BitsN that fills the window: at most eight rounds end it, since eight times eight
-- is more than the window holds.
abbrev pub fill_rounds : ℕ
fill_rounds = 8

abbrev pub fill_round : RangeDecoder → RangeDecoder
fill_round d =
    let (b, d') = read_byte_from_end d in
    record d' {
      end_window = bit_or d.end_window (u32 (b * 2 ^ d.nend_bits));
      nend_bits = u32 (d.nend_bits + 8);
    }

unfoldable pub fill_window : ℕ → RangeDecoder → Option RangeDecoder
fill_window zero d = none
fill_window (suc n) d =
    let d' = fill_round d in
    elim (ltb 24 d'.nend_bits) [ true ↦ some d' | false ↦ fill_window n d' ]

abbrev pub take_bits : ℕ → RangeDecoder → ℕ × RangeDecoder
take_bits n d = (
  bit_and d.end_window (sub_u32 (u32 (2 ^ n)) 1),
  record d {
    end_window = d.end_window / 2 ^ n;
    nend_bits = sub_u32 d.nend_bits n;
    nbits_total = u32 (d.nbits_total + n);
  },
)

unfoldable pub bits_n : RangeDecoder → ℕ → Option (ℕ × RangeDecoder)
bits_n d n = elim (ltb d.nend_bits n) [
  | true ↦ and_then (fill_window fill_rounds d) (λ d'. some (take_bits n d'))
  | false ↦ some (take_bits n d)
]

abbrev pub uniform : RangeDecoder → ℕ → Option (ℕ × RangeDecoder)
uniform d ft =
    let (s, d') = decode d ft in and_then (update d' s (u32 (s + 1)) ft) (λ d''. some (s, d''))

-- The end of DecodeUint, where the value has more than eight bits.
abbrev pub checked : ℕ → ℕ × RangeDecoder → ℕ × RangeDecoder
checked ft (v, d) = if leb v ft then (v, d) else (ft, record d { err = 1 })

abbrev pub wide_uint : RangeDecoder → ℕ → ℕ → Option (ℕ × RangeDecoder)
wide_uint d ft ftb = and_then (uniform d (u32 (ft / 2 ^ ftb + 1))) (λ (s, d').
    and_then (bits_n d' ftb)
      (λ (low, d''). some (checked ft (bit_or (u32 (s * 2 ^ ftb)) low, d''))))

-- DecodeUint once `ft` is set.
abbrev pub uint_up_to : RangeDecoder → ℕ → Option (ℕ × RangeDecoder)
uint_up_to d ft = elim (ltb 8 (ilog ft)) [
  | true ↦ wide_uint d ft (ilog ft - 8)
  | false ↦ uniform d (u32 (ft + 1))
]

unfoldable pub decode_uint : RangeDecoder → ℕ → Option (ℕ × RangeDecoder)
decode_uint d ft0 = uint_up_to d (sub_u32 ft0 1)

abbrev pub fine_symbol : RangeDecoder → ℕ → Option (ℕ × RangeDecoder)
fine_symbol d zero = some (0, record d { ext = 1; err = 1 })
fine_symbol d (suc e) =
    let sym = 63 - d.val / suc e in
    and_then (update (record d { ext = suc e }) sym (sym + 1) 64) (λ d'. some (sym, d'))

unfoldable pub decode_64_fine_sym : RangeDecoder → Option (ℕ × RangeDecoder)
decode_64_fine_sym d = fine_symbol d (d.rng / 2 ^ 6)

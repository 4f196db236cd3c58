-- ===== src/Codec/Range/Table.antt =====
-- DecodeCDF and DecodeUint: the search in a table always stops inside it, and the symbol is valid.
use wa_calls.Base.{Gives, and_then-Gives}
use wa_calls.Base.{
  ℕ, suc, ◌+◌, ◌-◌, ◌≤◌, ◌<◌, ◌≡◌, some, arith, List, [], ◌∷◌, length, subst, sym, if◌then◌else◌,
  ltb, leb, false,
}
use native.Mathlib.Decide.{dec_lt}
use wa_calls.Bytes.{u32, sub_u32, sub_u32-exact, IsU16}
use wa_calls.Codec.Range.Decoder.{RangeDecoder, decode}
use wa_calls.Codec.Range.Symbols.{cdf_search, last_of, found_in, cdf_symbol, decode_cdf}
use wa_calls.Codec.Range.Normalize.{IsValid}
use wa_calls.Codec.Range.Invariant.{
  HasFrequency, IsSymbol, decode-HasFrequency, update-IsValid, and_then-IsSymbol,
}

-- The entries of a table do not decrease.
abbrev pub IsAscending : ℕ → List ℕ → Type 0
IsAscending x [] = Unit
IsAscending x (y ∷ ys) = (x ≤ y) × IsAscending y ys

last_of-le : (x : ℕ) (ys : List ℕ) → IsAscending x ys → x ≤ last_of x ys
last_of-le x [] h = omega arith
last_of-le x (y ∷ ys) h = omega (arith, h.0, last_of-le y ys h.1)

-- Where the search stops: between two neighbours, with the target between them.
record IsHit (first target top count : ℕ) (hit : ℕ × ℕ × ℕ) : Type 0 where
  index_below : hit.0 < count
  from : hit.1 ≤ target
  to : target < hit.2
  over : first ≤ hit.1
  under : hit.2 ≤ top

cdf_search-IsHit :
    (first target index low : ℕ) (es : List ℕ)
    → first ≤ low
    → low ≤ target
    → target < last_of low es
    → IsAscending low es
    → Gives
        (cdf_search target index low es)
        (IsHit first target (last_of low es) (index + length es))
cdf_search-IsHit first target index low [] f h t a = absurd (omega arith)
cdf_search-IsHit first target index low (e ∷ es) f h t a = elim (dec_lt target e) [
  | yes p ↦ ground (arith, last_of-le e es a.1)
  | no p ↦
      let off : ltb target e ≡ false = ground arith in
      let shift : index + suc (length es) ≡ index + 1 + length es = omega arith in
      rw (off, shift)
        (cdf_search-IsHit first target (index + 1) e es (omega arith) (omega arith) t a.1)
]

hit-IsSymbol :
    (d : RangeDecoder) (base ft fs count : ℕ) (hit : ℕ × ℕ × ℕ)
    → HasFrequency d ft fs
    → base + ft < 4294967296
    → IsHit base (base + fs) (base + ft) count hit
    → Gives (found_in d base ft hit) (IsSymbol count)
hit-IsSymbol d base ft fs count (index, low, high) f b h =
    rw
      (
        sub_u32-exact {a = low} {b = base} (omega arith) (omega arith),
        sub_u32-exact {a = high} {b = base} (omega arith) (omega arith),
      )
      (and_then-IsSymbol count index _ h.index_below (
        update-IsValid d (low - base) (high - base) ft fs f
          (record { from = omega arith; to = omega arith; total = omega arith })))

cdf_symbol-IsSymbol :
    (d : RangeDecoder) (base ft : ℕ) (es : List ℕ)
    → IsValid d
    → IsAscending base es
    → 0 < ft
    → base + ft ≡ last_of base es
    → IsU16 (last_of base es)
    → Gives (cdf_symbol d base ft es) (IsSymbol (length es))
cdf_symbol-IsSymbol d base ft es v a pos top small =
    let f = decode-HasFrequency d ft v pos (omega arith) in
    let fs = (decode d ft).0 in
    let exact : u32 (base + fs) ≡ base + fs = omega (arith, f.freq_below) in
    let from_zero : 0 + length es ≡ length es = omega arith in
    rw exact (
      and_then-Gives (IsHit base (base + fs) (base + ft) (length es)) (IsSymbol (length es)) _
        (found_in (decode d ft).1 base ft)
        (rw (top, ← from_zero)
          (cdf_search-IsHit base (base + fs) 0 base es (omega arith) (omega arith)
            (omega (arith, f.freq_below)) a))
        (λ hit. hit-IsSymbol (decode d ft).1 base ft fs (length es) hit f (omega arith)))

-- On a table of uint16 that does not decrease and whose ends differ, DecodeCDF never reads past the
-- table and returns: the index of a symbol of it, with the decoder valid.
pub decode_cdf-IsSymbol :
    (d : RangeDecoder) (base e : ℕ) (es : List ℕ)
    → IsValid d
    → IsAscending base (e ∷ es)
    → base < last_of e es
    → IsU16 (last_of e es)
    → Gives (decode_cdf d (base ∷ e ∷ es)) (IsSymbol (suc (length es)))
unfolding decode_cdf
decode_cdf-IsSymbol d base e es v a lt small =
    let more : leb (last_of e es) base ≡ false = ground arith in
    let total : sub_u32 (last_of e es) base ≡ last_of e es - base =
      sub_u32-exact {a = last_of e es} {b = base} (omega arith) (omega arith) in
    subst
      (λ b.
        Gives
          (if b
            then some (0, record d { err = 1 })
            else cdf_symbol d base (sub_u32 (last_of e es) base) (e ∷ es))
          (IsSymbol (suc (length es))))
      (sym more)
      (subst (λ ft. Gives (cdf_symbol d base ft (e ∷ es)) (IsSymbol (suc (length es)))) (sym total)
        (cdf_symbol-IsSymbol d base (last_of e es - base) (e ∷ es) v a (omega arith) (omega arith)
          small))

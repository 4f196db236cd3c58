-- ===== src/Codec/Red/Depack.antt =====
-- DepackSplitRed of red.go, without its logging. `p[cur:]` is a suffix of the packet, and a slice or an
-- index that Go would find out of range is `panics`.
use wa_calls.Base.{
  ℕ, zero, suc, ◌+◌, ◌-◌, Bool, true, false, List, [], ◌∷◌, ◌++◌, if◌then◌else◌, ltb, leb, ◌==◌,
  length, take, drop, bit_and,
}

pub record MlowFrame : Type 0 where
  pub body : List ℕ  -- `Data`
  pub time_code : ℕ
  pub is_main : Bool

pub data RedError : Type 0 where
  pkt_size_zero header_too_short redundant_too_short main_too_short : RedError

pub data RedResult {ℓ} (A : Type ℓ) : Type ℓ where
  ok : A → RedResult A
  err : RedError → RedResult A
  panics : RedResult A

-- redBlock
pub record RedBlock : Type 0 where
  pub code : ℕ
  pub size : ℕ

-- The loop over the headers: the blocks, `rem`, and the packet from the main marker on. Each round takes
-- two bytes, so the packet's length is enough fuel.
unfoldable pub read_headers :
    ℕ → ℕ → List ℕ → List RedBlock → RedResult (List RedBlock × ℕ × List ℕ)
read_headers zero rem d red = panics
read_headers (suc fuel) rem [] red = if rem == 0 then err header_too_short else panics
read_headers (suc fuel) rem (b0 ∷ []) red =
    if rem == 0
    then err header_too_short
    else if ltb b0 0x80
    then (if leb rem 1 then err main_too_short else ok (red, rem, b0 ∷ []))
    else if leb rem 2
    then err redundant_too_short
    else panics
read_headers (suc fuel) rem (b0 ∷ size ∷ d) red =
    let block : RedBlock = record { code = bit_and b0 0x7f; size = size } in
    let rest = read_headers fuel (rem - (size + 2)) d (red ++ block ∷ []) in
    if rem == 0
    then err header_too_short
    else if ltb b0 0x80
    then (if leb rem 1 then err main_too_short else ok (red, rem, b0 ∷ size ∷ d))
    else if leb rem 2
    then err redundant_too_short
    else if leb rem (size + 2)
    then err redundant_too_short
    else rest

-- The frames of the blocks and the main frame, `d` being what follows the main marker.
unfoldable pub cut_frames : List RedBlock → ℕ → ℕ → List ℕ → RedResult (List MlowFrame)
cut_frames [] main_code main_size d =
    if ltb (length d) main_size
    then panics
    else ok (record { body = take main_size d; time_code = main_code; is_main = true } ∷ [])
cut_frames (b ∷ red) main_code main_size d =
    let rest = cut_frames red main_code main_size (drop b.size d) in
    if ltb (length d) b.size then panics else elim rest [
      | ok frames ↦
          ok (record { body = take b.size d; time_code = b.code; is_main = false } ∷ frames)
      | err e ↦ err e
      | panics ↦ panics
    ]

abbrev pub frames_of : RedResult (List RedBlock × ℕ × List ℕ) → RedResult (List MlowFrame)
frames_of (ok (red, rem, [])) = panics
frames_of (ok (red, rem, marker ∷ d)) = cut_frames red (bit_and marker 0x7f) (rem - 1) d
frames_of (err e) = err e
frames_of panics = panics

unfoldable pub depack_split_red : List ℕ → RedResult (List MlowFrame)
depack_split_red [] = err pkt_size_zero
depack_split_red (x ∷ p) = frames_of (read_headers (length (x ∷ p)) (length (x ∷ p)) (x ∷ p) [])

-- ===== src/Codec/Red/Tiling.antt =====
-- The frames of an accepted SplitRed payload are the whole of it behind the headers.
use wa_calls.Base.{
  ℕ, zero, suc, ◌+◌, ◌-◌, ◌*◌, ◌≤◌, ◌<◌, ◌≡◌, ◌≢◌, inl, inr, refl, sym, ap, ◌∙◌, true, false, List,
  [], ◌∷◌, ◌++◌, append-nil, arith, Bool-cases, subst, ltb, leb, ◌==◌, length, take, drop,
  length-append, length-drop, take-append-drop, take_all, bit_and,
}
use wa_calls.Codec.Red.Depack.{
  MlowFrame, RedBlock, RedResult, ok, err, panics, read_headers, cut_frames, frames_of,
  depack_split_red,
}

-- The bytes of the frames, one after the other.
pub frame_bytes : List MlowFrame → List ℕ
frame_bytes [] = []
frame_bytes (f ∷ fs) = f.body ++ frame_bytes fs

abbrev sizes : List RedBlock → ℕ
sizes [] = 0
sizes (b ∷ red) = b.size + sizes red

sizes-append : (red more : List RedBlock) → sizes (red ++ more) ≡ sizes red + sizes more
sizes-append [] more = omega arith
sizes-append (b ∷ red) more = omega (arith, sizes-append red more)

-- A result of the frames of `d`, one more than there are blocks.
abbrev Cut : List RedBlock → List ℕ → RedResult (List MlowFrame) → Type 0
Cut red d (ok fs) = (frame_bytes fs ≡ d) × (length fs ≡ suc (length red))
Cut red d (err e) = ⊥
Cut red d panics = ⊥

cut_frames-Cut :
    (red : List RedBlock) (main_code main_size : ℕ) (d : List ℕ)
    → length d ≡ sizes red + main_size
    → Cut red d (cut_frames red main_code main_size d)
unfolding cut_frames frame_bytes
cut_frames-Cut [] main_code main_size d e =
    let room : ltb (length d) main_size ≡ false = ground arith in
    rw room (append-nil (take main_size d) ∙ take_all main_size d (omega arith), refl)
cut_frames-Cut (b ∷ red) main_code main_size d e =
    let room : ltb (length d) b.size ≡ false = ground arith in
    rw room (
      extended (cut_frames red main_code main_size (drop b.size d)) (
        cut_frames-Cut red main_code main_size (drop b.size d)
          (omega (arith, length-drop b.size d, e))))
  where
    extended :
        (r : RedResult (List MlowFrame))
        → Cut red (drop b.size d) r
        → Cut (b ∷ red) d (elim r [
          | ok frames ↦
              ok (record { body = take b.size d; time_code = b.code; is_main = false } ∷ frames)
          | err e ↦ err e
          | panics ↦ panics
        ])
    extended (err x) none_left = elim none_left [ ]
    extended panics none_left = elim none_left [ ]
    extended (ok fs) (same, count) = (rw same (take-append-drop b.size d), ap suc count)

drop-nil : (k : ℕ) → drop {A = ℕ} k [] ≡ []
drop-nil zero = refl
drop-nil (suc k) = refl

drop-drop : (m n : ℕ) (xs : List ℕ) → drop m (drop n xs) ≡ drop (m + n) xs
drop-drop m zero xs = let e : m + 0 ≡ m = omega arith in rw e refl
drop-drop m (suc n) [] = drop-nil m ∙ sym (drop-nil (m + suc n))
drop-drop m (suc n) (x ∷ xs) =
    let e : m + suc n ≡ suc (m + n) = omega arith in rw e (drop-drop m n xs)

-- What the headers leave of the packet `p`.
abbrev Left : List ℕ → RedResult (List RedBlock × ℕ × List ℕ) → Type 0
Left p (ok (red, rem, d)) = (length d ≡ rem + sizes red) × (2 ≤ rem) × (d ≡ drop (2 * length red) p)
Left p (err e) = Unit
Left p panics = ⊥

read_headers-Left :
    (p : List ℕ) (fuel rem : ℕ) (d : List ℕ) (red : List RedBlock)
    → length d ≡ rem + sizes red
    → length d < 2 * fuel
    → d ≡ drop (2 * length red) p
    → Left p (read_headers fuel rem d red)
unfolding read_headers
read_headers-Left p zero rem d red e enough at = absurd (omega arith)
read_headers-Left p (suc fuel) rem [] red e enough at =
    let none_left : (rem == 0) ≡ true = ground arith in rw none_left tt
read_headers-Left p (suc fuel) rem (b0 ∷ []) red e enough at = elim (Bool-cases (rem == 0)) [
  | inl empty ↦ rw empty tt
  | inr some_left ↦
      let short : leb rem 1 ≡ true = ground arith in
      let shorter : leb rem 2 ≡ true = ground arith in
      elim (Bool-cases (ltb b0 0x80)) [
        | inl main ↦ rw (some_left, main, short) tt
        | inr redundant ↦ rw (some_left, redundant, shorter) tt
      ]
]
read_headers-Left p (suc fuel) rem (b0 ∷ size ∷ d) red e enough at = elim (Bool-cases (rem == 0)) [
  | inl empty ↦ rw empty tt
  | inr some_left ↦ elim (Bool-cases (ltb b0 0x80)) [
    | inl main ↦ elim (Bool-cases (leb rem 1)) [
      | inl short ↦ rw (some_left, main, short) tt
      | inr long ↦ rw (some_left, main, long) (e, ground arith, at)
    ]
    | inr redundant ↦ elim (Bool-cases (leb rem 2)) [
      | inl short ↦ rw (some_left, redundant, short) tt
      | inr long ↦ elim (Bool-cases (leb rem (size + 2))) [
        | inl over ↦ rw (some_left, redundant, long, over) tt
        | inr fits ↦
            rw (some_left, redundant, long, fits)
              (read_headers-Left p fuel (rem - (size + 2)) d (red ++ block ∷ [])
                (ground (arith, sizes-append red (block ∷ []))) (omega arith) after)
      ]
    ]
  ]
]
  where
    block : RedBlock
    block = record { code = bit_and b0 0x7f; size = size }

    count : 2 * length (red ++ block ∷ []) ≡ 2 + 2 * length red
    count = omega (arith, length-append red (block ∷ []))

    after : d ≡ drop (2 * length (red ++ block ∷ [])) p
    after = rw count (ap (drop 2) at ∙ drop-drop 2 (2 * length red) p)

-- The bytes behind the headers, when the packet is accepted; a panic is excluded.
abbrev Tiles : List ℕ → RedResult (List MlowFrame) → Type 0
Tiles p (ok fs) = frame_bytes fs ≡ drop (2 * length fs - 1) p
Tiles p (err e) = Unit
Tiles p panics = ⊥

frames_of-Tiles :
    (p : List ℕ) (r : RedResult (List RedBlock × ℕ × List ℕ)) → Left p r → Tiles p (frames_of r)
frames_of-Tiles p (ok (red, rem, [])) (e, two, at) = absurd (omega arith)
frames_of-Tiles p (ok (red, rem, marker ∷ d)) (e, two, at) =
    tiled (cut_frames red (bit_and marker 0x7f) (rem - 1) d)
      (cut_frames-Cut red (bit_and marker 0x7f) (rem - 1) d (omega arith))
  where
    behind : d ≡ drop (1 + 2 * length red) p
    behind = ap (drop 1) at ∙ drop-drop 1 (2 * length red) p

    tiled : (r : RedResult (List MlowFrame)) → Cut red d r → Tiles p r
    tiled (ok fs) (same, count) =
        let k : 2 * length fs - 1 ≡ 1 + 2 * length red = omega (arith, count) in
        rw k (same ∙ behind)
    tiled (err x) none_left = elim none_left [ ]
    tiled panics none_left = elim none_left [ ]
frames_of-Tiles p (err x) left = tt
frames_of-Tiles p panics left = elim left [ ]

depack_split_red-Tiles : (p : List ℕ) → Tiles p (depack_split_red p)
unfolding depack_split_red
depack_split_red-Tiles [] = tt
depack_split_red-Tiles (x ∷ p) =
    frames_of-Tiles (x ∷ p) (read_headers (length (x ∷ p)) (length (x ∷ p)) (x ∷ p) []) (
      read_headers-Left (x ∷ p) (length (x ∷ p)) (length (x ∷ p)) (x ∷ p) [] (omega arith)
        (omega arith) refl)

-- DepackSplitRed reads and slices within the packet, whatever its bytes: it never panics.
pub depack_split_red_safe : (p : List ℕ) → depack_split_red p ≢ panics
depack_split_red_safe p e = subst (Tiles p) e (depack_split_red-Tiles p)

-- The frames of an accepted packet, in order, are all of the packet behind the headers, which are two
-- bytes for each redundant frame and one for the main frame: none is lost, doubled or overlaps.
pub depack_split_red_tiles :
    (p : List ℕ) (fs : List MlowFrame)
    → depack_split_red p ≡ ok fs
    → frame_bytes fs ≡ drop (2 * length fs - 1) p
depack_split_red_tiles p fs e = subst (Tiles p) e (depack_split_red-Tiles p)

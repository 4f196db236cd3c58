-- ===== src/Media/H264/Split.antt =====
-- AnnexBNALUs on a stream that was put together from NAL units, and what becomes of it.
use wa_calls.Base.{
  Bool, true, ◌==◌, ℕ, zero, suc, ◌+◌, ◌-◌, ◌≤◌, ◌<◌, ◌≡◌, refl, sym, ap, ◌∙◌, false, none, some,
  List, [], ◌∷◌, ◌++◌, append_assoc, append-nil, arith, leb, length, length-append, All,
}
use wa_calls.Media.H264.Annexb.{start_code, first_start, append_non_empty, split_nals, annexb_nalus}
use wa_calls.Media.H264.Packetize.{packetize_h264}
use wa_calls.Media.H264.Depacketize.{new_depacketizer}
use wa_calls.Media.H264.RoundTrip.{IsNal}
use wa_calls.Media.H264.Unit.{annexb, deliver, has_key_nal, deliver-packetize_nals}

-- No start code begins inside the unit.
unfoldable pub IsClean : List ℕ → Type 0
IsClean [] = Unit
IsClean (x ∷ r) = (start_code (x ∷ r) ≡ none) × IsClean r

-- A NAL unit and whether the start code before it has four bytes, or three.
abbrev pub Coded : Type 0
Coded = Bool × List ℕ

unfoldable pub coded_stream : List Coded → List ℕ
coded_stream [] = []
coded_stream ((true, nal) ∷ us) = 0 ∷ 0 ∷ 0 ∷ 1 ∷ nal ++ coded_stream us
coded_stream ((false, nal) ∷ us) = 0 ∷ 0 ∷ 1 ∷ nal ++ coded_stream us

abbrev pub nals_of : List Coded → List (List ℕ)
nals_of [] = []
nals_of ((long, nal) ∷ us) = nal ∷ nals_of us

abbrev pub ends_in_zero : List ℕ → Bool
ends_in_zero [] = false
ends_in_zero (x ∷ []) = x == 0
ends_in_zero (x ∷ y ∷ r) = ends_in_zero (y ∷ r)

-- A zero before a start code of three bytes would be taken for its first byte.
abbrev pub IsClosed : List ℕ → List Coded → Type 0
IsClosed nal ((false, next) ∷ us) = ends_in_zero nal ≡ false
IsClosed nal _ = Unit

tail-IsClosed : (x : ℕ) (r : List ℕ) (us : List Coded) → IsClosed (x ∷ r) us → IsClosed r us
tail-IsClosed x r [] h = tt
tail-IsClosed x r ((true, nal) ∷ us) h = tt
tail-IsClosed x [] ((false, nal) ∷ us) h = refl
tail-IsClosed x (y ∷ r) ((false, nal) ∷ us) h = h

-- What follows the unit on the stream does not make a start code in it.
start_code-append :
    (x : ℕ) (r : List ℕ) (us : List Coded)
    → start_code (x ∷ r) ≡ none
    → IsClosed (x ∷ r) us
    → start_code (x ∷ r ++ coded_stream us) ≡ none
unfolding start_code coded_stream
start_code-append x [] [] e h = refl
start_code-append x (b ∷ []) [] e h = refl
start_code-append x (b ∷ c ∷ []) [] e h = e
start_code-append x (b ∷ c ∷ d ∷ r) [] e h = rw append-nil e
start_code-append x [] ((true, nal) ∷ us) e h = ground arith
start_code-append x (b ∷ []) ((true, nal) ∷ us) e h = ground arith
start_code-append x (b ∷ c ∷ []) ((true, nal) ∷ us) e h = ground arith
start_code-append x (b ∷ c ∷ d ∷ r) ((true, nal) ∷ us) e h = ground arith
start_code-append x [] ((false, nal) ∷ us) e h = ground arith
start_code-append x (b ∷ []) ((false, nal) ∷ us) e h = ground arith
start_code-append x (b ∷ c ∷ []) ((false, nal) ∷ us) e h = ground arith
start_code-append x (b ∷ c ∷ d ∷ r) ((false, nal) ∷ us) e h = ground arith

append_non_empty-cons :
    (done : List (List ℕ)) (x : ℕ) (r : List ℕ)
    → append_non_empty done (x ∷ r) ≡ done ++ (x ∷ r) ∷ []
unfolding append_non_empty
append_non_empty-cons done x r = refl

split_nals-on :
    (fuel : ℕ) (done : List (List ℕ)) (cur : List ℕ) (x : ℕ) (r : List ℕ)
    → start_code (x ∷ r) ≡ none
    → split_nals (suc fuel) done cur (x ∷ r) ≡ split_nals fuel done (cur ++ x ∷ []) r
unfolding split_nals
split_nals-on fuel done cur x r e = rw (e, split_nals) refl

-- The rest of the current unit is read to its end.
read_unit :
    (fuel : ℕ) (done : List (List ℕ)) (cur r : List ℕ) (us : List Coded)
    → IsClean r
    → IsClosed r us
    → split_nals (length r + fuel) done cur (r ++ coded_stream us)
      ≡ split_nals fuel done (cur ++ r) (coded_stream us)
unfolding IsClean
read_unit fuel done cur [] us clean closed =
    let e : 0 + fuel ≡ fuel = omega arith in
    rw append-nil (ap (λ n. split_nals n done cur (coded_stream us)) e)
read_unit fuel done cur (x ∷ r) us (here, clean) closed =
    let e : length (x ∷ r) + fuel ≡ suc (length r + fuel) = omega arith in
    ap (λ n. split_nals n done cur (x ∷ r ++ coded_stream us)) e
    ∙ split_nals-on (length r + fuel) done cur x (r ++ coded_stream us)
        (start_code-append x r us here closed)
    ∙ read_unit fuel done (cur ++ x ∷ []) r us clean (tail-IsClosed x r us closed)
    ∙ rw append_assoc refl

unfoldable pub IsUnit : List ℕ → Type 0
IsUnit nal = (0 < length nal) × IsClean nal

-- Units that are not empty and have no start code in them, each apart from the start code behind it.
unfoldable pub IsStream : List Coded → Type 0
IsStream [] = Unit
IsStream ((long, nal) ∷ us) = IsUnit nal × IsClosed nal us × IsStream us

split_nals-nil :
    (fuel : ℕ) (done : List (List ℕ)) (cur : List ℕ)
    → split_nals fuel done cur [] ≡ append_non_empty done (cur ++ [])
unfolding split_nals
split_nals-nil zero done cur = refl
split_nals-nil (suc fuel) done cur = refl

split_nals-code :
    (fuel : ℕ) (done : List (List ℕ)) (cur r : List ℕ)
    → (split_nals (suc fuel) done cur (0 ∷ 0 ∷ 0 ∷ 1 ∷ r)
        ≡ split_nals fuel (append_non_empty done cur) [] r)
      × (split_nals (suc fuel) done cur (0 ∷ 0 ∷ 1 ∷ r)
          ≡ split_nals fuel (append_non_empty done cur) [] r)
unfolding split_nals start_code
split_nals-code fuel done cur r = (refl, refl)

read_unit_within :
    (fuel : ℕ) (done : List (List ℕ)) (r : List ℕ) (us : List Coded)
    → IsClean r
    → IsClosed r us
    → length r ≤ fuel
    → split_nals fuel done [] (r ++ coded_stream us)
      ≡ split_nals (fuel - length r) done r (coded_stream us)
read_unit_within fuel done r us clean closed enough =
    let e : length r + (fuel - length r) ≡ fuel = omega arith in
    ap (λ n. split_nals n done [] (r ++ coded_stream us)) (sym e)
    ∙ read_unit (fuel - length r) done [] r us clean closed

-- The current unit, and the next one up to its end.
next_unit :
    (fuel : ℕ) (done : List (List ℕ)) (x : ℕ) (r : List ℕ) (long : Bool) (nal : List ℕ)
    (us : List Coded)
    → IsClean nal
    → IsClosed nal us
    → length nal ≤ fuel
    → split_nals (suc fuel) done (x ∷ r) (coded_stream ((long, nal) ∷ us))
      ≡ split_nals (fuel - length nal) (done ++ (x ∷ r) ∷ []) nal (coded_stream us)
unfolding coded_stream
next_unit fuel done x r true nal us clean closed enough =
    rw ((split_nals-code fuel done (x ∷ r) (nal ++ coded_stream us)).0, append_non_empty-cons)
      (read_unit_within fuel (done ++ (x ∷ r) ∷ []) nal us clean closed enough)
next_unit fuel done x r false nal us clean closed enough =
    rw ((split_nals-code fuel done (x ∷ r) (nal ++ coded_stream us)).1, append_non_empty-cons)
      (read_unit_within fuel (done ++ (x ∷ r) ∷ []) nal us clean closed enough)

length-coded_stream :
    (long : Bool) (nal : List ℕ) (us : List Coded)
    → 3 + length nal + length (coded_stream us) ≤ length (coded_stream ((long, nal) ∷ us))
unfolding coded_stream
length-coded_stream true nal us = ground (arith, length-append nal (coded_stream us))
length-coded_stream false nal us = ground (arith, length-append nal (coded_stream us))

read_units :
    (fuel : ℕ) (done : List (List ℕ)) (x : ℕ) (r : List ℕ) (us : List Coded)
    → IsStream us
    → length (coded_stream us) ≤ fuel
    → split_nals fuel done (x ∷ r) (coded_stream us) ≡ done ++ (x ∷ r) ∷ nals_of us
unfolding IsStream IsUnit coded_stream
read_units fuel done x r [] units enough =
    rw (split_nals-nil, append-nil) (append_non_empty-cons done x r)
read_units fuel done x r ((long, []) ∷ us) ((some_byte, clean), closed, rest) enough =
    absurd (omega arith)
read_units zero done x r ((long, y ∷ s) ∷ us) units enough =
    absurd (omega (arith, length-coded_stream long (y ∷ s) us))
read_units (suc fuel) done x r ((long, y ∷ s) ∷ us) ((some_byte, clean), closed, units) enough =
    let size = length-coded_stream long (y ∷ s) us in
    next_unit fuel done x r long (y ∷ s) us clean closed (omega (arith, size, enough))
    ∙ read_units (fuel - length (y ∷ s)) (done ++ (x ∷ r) ∷ []) y s us units
        (omega (arith, size, enough))
    ∙ append_assoc done ((x ∷ r) ∷ []) ((y ∷ s) ∷ nals_of us)

first_unit :
    (y : ℕ) (s : List ℕ) (us : List Coded)
    → IsClean (y ∷ s)
    → IsClosed (y ∷ s) us
    → IsStream us
    → split_nals (length ((y ∷ s) ++ coded_stream us)) [] [] ((y ∷ s) ++ coded_stream us)
      ≡ (y ∷ s) ∷ nals_of us
first_unit y s us clean closed units =
    let size = length-append (y ∷ s) (coded_stream us) in
    read_unit_within (length ((y ∷ s) ++ coded_stream us)) [] (y ∷ s) us clean closed (ground arith)
    ∙ read_units (length ((y ∷ s) ++ coded_stream us) - length (y ∷ s)) [] y s us units
        (ground arith)

length-nals_of : (us : List Coded) → 0 < length us → 0 < length (nals_of us)
length-nals_of [] h = absurd (omega arith)
length-nals_of ((long, nal) ∷ us) h = omega arith

-- AnnexBNALUs gives back the NAL units of such a stream.
annexb_nalus-coded_stream :
    (us : List Coded) → IsStream us → annexb_nalus (coded_stream us) ≡ nals_of us
unfolding coded_stream annexb_nalus first_start start_code IsStream IsUnit
annexb_nalus-coded_stream [] units = refl
annexb_nalus-coded_stream ((long, []) ∷ us) ((some_byte, clean), closed, rest) =
    absurd (omega arith)
annexb_nalus-coded_stream ((true, y ∷ s) ∷ us) ((some_byte, clean), closed, units) =
    first_unit y s us clean closed units
annexb_nalus-coded_stream ((false, y ∷ s) ∷ us) ((some_byte, clean), closed, units) =
    first_unit y s us clean closed units

-- An access unit of NAL units of types from 1 to 23 with no start code in them, each behind a start code of
-- three bytes or four, where none that ends in a zero is before one of three: it goes through
-- PacketizeH264 and, with the marker bit on the last packet, through H264Depacketizer, and arrives as the
-- same NAL units, byte for byte, each behind a start code of four bytes, with the keyframe flag set just
-- when it has an IDR slice, an SPS or a PPS, and leaves the depacketizer fresh; this at every payload limit
-- of 3 bytes or more.
pub deliver-packetize_h264 :
    (m : ℕ) (us : List Coded)
    → 3 ≤ m
    → All IsNal (nals_of us)
    → IsStream us
    → 0 < length us
    → deliver new_depacketizer (packetize_h264 (coded_stream us) m)
      ≡ (new_depacketizer, some (annexb (nals_of us), has_key_nal (nals_of us)))
unfolding packetize_h264
deliver-packetize_h264 m us large all units some_nal =
    let above : leb m 2 ≡ false = ground arith in
    rw (annexb_nalus-coded_stream us units, above)
      (deliver-packetize_nals m (nals_of us) large all (length-nals_of us some_nal))

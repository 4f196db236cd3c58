-- ===== src/Media/H264/Unit.antt =====
-- An access unit on its way through PacketizeH264 and H264Depacketizer.
use wa_calls.Base.{
  ℕ, suc, ◌-◌, ◌≤◌, ◌<◌, ◌≡◌, refl, ap, ◌∙◌, inl, inr, Bool, true, false, ◌||◌, Option, none, some,
  List, [], ◌∷◌, ◌++◌, append_assoc, append-nil, arith, leb, length, Bool-cases, bit_and, All,
}
use wa_calls.Media.H264.Packetize.{packetize_nal, packetize_nals, fragments}
use wa_calls.Media.H264.Depacketize.{
  Depacketizer, new_depacketizer, append_nal, take_payload, push, flush, is_key_type,
}
use wa_calls.Media.H264.RoundTrip.{
  one_round, take_payloads_nil, take_payloads, IsNal, packetize_nal-take_payloads,
}

-- The packets of one access unit, the marker bit on the last.
pub deliver : Depacketizer → List (List ℕ) → Depacketizer × Option (List ℕ × Bool)
deliver d [] = (d, none)
deliver d (p ∷ []) = push d p true
deliver d (p ∷ q ∷ ps) = deliver (push d p false).0 (q ∷ ps)

-- Annex B with the four-byte start code.
unfoldable pub annexb : List (List ℕ) → List ℕ
annexb [] = []
annexb (nal ∷ nals) = 0 ∷ 0 ∷ 0 ∷ 1 ∷ nal ++ annexb nals

unfoldable pub has_key_nal : List (List ℕ) → Bool
has_key_nal [] = false
has_key_nal ([] ∷ nals) = has_key_nal nals
has_key_nal ((h ∷ body) ∷ nals) = is_key_type (bit_and h 0x1F) || has_key_nal nals

take_payloads-append :
    (d : Depacketizer) (ps qs : List (List ℕ))
    → take_payloads d (ps ++ qs) ≡ take_payloads (take_payloads d ps) qs
unfolding take_payloads
take_payloads-append d [] qs = refl
take_payloads-append d (p ∷ ps) qs = take_payloads-append (take_payload d p) ps qs

-- A depacketizer with no fragment in flight.
abbrev collecting : List ℕ → Bool → Depacketizer
collecting au key = record { fu = []; fu_hdr = false; au = au; has_key = key }

or_swap : (a b c : Bool) → b || (a || c) ≡ (a || b) || c
or_swap true true c = refl
or_swap true false c = refl
or_swap false b c = refl

or_false : (a : Bool) → a || false ≡ a
or_false true = refl
or_false false = refl

append_nal-collecting :
    (au : List ℕ) (key : Bool) (h : ℕ) (body : List ℕ)
    → append_nal (collecting au key) (h ∷ body)
      ≡ collecting (au ++ 0 ∷ 0 ∷ 0 ∷ 1 ∷ h ∷ body) (is_key_type (bit_and h 0x1F) || key)
unfolding append_nal
append_nal-collecting au key h body = refl

packetize_nals-take_payloads :
    (m : ℕ) (nals : List (List ℕ)) (au : List ℕ) (key : Bool)
    → 3 ≤ m
    → All IsNal nals
    → take_payloads (collecting au key) (packetize_nals m nals)
      ≡ collecting (au ++ annexb nals) (has_key_nal nals || key)
unfolding packetize_nals annexb has_key_nal IsNal
packetize_nals-take_payloads m [] au key large all =
    take_payloads_nil (collecting au key) ∙ rw append-nil refl
packetize_nals-take_payloads m ([] ∷ nals) au key large (none_fits, all) = elim none_fits [ ]
packetize_nals-take_payloads m ((h ∷ body) ∷ nals) au key large (ok, all) =
    take_payloads-append (collecting au key) (packetize_nal m (h ∷ body)) (packetize_nals m nals)
    ∙ rw
        (
          packetize_nal-take_payloads (collecting au key) m (h ∷ body) large ok,
          append_nal-collecting,
          packetize_nals-take_payloads m nals (au ++ 0 ∷ 0 ∷ 0 ∷ 1 ∷ h ∷ body)
              (is_key_type (bit_and h 0x1F) || key) large all,
          append_assoc,
          or_swap,
        )
        refl

deliver_lem :
    (d : Depacketizer) (p : List ℕ) (ps : List (List ℕ))
    → deliver d (p ∷ ps) ≡ flush (take_payloads d (p ∷ ps)) true
unfolding deliver take_payloads push flush
deliver_lem d p [] = refl
deliver_lem d p (q ∷ ps) = deliver_lem (take_payload d p) q ps

packetize_nal-cons :
    (m : ℕ) (h : ℕ) (body : List ℕ)
    → 3 ≤ m
    → (p : List ℕ) × (ps : List (List ℕ)) × (packetize_nal m (h ∷ body) ≡ p ∷ ps)
unfolding packetize_nal
packetize_nal-cons m h [] large = (h ∷ [], [], ground arith)
packetize_nal-cons m h (x ∷ r) large = elim (Bool-cases (leb (length (h ∷ x ∷ r)) m)) [
  | inl fits ↦ (h ∷ x ∷ r, [], rw fits refl)
  | inr long ↦
      let e : packetize_nal m (h ∷ x ∷ r) ≡ fragments (suc (length r)) (m - 2) h true (x ∷ r) =
        rw long refl in
      (_, _, e ∙ one_round (length r) (m - 2) h x true r)
]

flush-some :
    (au : List ℕ) (key : Bool)
    → 0 < length au
    → flush (collecting au key) true ≡ (new_depacketizer, some (au, key))
unfolding flush
flush-some au key some_bytes = ground arith

-- The packets of an access unit of NAL units, sent in order with the marker bit on the last to a
-- fresh depacketizer, give that access unit back in Annex B form, with the keyframe flag set just
-- when one of the units is an IDR slice, an SPS or a PPS, and leave the depacketizer fresh.
pub deliver-packetize_nals :
    (m : ℕ) (nals : List (List ℕ))
    → 3 ≤ m
    → All IsNal nals
    → 0 < length nals
    → deliver new_depacketizer (packetize_nals m nals)
      ≡ (new_depacketizer, some (annexb nals, has_key_nal nals))
unfolding IsNal packetize_nals annexb
deliver-packetize_nals m [] large all some_nal = absurd (omega arith)
deliver-packetize_nals m ([] ∷ nals) large (none_fits, all) some_nal = elim none_fits [ ]
deliver-packetize_nals m ((h ∷ body) ∷ nals) large all some_nal =
    let (p, ps, e) = packetize_nal-cons m h body large in
    let flushed : deliver new_depacketizer (packetize_nal m (h ∷ body) ++ packetize_nals m nals)
        ≡ flush
            (take_payloads new_depacketizer (packetize_nal m (h ∷ body) ++ packetize_nals m nals))
            true =
      rw e (deliver_lem new_depacketizer p (ps ++ packetize_nals m nals)) in
    flushed
    ∙ ap (λ d. flush d true) (packetize_nals-take_payloads m ((h ∷ body) ∷ nals) [] false large all)
    ∙ rw or_false
        (flush-some (annexb ((h ∷ body) ∷ nals)) (has_key_nal ((h ∷ body) ∷ nals)) (ground arith))

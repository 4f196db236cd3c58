-- ===== src/Media/H264/Fields.antt =====
-- The two header bytes of a fragment, on every NAL header.
use wa_calls.Base.{ℕ, ◌<◌, ◌≡◌, refl, Bool, true, false, not, ◌&&◌, ◌==◌, bit_and, bit_or, arith}
use wa_calls.Base.Bits.{all_below, all_below_lem}
use wa_calls.Media.H264.Packetize.{fu_header, fu_indicator}

abbrev same : Bool → Bool → Bool
same true b = b
same false b = not b

abbrev fields_hold : Bool → Bool → ℕ → Bool
fields_hold s e h =
    same (bit_and (fu_header h s e) 0x80 == 0) (not s)
    && (same (bit_and (fu_header h s e) 0x40 == 0) (not e)
        && (bit_or (bit_and (fu_indicator h) 0xE0) (bit_and (fu_header h s e) 0x1F) == h
            && bit_and (fu_indicator h) 0x1F == 28))

fields_table : (s e : Bool) → all_below 256 (fields_hold s e) ≡ true
unfolding all_below fu_header fu_indicator
fields_table true true = refl
fields_table true false = refl
fields_table false true = refl
fields_table false false = refl

-- A depacketizer reads the start and end bits back, rebuilds the NAL header, and sees type 28.
pub fragment_fields :
    (h : ℕ) (s e : Bool)
    → h < 256
    → ((bit_and (fu_header h s e) 0x80 == 0) ≡ not s)
      × ((bit_and (fu_header h s e) 0x40 == 0) ≡ not e)
      × (bit_or (bit_and (fu_indicator h) 0xE0) (bit_and (fu_header h s e) 0x1F) ≡ h)
      × (bit_and (fu_indicator h) 0x1F ≡ 28)
fragment_fields h s e lt = ground (arith, all_below_lem 256 (fields_hold s e) h (fields_table s e))

-- ===== src/Codec/Toc.antt =====
-- internal/voip/codec/mlow/toc.go: the first byte of a frame of MLow, or of standard Opus.
use wa_calls.Base.{
  ℕ, ◌+◌, ◌-◌, ◌*◌, ◌/◌, ◌≤◌, ◌≡◌, ◌↔◌, refl, Bool, true, false, ◌&&◌, ◌||◌, not, [], ◌∷◌,
  if◌then◌else◌, ltb, leb, ◌==◌, bit_and, arith, get_or,
}
use wa_calls.Base.Bits.{all_below, all_below_lem}
use wa_calls.Bytes.{IsByte}

pub record SmplToc : Type 0 where
  pub std_opus : Bool
  pub sid : Bool
  pub vad : Bool
  pub sample_rate : ℕ
  pub frame_ms : ℕ
  pub voiced : Bool
  pub active : Bool
  pub flag2 : Bool
  pub flag0 : Bool

abbrev pub config_ms : ℕ → ℕ
config_ms c = if c == 0 then 3 else if c == 1 then 5 else if c == 2 then 10 else 20

unfoldable pub standard_opus_frame_ms : ℕ → ℕ
standard_opus_frame_ms b =
    let config = b / 8 in
    if ltb config 12
    then get_or (10 ∷ 20 ∷ 40 ∷ 60 ∷ []) (bit_and config 3) 0
    else if ltb config 16
    then get_or (10 ∷ 20 ∷ []) (bit_and (config - 12) 1) 0
    else config_ms (bit_and config 3)

abbrev pub is_standard_opus_frame : ℕ → Bool
is_standard_opus_frame b = bit_and b 0xC0 == 0xC0

abbrev pub has_bit : ℕ → ℕ → Bool
has_bit b weight = not (bit_and (b / weight) 1 == 0)

-- ParseSmplTOC, less its logging.
unfoldable pub parse_smpl_toc : ℕ → SmplToc
parse_smpl_toc b =
    let bit1 = has_bit b 2 in
    let vad = has_bit b 64 in
    if is_standard_opus_frame b
    then record {
      std_opus = true;
      sid = false;
      vad = false;
      sample_rate = 16000;
      frame_ms = standard_opus_frame_ms b;
      voiced = false;
      active = false;
      flag2 = false;
      flag0 = false;
    }
    else record {
      std_opus = false;
      sid = not (b / 128 == 0);
      vad = vad;
      sample_rate = if bit_and b 0x20 == 0 then 16000 else 32000;
      frame_ms = get_or (10 ∷ 20 ∷ 60 ∷ 120 ∷ []) (bit_and (b / 8) 3) 0;
      voiced = vad && bit1;
      active = vad || bit1;
      flag2 = has_bit b 4;
      flag0 = has_bit b 1;
    }

weight : Bool → ℕ → ℕ
weight true w = w
weight false w = 0

-- The position of a duration in the table of frames.
ms_code : ℕ → ℕ
ms_code ms = if ms == 10 then 0 else if ms == 20 then 1 else if ms == 60 then 2 else 3

-- The bit of the byte that the table does not hold itself: `active` is it or `vad`.
second_bit : SmplToc → Bool
second_bit t = if t.vad then t.voiced else t.active

-- The byte toc_byte again from what the table says of it.
pub toc_byte : SmplToc → ℕ
unfolding weight ms_code second_bit
toc_byte t =
    weight t.sid 128
    + weight t.vad 64
    + weight (t.sample_rate == 32000) 32
    + ms_code t.frame_ms * 8
    + weight t.flag2 4
    + weight (second_bit t) 2
    + weight t.flag0 1

checks : ℕ → Bool
unfolding parse_smpl_toc standard_opus_frame_ms toc_byte weight ms_code second_bit
checks b =
    let t = parse_smpl_toc b in
    if t.std_opus
    then leb 192 b && leb 3 t.frame_ms && leb t.frame_ms 60
    else ltb b 192 && (toc_byte t == b)

all_bytes_check : all_below 256 checks ≡ true
unfolding checks parse_smpl_toc standard_opus_frame_ms all_below toc_byte weight ms_code second_bit
all_bytes_check = refl

byte_checks : (b : ℕ) → IsByte b → checks b ≡ true
byte_checks b h = all_below_lem 256 checks b all_bytes_check h

-- ParseSmplTOC takes the bytes from 192 on, and no others, for standard Opus, with a duration from 3
-- to 60 ms; of any other byte it keeps every bit, since the table gives the byte back.
pub parse_smpl_toc-toc_byte :
    (b : ℕ)
    → IsByte b
    → let t = parse_smpl_toc b in
      ((t.std_opus ≡ true) ↔ (192 ≤ b))
      × (t.std_opus ≡ true → (3 ≤ t.frame_ms) × (t.frame_ms ≤ 60))
      × (t.std_opus ≡ false → toc_byte t ≡ b)
unfolding checks
parse_smpl_toc-toc_byte b h = ground (arith, byte_checks b h)

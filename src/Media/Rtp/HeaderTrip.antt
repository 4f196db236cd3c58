-- ===== src/Media/Rtp/HeaderTrip.antt =====
-- DecodeRtpHeader reads back what Encode wrote.
use wa_calls.Base.{
  ℕ, ◌+◌, ◌*◌, ◌/◌, ◌%◌, ◌^◌, ◌≤◌, ◌<◌, ◌≡◌, refl, ◌∙◌, Bool, true, false, List, [], ◌∷◌, ◌++◌,
  append_assoc, arith, length, drop, if◌then◌else◌, ltb, bit_and, bit_or, All, length-append,
  take_front, take_all, Bool-cases, inl, inr,
}
use wa_calls.Base.Bits.{bit_or_fields, bit_and_mask}
use wa_calls.Bytes.{put_u16, put_u32, get_u16, u16, IsU16, IsU32, get-put_u32}
use wa_calls.Media.Rtp.Header.{
  ok, err, buffer_too_small, RtpHeader, size, bool_bit, first_byte, second_byte, csrc_bytes,
  extension_head, extension_body, fixed_bytes, encode, decode_csrc, decode_extension, decode_fields,
  flag, decode_rtp_header,
}

-- A header that RFC 3550 can carry: what the fields' widths and Encode take for granted.
pub record IsWellFormed (h : RtpHeader) : Type 0 where
  pub version_two : h.version ≡ 2
  pub counted : h.csrc_count ≡ length h.csrc
  pub few : length h.csrc ≤ 15
  pub type_fits : h.payload_type < 128
  pub sequence_fits : IsU16 h.sequence_number
  pub timestamp_fits : IsU32 h.timestamp
  pub ssrc_fits : IsU32 h.ssrc
  pub csrc_fit : All IsU32 h.csrc
  pub profile_fits : IsU16 h.extension_profile
  pub data_words : length h.extension_data % 4 ≡ 0
  pub data_fits : length h.extension_data < 262144
  pub no_profile : h.extension ≡ false → h.extension_profile ≡ 0
  pub no_data : h.extension ≡ false → h.extension_data ≡ []

low_mask_lem :
    (b : ℕ)
    → (bit_and b 0x0f ≡ b % 16)
      × (bit_and b 0x7f ≡ b % 128)
      × (bit_and b 3 ≡ b % 4)
      × (bit_and b 1 ≡ b % 2)
low_mask_lem b = (bit_and_mask 4 b, bit_and_mask 7 b, bit_and_mask 2 b, bit_and_mask 1 b)

pub bool_bit-le : (b : Bool) → bool_bit b ≤ 1
bool_bit-le true = omega arith
bool_bit-le false = omega arith

-- Four fields of a byte, joined from the top.
join_fields :
    (v p x c : ℕ)
    → p < 2
    → x < 2
    → c < 16
    → bit_or (bit_or (bit_or (v * 2 ^ 6) (p * 2 ^ 5)) (x * 2 ^ 4)) c
      ≡ ((v * 2 + p) * 2 + x) * 16 + c
join_fields v p x c hp hx hc = rw (two, three) (bit_or_fields 4 ((v * 2 + p) * 2 + x) c hc)
  where
    two : bit_or (v * 2 ^ 6) (p * 2 ^ 5) ≡ (v * 2 + p) * 2 ^ 5
    two = bit_or_fields 6 v (p * 2 ^ 5) (omega arith) ∙ omega arith

    three : bit_or ((v * 2 + p) * 2 ^ 5) (x * 2 ^ 4) ≡ ((v * 2 + p) * 2 + x) * 2 ^ 4
    three = bit_or_fields 5 (v * 2 + p) (x * 2 ^ 4) (omega arith) ∙ omega arith

pub first_byte_lem :
    (h : RtpHeader)
    → IsWellFormed h
    → first_byte h ≡ ((2 * 2 + bool_bit h.padding) * 2 + bool_bit h.extension) * 16 + length h.csrc
unfolding first_byte
first_byte_lem h w =
    rw (version, count)
      (join_fields 2 (bool_bit h.padding) (bool_bit h.extension) (length h.csrc)
        (omega (arith, bool_bit-le h.padding)) (omega (arith, bool_bit-le h.extension))
        (omega (arith, w)))
  where
    version : bit_and h.version 3 ≡ 2
    version = omega (arith, low_mask_lem h.version, w)

    count : bit_and h.csrc_count 0x0f ≡ length h.csrc
    count = omega (arith, low_mask_lem h.csrc_count, w)

second_byte_lem :
    (h : RtpHeader) → IsWellFormed h → second_byte h ≡ bool_bit h.marker * 128 + h.payload_type
unfolding second_byte
second_byte_lem h w = omega (
  arith,
  bit_or_fields 7 (bool_bit h.marker) (bit_and h.payload_type 0x7f),
  low_mask_lem h.payload_type,
  w,
)

pub length-csrc_bytes : (cs : List ℕ) → length (csrc_bytes cs) ≡ length cs * 4
length-csrc_bytes [] = refl
length-csrc_bytes (c ∷ cs) = omega (arith, length-csrc_bytes cs)

pub decode_csrc-csrc_bytes :
    (cs rest : List ℕ) → All IsU32 cs → decode_csrc (length cs) (csrc_bytes cs ++ rest) ≡ (cs, rest)
unfolding decode_csrc
decode_csrc-csrc_bytes [] rest h = refl
decode_csrc-csrc_bytes (c ∷ cs) rest (hc, hcs) =
    rw (decode_csrc-csrc_bytes cs rest hcs)
      (ground (arith, get-put_u32 c (csrc_bytes cs ++ rest) hc))

decode_extension_present :
    (h : RtpHeader) (rest : List ℕ)
    → IsWellFormed h
    → h.extension ≡ true
    → decode_extension h.extension (extension_head h ++ (extension_body h ++ rest))
      ≡ (h.extension_profile, h.extension_data)
unfolding decode_extension
decode_extension_present h rest w e =
    rw (e, words)
      (ground (arith, length-append h.extension_data rest, take_front h.extension_data rest))
  where
    words : get_u16 (put_u16 (u16 (length h.extension_data / 4))) * 4 ≡ length h.extension_data
    words = omega (arith, w)

decode_extension_absent :
    (h : RtpHeader) (rest : List ℕ)
    → IsWellFormed h
    → h.extension ≡ false
    → decode_extension h.extension (extension_head h ++ (extension_body h ++ rest))
      ≡ (h.extension_profile, h.extension_data)
unfolding decode_extension
decode_extension_absent h rest w e = ground arith

-- What Encode writes in all.
abbrev pub header_bytes : RtpHeader → List ℕ
header_bytes h = fixed_bytes h ++ extension_body h

pub length-header_bytes : (h : RtpHeader) → IsWellFormed h → length (header_bytes h) ≡ size h
unfolding fixed_bytes size
length-header_bytes h w = ground (
  arith,
  w,
  length-csrc_bytes h.csrc,
  length-append (csrc_bytes h.csrc) (extension_head h),
  length-append (csrc_bytes h.csrc ++ extension_head h) (extension_body h),
)

pub first_byte_fields :
    (h : RtpHeader)
    → IsWellFormed h
    → (bit_and (first_byte h) 0x0f ≡ length h.csrc)
      × (bit_and (first_byte h / 2 ^ 6) 0x03 ≡ 2)
      × (flag (first_byte h) 5 ≡ h.padding)
      × (flag (first_byte h) 4 ≡ h.extension)
first_byte_fields h w = ground (
  arith,
  first_byte_lem h w,
  low_mask_lem (first_byte h),
  low_mask_lem (first_byte h / 2 ^ 6),
  low_mask_lem (first_byte h / 2 ^ 5),
  low_mask_lem (first_byte h / 2 ^ 4),
  w,
)

pub second_byte_fields :
    (h : RtpHeader)
    → IsWellFormed h
    → (bit_and (second_byte h) 0x7f ≡ h.payload_type) × (flag (second_byte h) 7 ≡ h.marker)
second_byte_fields h w = ground (
  arith,
  second_byte_lem h w,
  low_mask_lem (second_byte h),
  low_mask_lem (second_byte h / 2 ^ 7),
  w,
)

decode_extension-header :
    (h : RtpHeader) (rest : List ℕ)
    → IsWellFormed h
    → decode_extension h.extension (extension_head h ++ (extension_body h ++ rest))
      ≡ (h.extension_profile, h.extension_data)
decode_extension-header h rest w = elim (Bool-cases h.extension) [
  | inl e ↦ decode_extension_present h rest w e
  | inr e ↦ decode_extension_absent h rest w e
]

abbrev pub fixed_front : RtpHeader → List ℕ
fixed_front h =
    first_byte h
    ∷ second_byte h
    ∷ (put_u16 h.sequence_number ++ (put_u32 h.timestamp ++ put_u32 h.ssrc))

decode_fields-header :
    (h : RtpHeader) (rest : List ℕ)
    → IsWellFormed h
    → decode_fields
        (fixed_front h ++ (csrc_bytes h.csrc ++ (extension_head h ++ (extension_body h ++ rest))))
      ≡ h
unfolding decode_fields
decode_fields-header h rest w =
    let (count, version, padding, extension) = first_byte_fields h w in
    let (type, marker) = second_byte_fields h w in
    rw
      (
        count,
        version,
        padding,
        extension,
        type,
        marker,
        decode_csrc-csrc_bytes h.csrc (extension_head h ++ (extension_body h ++ rest)) w.csrc_fit,
      )
      (rw (decode_extension-header h rest w) (ground (arith, w)))

regroup :
    (h : RtpHeader) (rest : List ℕ)
    → header_bytes h ++ rest
      ≡ fixed_front h ++ (csrc_bytes h.csrc ++ (extension_head h ++ (extension_body h ++ rest)))
unfolding fixed_bytes
regroup h rest = simp append_assoc

pub front_fields :
    (h : RtpHeader)
    → IsWellFormed h
    → (bit_and (first_byte h / 2 ^ 6) 0x03 ≡ 2) × (bit_and (first_byte h) 0x0f ≡ length h.csrc)
front_fields h w = let (count, version, _, _) = first_byte_fields h w in (version, count)

-- DecodeRtpHeader returns the header that Encode wrote, whatever bytes follow it.
pub decode-header_bytes :
    (h : RtpHeader) (rest : List ℕ)
    → IsWellFormed h
    → decode_rtp_header (header_bytes h ++ rest) ≡ ok h
unfolding decode_rtp_header
decode-header_bytes h rest w =
    let (version, count) = front_fields h w in
    rw (regroup h rest, version, count, decode_fields-header h rest w)
      (ground (
        arith,
        length-csrc_bytes h.csrc,
        length-append (csrc_bytes h.csrc) (extension_head h ++ (extension_body h ++ rest)),
      ))

-- On a well-formed header Encode fails exactly on a buffer shorter than Size, and otherwise
-- overwrites the first Size bytes and keeps the others.
pub encode_lem :
    (h : RtpHeader) (buf : List ℕ)
    → IsWellFormed h
    → encode h buf ≡ (
        if ltb (length buf) (size h)
        then err buffer_too_small
        else ok (header_bytes h ++ drop (size h) buf, size h))
unfolding encode
encode_lem h buf w = elim (Bool-cases (ltb (length buf) (size h))) [
  | inl short ↦ rw short
  | inr long ↦
      let room : length (header_bytes h) ≤ length buf = ground (arith, length-header_bytes h w) in
      let fits : ltb (length buf) (length (fixed_bytes h)) ≡ false =
        ground (arith, length-append (fixed_bytes h) (extension_body h)) in
      rw (long, fits, take_all (length buf) (header_bytes h) room, length-header_bytes h w)
]

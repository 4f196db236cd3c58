-- ===== src/Media/Rtp/Header.antt =====
-- RtpHeader of rtp.go: its size, Encode and DecodeRtpHeader. A slice that Go would read or write out
-- of range is a `panics` of the result.
use wa_calls.Base.{
  ℕ, zero, suc, ◌+◌, ◌*◌, ◌/◌, ◌^◌, Bool, true, false, ◌&&◌, not, List, [], ◌∷◌, ◌++◌, length, take,
  drop, if◌then◌else◌, ltb, leb, ◌==◌, bit_and, bit_or,
}
use wa_calls.Bytes.{byte_at, put_u16, put_u32, get_u16, get_u32, u16}

pub data RtpError : Type 0 where
  buffer_too_small invalid_version csrc_too_small : RtpError

pub data Result {ℓ} (A : Type ℓ) : Type ℓ where
  ok : A → Result A
  err : RtpError → Result A
  panics : Result A

abbrev rtp_version : ℕ
rtp_version = 2

abbrev rtp_min_header_size : ℕ
rtp_min_header_size = 12

pub record RtpHeader : Type 0 where
  pub version : ℕ
  pub padding : Bool
  pub extension : Bool
  pub csrc_count : ℕ
  pub marker : Bool
  pub payload_type : ℕ
  pub sequence_number : ℕ
  pub timestamp : ℕ
  pub ssrc : ℕ
  pub csrc : List ℕ
  pub extension_profile : ℕ
  pub extension_data : List ℕ

unfoldable pub new_rtp_header : ℕ → ℕ → ℕ → ℕ → RtpHeader
new_rtp_header payload_type seq ts ssrc = record {
  version = rtp_version;
  padding = false;
  extension = false;
  csrc_count = 0;
  marker = false;
  payload_type = payload_type;
  sequence_number = seq;
  timestamp = ts;
  ssrc = ssrc;
  csrc = [];
  extension_profile = 0;
  extension_data = [];
}

unfoldable pub size : RtpHeader → ℕ
size h =
    let s = rtp_min_header_size + h.csrc_count * 4 in
    if h.extension then s + (4 + length h.extension_data) else s

abbrev pub bool_bit : Bool → ℕ
bool_bit true = 1
bool_bit false = 0

-- buf[0] and buf[1] of Encode.
unfoldable pub first_byte : RtpHeader → ℕ
first_byte h =
    bit_or
      (bit_or (bit_or (bit_and h.version 0x03 * 2 ^ 6) (bool_bit h.padding * 2 ^ 5))
        (bool_bit h.extension * 2 ^ 4))
      (bit_and h.csrc_count 0x0f)

unfoldable pub second_byte : RtpHeader → ℕ
second_byte h = bit_or (bool_bit h.marker * 2 ^ 7) (bit_and h.payload_type 0x7f)

abbrev pub csrc_bytes : List ℕ → List ℕ
csrc_bytes [] = []
csrc_bytes (c ∷ cs) = put_u32 c ++ csrc_bytes cs

-- The extension's four bytes; `uint16(len(h.ExtensionData)/4)` is cut to 16 bits.
abbrev pub extension_head : RtpHeader → List ℕ
extension_head h =
    if h.extension
    then put_u16 h.extension_profile ++ put_u16 (u16 (length h.extension_data / 4))
    else []

abbrev pub extension_body : RtpHeader → List ℕ
extension_body h = if h.extension then h.extension_data else []

-- What Encode writes before it copies the extension data.
unfoldable pub fixed_bytes : RtpHeader → List ℕ
fixed_bytes h =
    first_byte h
    ∷ second_byte h
    ∷ (put_u16 h.sequence_number
        ++ (put_u32 h.timestamp ++ (put_u32 h.ssrc ++ (csrc_bytes h.csrc ++ extension_head h))))

-- Encode into `buf`: the buffer after it, and the size it returns. A word that does not fit is a
-- panic; `copy` of the extension data stops at the end of the buffer.
unfoldable pub encode : RtpHeader → List ℕ → Result (List ℕ × ℕ)
encode h buf =
    if ltb (length buf) (size h)
    then err buffer_too_small
    else if ltb (length buf) (length (fixed_bytes h))
    then panics
    else let written = take (length buf) (fixed_bytes h ++ extension_body h) in
      ok (written ++ drop (length written) buf, size h)

-- The CSRC loop of DecodeRtpHeader over `buf[offset:]`: the words, and the rest.
unfoldable pub decode_csrc : ℕ → List ℕ → List ℕ × List ℕ
decode_csrc zero rest = ([], rest)
decode_csrc (suc n) rest =
    let (cs, rest') = decode_csrc n (drop 4 rest) in (get_u32 rest ∷ cs, rest')

-- The extension of DecodeRtpHeader: ExtensionProfile and ExtensionData, read from `buf[offset:]`.
unfoldable pub decode_extension : Bool → List ℕ → ℕ × List ℕ
decode_extension extension rest =
    if extension && leb 4 (length rest)
    then (let ext_bytes = get_u16 (drop 2 rest) * 4 in
        (
          get_u16 rest,
          if leb ext_bytes (length (drop 4 rest)) then take ext_bytes (drop 4 rest) else [],
        ))
    else (0, [])

abbrev pub flag : ℕ → ℕ → Bool
flag b k = not (bit_and (b / 2 ^ k) 0x01 == 0)

unfoldable pub decode_fields : List ℕ → RtpHeader
decode_fields buf =
    let b0 = byte_at buf 0 in
    let b1 = byte_at buf 1 in
    let count = bit_and b0 0x0f in
    let (cs, rest) = decode_csrc count (drop 12 buf) in
    let (profile, ext) = decode_extension (flag b0 4) rest in
    record {
      version = bit_and (b0 / 2 ^ 6) 0x03;
      padding = flag b0 5;
      extension = flag b0 4;
      csrc_count = count;
      marker = flag b1 7;
      payload_type = bit_and b1 0x7f;
      sequence_number = get_u16 (drop 2 buf);
      timestamp = get_u32 (drop 4 buf);
      ssrc = get_u32 (drop 8 buf);
      csrc = cs;
      extension_profile = profile;
      extension_data = ext;
    }

unfoldable pub decode_rtp_header : List ℕ → Result RtpHeader
decode_rtp_header buf =
    if ltb (length buf) rtp_min_header_size
    then err buffer_too_small
    else if not (bit_and (byte_at buf 0 / 2 ^ 6) 0x03 == rtp_version)
    then err invalid_version
    else if ltb (length buf) (rtp_min_header_size + bit_and (byte_at buf 0) 0x0f * 4)
    then err csrc_too_small
    else ok (decode_fields buf)

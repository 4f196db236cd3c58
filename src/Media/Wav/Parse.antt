-- ===== src/Media/Wav/Parse.antt =====
-- ParseWavStrict. The samples are the 16-bit words of the data chunk: their division by 32768 is
-- floating-point. `none` is a walk that does not end in the rounds it is given.
use wa_calls.Base.{
  ℕ, zero, suc, ◌+◌, ◌-◌, ◌*◌, ◌%◌, Bool, true, false, ◌&&◌, ◌||◌, not, Option, none, some, List,
  [], ◌∷◌, if◌then◌else◌, ltb, leb, ◌==◌, length, drop,
}
use wa_calls.Bytes.{slice, get_u16_le, get_u32_le}

pub record WavInfo : Type 0 where
  pub channels : ℕ
  pub sample_rate : ℕ
  pub bit_depth : ℕ
  pub samples : List ℕ

pub data WavError : Type 0 where
  not_a_riff_file no_fmt_chunk no_samples : WavError
  chunk_too_long : (id : List ℕ) (size remaining : ℕ) → WavError
  short_fmt not_pcm bad_depth bad_channels bad_rate : ℕ → WavError

pub data WavResult (A : Type 0) : Type 0 where
  parsed : A → WavResult A
  refused : WavError → WavResult A

-- The variables that the loop changes.
pub record WavState : Type 0 where
  pub channels : ℕ
  pub sample_rate : ℕ
  pub bit_depth : ℕ
  pub have_fmt : Bool
  pub body : List ℕ

abbrev pub no_chunks : WavState
no_chunks = record { channels = 0; sample_rate = 0; bit_depth = 0; have_fmt = false; body = [] }

abbrev pub same_bytes : List ℕ → List ℕ → Bool
same_bytes [] [] = true
same_bytes (x ∷ xs) (y ∷ ys) = let rest = same_bytes xs ys in (x == y) && rest
same_bytes _ _ = false

-- "RIFF", "WAVE", "fmt " and "data"
abbrev pub riff_id : List ℕ
riff_id = 82 ∷ 73 ∷ 70 ∷ 70 ∷ []

abbrev pub wave_id : List ℕ
wave_id = 87 ∷ 65 ∷ 86 ∷ 69 ∷ []

abbrev pub fmt_id : List ℕ
fmt_id = 102 ∷ 109 ∷ 116 ∷ 32 ∷ []

abbrev pub data_id : List ℕ
data_id = 100 ∷ 97 ∷ 116 ∷ 97 ∷ []

abbrev pub wav_format_pcm : ℕ
wav_format_pcm = 1

abbrev wav_format_extensible : ℕ
wav_format_extensible = 0xFFFE

abbrev format_of : List ℕ → ℕ → ℕ
format_of chunk size =
    let format = get_u16_le chunk in
    if (format == wav_format_extensible) && leb 40 size then get_u16_le (drop 24 chunk) else format

-- The `case "fmt "`, on the bytes from the chunk's body on.
abbrev read_fmt : List ℕ → ℕ → WavState → WavResult WavState
read_fmt chunk size st =
    if ltb size 16
    then refused (short_fmt size)
    else if not (format_of chunk size == wav_format_pcm)
    then refused (not_pcm (format_of chunk size))
    else parsed (record st {
      channels = get_u16_le (drop 2 chunk);
      sample_rate = get_u32_le (drop 4 chunk);
      bit_depth = get_u16_le (drop 14 chunk);
      have_fmt = true;
    })

unfoldable pub read_chunk : List ℕ → ℕ → ℕ → List ℕ → WavState → WavResult WavState
read_chunk id at size raw st =
    if same_bytes id fmt_id
    then read_fmt (drop at raw) size st
    else if same_bytes id data_id
    then parsed (record st { body = slice raw at (at + size) })
    else parsed st

abbrev pub go_on :
    WavResult WavState → (WavState → Option (WavResult WavState)) → Option (WavResult WavState)
go_on (refused e) next = some (refused e)
go_on (parsed st) next = next st

-- The chunk at `off`, of the size that its header names, and the rest of the walk from the next one.
abbrev pub chunk_at :
    List ℕ
    → ℕ
    → ℕ
    → WavState
    → (WavState → Option (WavResult WavState))
    → Option (WavResult WavState)
chunk_at raw off size st next =
    let id = slice raw off (off + 4) in
    if ltb (length raw) (off + 8 + size)
    then some (refused (chunk_too_long id size (length raw - (off + 8))))
    else go_on (read_chunk id (off + 8) size raw st) next

abbrev pub size_at : List ℕ → ℕ → ℕ
size_at raw off = get_u32_le (drop (off + 4) raw)

abbrev pub at_end_or : Bool → WavState → Option (WavResult WavState) → Option (WavResult WavState)
at_end_or true st further = some (parsed st)
at_end_or false st further = further

unfoldable pub walk : ℕ → List ℕ → ℕ → WavState → Option (WavResult WavState)
walk zero raw off st = none
walk (suc n) raw off st =
    let size = size_at raw off in
    at_end_or (ltb (length raw) (off + 8)) st
      (chunk_at raw off size st (walk n raw (off + 8 + size + size % 2)))

-- PCMInt16LEToFloat32 before the division.
abbrev pub pcm_words : List ℕ → List ℕ
pcm_words (a ∷ b ∷ bytes) = let rest = pcm_words bytes in (a + b * 256) ∷ rest
pcm_words _ = []

abbrev pub info_of : WavState → WavInfo
info_of st = record {
  channels = st.channels;
  sample_rate = st.sample_rate;
  bit_depth = st.bit_depth;
  samples = pcm_words st.body;
}

-- The checks after the loop: the first that fails, in their order.
abbrev pub format_error : WavState → Option WavError
format_error st =
    if not st.have_fmt
    then some no_fmt_chunk
    else if not (st.bit_depth == 16)
    then some (bad_depth st.bit_depth)
    else if ltb st.channels 1 || ltb 2 st.channels
    then some (bad_channels st.channels)
    else if ltb st.sample_rate 8000 || ltb 48000 st.sample_rate
    then some (bad_rate st.sample_rate)
    else if ltb (length st.body) (2 * st.channels)
    then some no_samples
    else none

abbrev pub answered : WavState → Option WavError → WavResult WavInfo
answered st none = parsed (info_of st)
answered st (some e) = refused e

abbrev pub accept_format : WavState → WavResult WavInfo
accept_format st = answered st (format_error st)

abbrev pub conclude : Option (WavResult WavState) → Option (WavResult WavInfo)
conclude none = none
conclude (some (refused e)) = some (refused e)
conclude (some (parsed st)) = some (accept_format st)

abbrev pub is_not_riff : List ℕ → Bool
is_not_riff raw =
    ltb (length raw) 12
    || not (same_bytes (slice raw 0 4) riff_id)
    || not (same_bytes (slice raw 8 12) wave_id)

unfoldable pub parse_wav_strict : ℕ → List ℕ → Option (WavResult WavInfo)
parse_wav_strict n raw =
    if is_not_riff raw then some (refused not_a_riff_file) else conclude (walk n raw 12 no_chunks)

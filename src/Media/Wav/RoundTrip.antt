-- ===== src/Media/Wav/RoundTrip.antt =====
-- ParseWavStrict on what EncodeWav16kMono writes.
use wa_calls.Base.{
  ℕ, suc, ◌+◌, ◌-◌, ◌*◌, ◌/◌, ◌%◌, ◌≤◌, ◌<◌, ◌≡◌, refl, ap, ◌∙◌, true, false, Option, some, List,
  [], ◌∷◌, ◌++◌, arith, ltb, length, take, All, take_all,
}
use wa_calls.Bytes.{u32, IsU16, IsU32, get_u32_le}
use wa_calls.Media.Wav.Parse.{
  WavInfo, WavState, WavResult, parsed, no_chunks, read_chunk, chunk_at, size_at, at_end_or, walk,
  pcm_words, accept_format, conclude, parse_wav_strict, is_not_riff,
}
use wa_calls.Media.Wav.Header.{put_u32_le, wav_header_16k_mono, pcm_bytes, encode_wav_16k_mono}

length-pcm_bytes : (words : List ℕ) → length (pcm_bytes words) ≡ 2 * length words
length-pcm_bytes [] = refl
length-pcm_bytes (w ∷ words) = omega (arith, length-pcm_bytes words)

pcm_words-pcm_bytes : (words : List ℕ) → All IsU16 words → pcm_words (pcm_bytes words) ≡ words
pcm_words-pcm_bytes [] h = refl
pcm_words-pcm_bytes (w ∷ words) h =
    let word : w % 256 + w / 256 % 256 * 256 ≡ w = omega arith in
    rw (word, pcm_words-pcm_bytes words h.1) refl

get-put_u32_le : (n : ℕ) (rest : List ℕ) → IsU32 n → get_u32_le (put_u32_le n ++ rest) ≡ n
get-put_u32_le n rest h = omega arith

-- The file of a body, its header computed.
abbrev file : ℕ → List ℕ → List ℕ
file n body = wav_header_16k_mono n ++ body

abbrev with_fmt : List ℕ → WavState
with_fmt body = record {
  channels = 1;
  sample_rate = 16000;
  bit_depth = 16;
  have_fmt = true;
  body = body;
}

length-file : (n : ℕ) (body : List ℕ) → length (file n body) ≡ 44 + length body
unfolding wav_header_16k_mono
length-file n body = omega arith

fmt_chunk :
    (n : ℕ) (body : List ℕ) (next : WavState → Option (WavResult WavState))
    → chunk_at (file n body) 12 16 no_chunks next ≡ next (with_fmt [])
unfolding wav_header_16k_mono read_chunk
fmt_chunk n body next =
    let long : ltb (length (file n body)) 36 ≡ false = ground arith in rw long refl

data_chunk :
    (n : ℕ) (body : List ℕ) (next : WavState → Option (WavResult WavState))
    → length body ≡ n
    → chunk_at (file n body) 36 n (with_fmt []) next ≡ next (with_fmt body)
unfolding wav_header_16k_mono read_chunk
data_chunk n body next e =
    let long : ltb (length (file n body)) (36 + 8 + n) ≡ false =
      ground (arith, length-file n body) in
    let whole : take (44 + n - 44) body ≡ body = take_all (44 + n - 44) body (omega (arith, e)) in
    rw long (ap (λ v. next (with_fmt v)) whole)

data_size : (n : ℕ) (body : List ℕ) → IsU32 n → size_at (file n body) 36 ≡ n
unfolding wav_header_16k_mono
data_size n body h = get-put_u32_le n body h

walk_end :
    (k n off : ℕ) (body : List ℕ)
    → length body ≡ n
    → off ≡ 44 + n
    → walk (suc k) (file n body) off (with_fmt body) ≡ some (parsed (with_fmt body))
unfolding walk
walk_end k n off body e o =
    let over : ltb (length (file n body)) (off + 8) ≡ true = ground (arith, length-file n body) in
    rw (over, at_end_or) refl

walk_round :
    (k : ℕ) (raw : List ℕ) (off size : ℕ) (st : WavState)
    → ltb (length raw) (off + 8) ≡ false
    → size_at raw off ≡ size
    → walk (suc k) raw off st ≡ chunk_at raw off size st (walk k raw (off + 8 + size + size % 2))
unfolding walk
walk_round k raw off size st more e =
    ap (λ b. at_end_or b st (round (size_at raw off))) more ∙ ap round e
  where
    round : ℕ → Option (WavResult WavState)
    round size = chunk_at raw off size st (walk k raw (off + 8 + size + size % 2))

fmt_size : (n : ℕ) (body : List ℕ) → size_at (file n body) 12 ≡ 16
unfolding wav_header_16k_mono
fmt_size n body = refl

walk_data :
    (k n : ℕ) (body : List ℕ)
    → length body ≡ n
    → IsU32 n
    → n % 2 ≡ 0
    → walk (suc (suc k)) (file n body) 36 (with_fmt []) ≡ some (parsed (with_fmt body))
walk_data k n body e h even =
    let more : ltb (length (file n body)) 44 ≡ false = ground (arith, length-file n body) in
    walk_round (suc k) (file n body) 36 n (with_fmt []) more (data_size n body h)
    ∙ (data_chunk n body _ e ∙ walk_end k n (44 + n + n % 2) body e (omega arith))

walk-file :
    (k n : ℕ) (body : List ℕ)
    → length body ≡ n
    → IsU32 n
    → n % 2 ≡ 0
    → walk (suc (suc (suc k))) (file n body) 12 no_chunks ≡ some (parsed (with_fmt body))
walk-file k n body e h even =
    let more : ltb (length (file n body)) 20 ≡ false = ground (arith, length-file n body) in
    walk_round (suc (suc k)) (file n body) 12 16 no_chunks more (fmt_size n body)
    ∙ (fmt_chunk n body _ ∙ walk_data k n body e h even)

file-is_not_riff : (n : ℕ) (body : List ℕ) → is_not_riff (file n body) ≡ false
unfolding wav_header_16k_mono
file-is_not_riff n body = ground arith

accept_file :
    (body : List ℕ)
    → 2 ≤ length body
    → accept_format (with_fmt body)
      ≡ parsed
          (record { channels = 1; sample_rate = 16000; bit_depth = 16; samples = pcm_words body })
accept_file body h = let enough : ltb (length body) 2 ≡ false = ground arith in rw enough refl

-- A header that counts its body, and a body of whole samples.
pub parse_file :
    (k n : ℕ) (body : List ℕ)
    → length body ≡ n
    → IsU32 n
    → n % 2 ≡ 0
    → 2 ≤ n
    → parse_wav_strict (suc (suc (suc k))) (wav_header_16k_mono n ++ body)
      ≡ some (
          parsed (record {
            channels = 1;
            sample_rate = 16000;
            bit_depth = 16;
            samples = pcm_words body;
          }))
unfolding parse_wav_strict
parse_file k n body e h even enough =
    rw (file-is_not_riff n body)
      (ap conclude (walk-file k n body e h even) ∙ ap some (accept_file body (omega (arith, e))))

-- ParseWavStrict reads back what EncodeWav16kMono writes of one sample or more, up to the 4 GiB that
-- a WAV file can count: 16 kHz, mono, 16 bits and the samples. Three rounds are enough.
pub parse_wav_strict-encode :
    (k : ℕ) (words : List ℕ)
    → 0 < length words
    → IsU32 (2 * length words)
    → All IsU16 words
    → parse_wav_strict (suc (suc (suc k))) (encode_wav_16k_mono words)
      ≡ some
          (parsed (record { channels = 1; sample_rate = 16000; bit_depth = 16; samples = words }))
unfolding encode_wav_16k_mono
parse_wav_strict-encode k words h small w =
    let body = pcm_bytes words in
    let count : u32 (length body) ≡ length body = omega (arith, length-pcm_bytes words) in
    rw count (
      parse_file k (length body) body refl (omega (arith, length-pcm_bytes words))
        (omega (arith, length-pcm_bytes words)) (omega (arith, length-pcm_bytes words))
      ∙ ap with_samples (pcm_words-pcm_bytes words w))
  where
    with_samples : List ℕ → Option (WavResult WavInfo)
    with_samples ws =
        some (parsed (record { channels = 1; sample_rate = 16000; bit_depth = 16; samples = ws }))

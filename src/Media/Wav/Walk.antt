-- ===== src/Media/Wav/Walk.antt =====
-- ParseWavStrict on any bytes: the walk over the chunks ends, and what is accepted can be played.
use wa_calls.Base.{
  ℕ, zero, suc, ◌+◌, ◌*◌, ◌/◌, ◌%◌, ◌≤◌, ◌<◌, ◌≡◌, refl, sym, subst, true, false, Option, none,
  some, List, [], ◌∷◌, arith, ltb, length, Gives, if_cases,
}
use native.Mathlib.Decide.{dec_lt}
use wa_calls.Bytes.{slice}
use wa_calls.Media.Wav.Parse.{
  WavInfo, WavState, WavResult, parsed, refused, no_chunks, read_chunk, go_on, chunk_at, size_at,
  at_end_or, WavError, format_error, answered, not_a_riff_file, is_not_riff, walk, pcm_words,
  conclude, parse_wav_strict,
}

go_on-Gives :
    (r : WavResult WavState) (next : WavState → Option (WavResult WavState))
    → ((st : WavState) → Gives (next st) (λ _. Unit))
    → Gives (go_on r next) (λ _. Unit)
go_on-Gives (refused e) next h = tt
go_on-Gives (parsed st) next h = h st

chunk_at-Gives :
    (raw : List ℕ) (off size : ℕ) (st : WavState) (next : WavState → Option (WavResult WavState))
    → ((st : WavState) → Gives (next st) (λ _. Unit))
    → Gives (chunk_at raw off size st next) (λ _. Unit)
chunk_at-Gives raw off size st next h = elim (dec_lt (length raw) (off + 8 + size)) [
  | yes p ↦ ground arith
  | no p ↦
      ground
        (arith, go_on-Gives (read_chunk (slice raw off (off + 4)) (off + 8) size raw st) next h)
]

-- A round of the walk passes the eight bytes of a chunk's header at least.
walk-Gives :
    (n : ℕ) (raw : List ℕ) (off : ℕ) (st : WavState)
    → length raw < off + 8 * suc n
    → Gives (walk (suc n) raw off st) (λ _. Unit)
unfolding walk
walk-Gives zero raw off st h =
    let over : ltb (length raw) (off + 8) ≡ true = ground arith in rw (over, at_end_or) tt
walk-Gives (suc n) raw off st h = elim (dec_lt (length raw) (off + 8)) [
  | yes p ↦ let over : ltb (length raw) (off + 8) ≡ true = ground arith in rw (over, at_end_or) tt
  | no p ↦
      let size = size_at raw off in
      let more : ltb (length raw) (off + 8) ≡ false = ground arith in
      let chunk =
        chunk_at-Gives raw off size st (walk (suc n) raw (off + 8 + size + size % 2))
          (λ st'. walk-Gives n raw (off + 8 + size + size % 2) st' (omega arith)) in
      subst
        (λ b.
          Gives
            (at_end_or b st
              (chunk_at raw off size st (walk (suc n) raw (off + 8 + size + size % 2))))
            (λ _. Unit))
        (sym more) chunk
]

length-pcm_words : (n : ℕ) (bytes : List ℕ) → 2 * n ≤ length bytes → n ≤ length (pcm_words bytes)
length-pcm_words zero bytes h = omega arith
length-pcm_words (suc n) [] h = absurd (omega arith)
length-pcm_words (suc n) (a ∷ []) h = absurd (omega arith)
length-pcm_words (suc n) (a ∷ b ∷ bytes) h = omega (arith, length-pcm_words n bytes (omega arith))

-- Mono or stereo of 16 bits, 8 to 48 kHz, and a sample of each channel at least.
pub record IsPlayable (w : WavInfo) : Type 0 where
  pub depth : w.bit_depth ≡ 16
  pub mono_or_stereo : (1 ≤ w.channels) × (w.channels ≤ 2)
  pub rate : (8000 ≤ w.sample_rate) × (w.sample_rate ≤ 48000)
  pub has_samples : w.channels ≤ length w.samples

abbrev pub PlayableIfParsed : WavResult WavInfo → Type 0
PlayableIfParsed (parsed w) = IsPlayable w
PlayableIfParsed (refused e) = Unit

format_error-none :
    (st : WavState)
    → format_error st ≡ none
    → (st.bit_depth ≡ 16)
      × ((1 ≤ st.channels) × (st.channels ≤ 2))
      × ((8000 ≤ st.sample_rate) × (st.sample_rate ≤ 48000))
      × (2 * st.channels ≤ length st.body)
format_error-none st e = ground arith

answered-Playable :
    (st : WavState) (e : Option WavError) → format_error st ≡ e → PlayableIfParsed (answered st e)
answered-Playable st (some e) p = tt
answered-Playable st none p =
    let (depth, channels, rate, enough) = format_error-none st p in
    record {
      depth = depth;
      mono_or_stereo = channels;
      rate = rate;
      has_samples = length-pcm_words st.channels st.body enough;
    }

conclude-Playable :
    (o : Option (WavResult WavState)) → Gives o (λ _. Unit) → Gives (conclude o) PlayableIfParsed
conclude-Playable none h = h
conclude-Playable (some (refused e)) h = tt
conclude-Playable (some (parsed st)) h = answered-Playable st (format_error st) refl

-- On any bytes ParseWavStrict ends: one round for each eight bytes, and one more, are enough. A file
-- that it accepts has 16 bits, one or two channels, 8 to 48 kHz and a sample of each channel.
pub parse_wav_strict-Playable :
    (raw : List ℕ) → Gives (parse_wav_strict (suc (length raw / 8)) raw) PlayableIfParsed
unfolding parse_wav_strict
parse_wav_strict-Playable raw =
    if_cases (λ o. Gives o PlayableIfParsed) (is_not_riff raw) (some (refused not_a_riff_file))
      (conclude (walk (suc (length raw / 8)) raw 12 no_chunks)) (λ _. tt)
      (λ _. conclude-Playable _ (walk-Gives (length raw / 8) raw 12 no_chunks (omega arith)))

-- ===== src/Media/Wav/Header.antt =====
-- wavHeader16kMono of wavrecorder.go, and EncodeWav16kMono of wavparse.go on the 16-bit words that
-- PCMFloat32ToInt16LE makes of the samples.
use wa_calls.Base.{ℕ, ◌+◌, ◌*◌, ◌/◌, ◌%◌, List, [], ◌∷◌, ◌++◌, length}
use wa_calls.Bytes.{u32}
use wa_calls.Media.Wav.Parse.{riff_id, wave_id, fmt_id, data_id, wav_format_pcm}

-- binary.LittleEndian
abbrev pub put_u16_le : ℕ → List ℕ
put_u16_le n = (n % 256) ∷ (n / 256 % 256) ∷ []

abbrev pub put_u32_le : ℕ → List ℕ
put_u32_le n = (n % 256) ∷ (n / 256 % 256) ∷ (n / 65536 % 256) ∷ (n / 16777216 % 256) ∷ []

abbrev pub rec_sample_rate : ℕ
rec_sample_rate = 16000

unfoldable pub wav_header_16k_mono : ℕ → List ℕ
wav_header_16k_mono data_len =
    riff_id
    ++ put_u32_le (u32 (36 + data_len))
    ++ wave_id
    ++ fmt_id
    ++ put_u32_le 16
    ++ put_u16_le wav_format_pcm
    ++ put_u16_le 1
    ++ put_u32_le rec_sample_rate
    ++ put_u32_le (rec_sample_rate * 2)
    ++ put_u16_le 2
    ++ put_u16_le 16
    ++ data_id
    ++ put_u32_le data_len

-- PCMFloat32ToInt16LE after floatToInt16.
abbrev pub pcm_bytes : List ℕ → List ℕ
pcm_bytes [] = []
pcm_bytes (w ∷ words) = (w % 256) ∷ (w / 256 % 256) ∷ pcm_bytes words

unfoldable pub encode_wav_16k_mono : List ℕ → List ℕ
encode_wav_16k_mono words = wav_header_16k_mono (u32 (length (pcm_bytes words))) ++ pcm_bytes words

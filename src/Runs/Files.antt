-- ===== src/Runs/Files.antt =====
-- WAV files, a recording, and the memory of an SrtpManager.
use wa_calls.Base.{
  if◌then◌else◌, Option, none, some, ℕ, suc, ◌+◌, ◌≡◌, refl, List, [], ◌∷◌, arith, ltb, length, ◌/◌,
  Gives, replicate,
}
use wa_calls.Media.Wav.Parse.{parsed, parse_wav_strict, walk, read_chunk}
use wa_calls.Media.Wav.Header.{encode_wav_16k_mono}
use wa_calls.Media.Wav.Walk.{PlayableIfParsed, parse_wav_strict-Playable}
use wa_calls.Media.Wav.RoundTrip.{parse_wav_strict-encode}
use wa_calls.Media.Wav.Recorder.{new_wav_recorder, close}
use wa_calls.Media.Wav.Recording.{
  Input, from_peer, from_operator, on_tick, IsFinished, take_all_in, recording-IsFinished,
}
use wa_calls.Core.{SrtpKeyingMaterial}
use wa_calls.Engine.SrtpManager.{new_srtp_manager, close_manager}
use wa_calls.Engine.Memory.{
  IsAccounted, protect_call, unprotect_call, rekey_call, after_all, manager-IsAccounted,
}
use wa_calls.Runs.Streams.{stand_in, packet}

-- A stereo file of one frame, with an odd chunk that nobody knows and its pad byte.
abbrev stereo : List ℕ
stereo =
    82 ∷ 73 ∷ 70 ∷ 70 ∷ 0 ∷ 0 ∷ 0 ∷ 0 ∷ 87 ∷ 65 ∷ 86 ∷ 69 ∷ 76 ∷ 73 ∷ 83 ∷ 84 ∷ 1 ∷ 0 ∷ 0 ∷ 0 ∷ 7
    ∷ 0 ∷ 102 ∷ 109 ∷ 116 ∷ 32 ∷ 16 ∷ 0 ∷ 0 ∷ 0 ∷ 1 ∷ 0 ∷ 2 ∷ 0 ∷ 0x40 ∷ 0x1f ∷ 0 ∷ 0 ∷ 0 ∷ 0 ∷ 0
    ∷ 0 ∷ 4 ∷ 0 ∷ 16 ∷ 0 ∷ 100 ∷ 97 ∷ 116 ∷ 97 ∷ 4 ∷ 0 ∷ 0 ∷ 0 ∷ 1 ∷ 0 ∷ 2 ∷ 1 ∷ []

stereo_run :
    parse_wav_strict 9 stereo
    ≡ some (
        parsed
          (record { channels = 2; sample_rate = 8000; bit_depth = 16; samples = 1 ∷ 258 ∷ [] }))
unfolding parse_wav_strict walk read_chunk
stereo_run = refl

parse_wav_strict-Playable_example :
    Gives (parse_wav_strict (suc (length stereo / 8)) stereo) PlayableIfParsed
parse_wav_strict-Playable_example = parse_wav_strict-Playable stereo

parse_wav_strict-encode_example :
    parse_wav_strict 3 (encode_wav_16k_mono (1 ∷ 65535 ∷ []))
    ≡ some (
        parsed
          (record { channels = 1; sample_rate = 16000; bit_depth = 16; samples = 1 ∷ 65535 ∷ [] }))
parse_wav_strict-encode_example =
    parse_wav_strict-encode 0 (1 ∷ 65535 ∷ []) (omega arith) (omega arith) (omega arith)

abbrev add_legs : Option ℕ → Option ℕ → ℕ
add_legs none none = 0
add_legs (some a) none = a
add_legs none (some b) = b
add_legs (some a) (some b) = a + b

-- A disk that is full a little after 500 bytes of samples, in the middle of one.
abbrev small_disk : ℕ → Option ℕ
small_disk n = if ltb n 500 then none else some 3

abbrev inputs : List (Input ℕ)
inputs =
    from_peer (replicate 400 7) ∷ from_operator (replicate 10 5) ∷ on_tick ∷ from_peer (9 ∷ []) ∷ []

recording-IsFinished_example :
    Gives
      (close add_legs small_disk 100 (take_all_in add_legs small_disk new_wav_recorder inputs))
      IsFinished
recording-IsFinished_example = recording-IsFinished add_legs small_disk inputs

abbrev keys : SrtpKeyingMaterial
keys = record { master_key = 7 ∷ []; master_salt = replicate 14 3 }

manager-IsAccounted_example :
    let m =
      after_all stand_in
        (new_srtp_manager keys keys 4 4)
        (protect_call (some packet) ∷ unprotect_call (replicate 20 128) ∷ rekey_call keys ∷ []) in
    IsAccounted m
    × ((close_manager m).released ≡ (close_manager m).added)
    × ((close_manager m).mem ≡ 0)
manager-IsAccounted_example =
    manager-IsAccounted stand_in keys keys 4 4
      (protect_call (some packet) ∷ unprotect_call (replicate 20 128) ∷ rekey_call keys ∷ [])

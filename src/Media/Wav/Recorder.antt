-- ===== src/Media/Wav/Recorder.antt =====
-- WavRecorder of internal/voip/media/wavrecorder.go. A sample is a value of any type; `mix` is the
-- 16-bit word that floatToInt16 makes of the sum of the two legs' samples, either of which may be
-- missing. Creating the file and writing its header succeed. Of a write of samples to a file that holds so
-- many bytes of them, `fails_after` says whether it fails, and after how many of its bytes: os.File.Write
-- may write a part and return an error. The file is its header's data length and the samples after the header.
use wa_calls.Base.{
  ℕ, zero, suc, ◌+◌, ◌-◌, Bool, true, false, ◌&&◌, ◌||◌, Option, none, some, List, [], ◌∷◌, ◌++◌,
  if◌then◌else◌, ltb, ◌==◌, length, take, drop, and_then,
}
use wa_calls.Bytes.{u32}
use wa_calls.Media.Wav.Header.{put_u16_le, wav_header_16k_mono}

abbrev pub rec_frame_samples : ℕ
rec_frame_samples = 320

abbrev pub rec_max_buffered : ℕ
rec_max_buffered = 32000

pub record WavRecorder (A : Type 0) : Type 0 where
  pub header_len : ℕ
  pub body : List ℕ
  pub peer_buf : List A
  pub op_buf : List A
  pub data_len : ℕ
  pub stopped : Bool
  pub write_err : Bool

module _ {A : Type 0} where
  -- NewWavRecorder, where the file can be created and its header written.
  abbrev pub new_wav_recorder : WavRecorder A
  new_wav_recorder = record {
    header_len = 0;
    body = [];
    peer_buf = [];
    op_buf = [];
    data_len = 0;
    stopped = false;
    write_err = false;
  }

  -- The contents of the file.
  abbrev pub contents : WavRecorder A → List ℕ
  contents r = wav_header_16k_mono r.header_len ++ r.body

  -- What feed makes of a leg's buffer: the newest two seconds.
  abbrev pub fed : List A → List A → List A
  fed buf pcm =
      let more = buf ++ pcm in
      if ltb rec_max_buffered (length more)
      then drop (length more - rec_max_buffered) more
      else more

  unfoldable pub write_peer : WavRecorder A → List A → WavRecorder A
  write_peer r [] = r
  write_peer r (s ∷ pcm) = if r.stopped then r else record r { peer_buf = fed r.peer_buf (s ∷ pcm) }

  unfoldable pub write_operator : WavRecorder A → List A → WavRecorder A
  write_operator r [] = r
  write_operator r (s ∷ pcm) = if r.stopped then r else record r { op_buf = fed r.op_buf (s ∷ pcm) }

  -- takeSamples: up to n samples from the front, and the rest.
  abbrev pub take_samples : List A → ℕ → List A × List A
  take_samples buf n = (take n buf, drop n buf)

  abbrev pub none_left : List A → Bool
  none_left [] = true
  none_left (s ∷ buf) = false

  -- What Close does once the pump has drained: a failed write leaves the header as it is.
  abbrev pub patched : WavRecorder A → WavRecorder A
  patched r = if r.write_err then r else record r { header_len = r.data_len }

  -- The write of a frame's bytes: whole, or up to the error.
  abbrev pub frame_written : WavRecorder A → List ℕ → Option ℕ → WavRecorder A
  frame_written r bytes none = record r {
    body = r.body ++ bytes;
    data_len = u32 (r.data_len + length bytes);
  }
  frame_written r bytes (some k) = record r { body = r.body ++ take k bytes; write_err = true }

module _ {A : Type 0} (mix : Option A → Option A → ℕ) (fails_after : ℕ → Option ℕ) where
  -- The loop of writeMixLocked.
  abbrev pub mixed : List A → List A → List ℕ
  mixed [] [] = []
  mixed (p ∷ peer) [] = put_u16_le (mix (some p) none) ++ mixed peer []
  mixed [] (o ∷ op) = put_u16_le (mix none (some o)) ++ mixed [] op
  mixed (p ∷ peer) (o ∷ op) = put_u16_le (mix (some p) (some o)) ++ mixed peer op

  unfoldable pub write_mix : WavRecorder A → List A → List A → WavRecorder A
  write_mix r peer op =
      let bytes = mixed peer op in
      if (length bytes == 0) || r.write_err
      then r
      else frame_written r bytes (fails_after (length r.body))

  -- A frame from both buffers, written.
  unfoldable pub write_frame : WavRecorder A → WavRecorder A
  write_frame r =
      let (peer, peer_buf) = take_samples r.peer_buf rec_frame_samples in
      let (op, op_buf) = take_samples r.op_buf rec_frame_samples in
      write_mix (record r { peer_buf = peer_buf; op_buf = op_buf }) peer op

  unfoldable pub tick : WavRecorder A → WavRecorder A
  tick r = if none_left r.peer_buf && none_left r.op_buf then r else write_frame r

  -- `none` is a loop that does not end in so many rounds.
  unfoldable pub drain : ℕ → WavRecorder A → Option (WavRecorder A)
  drain zero r = if none_left r.peer_buf && none_left r.op_buf then some r else none
  drain (suc n) r =
      let r' = write_frame r in
      elim (none_left r.peer_buf && none_left r.op_buf) [ true ↦ some r | false ↦ drain n r' ]

  unfoldable pub close : ℕ → WavRecorder A → Option (WavRecorder A)
  close n r =
      if r.stopped
      then some r
      else and_then (drain n (record r { stopped = true })) (λ r'. some (patched r'))

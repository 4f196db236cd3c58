-- ===== src/Media/Wav/Recording.antt =====
-- A recording from its first sample to Close: what is on disk and what is buffered.
use wa_calls.Base.{
  ap, sym, subst, append-nil, Option, none, some, take, if_cases, false, true, ◌||◌, ◌==◌, ◌+◌, ℕ,
  zero, suc, ◌-◌, ◌*◌, ◌%◌, ◌≤◌, ◌≡◌, refl, Bool, ◌&&◌, List, [], ◌∷◌, ◌++◌, arith, length, drop,
  Gives, and_then-Gives, length-append, length-drop, Bool-cases, inl, inr, ◌∙◌,
}
use wa_calls.Bytes.{u32, IsU32}
use wa_calls.Media.Wav.Parse.{parsed, pcm_words, parse_wav_strict}
use wa_calls.Media.Wav.RoundTrip.{parse_file}
use wa_calls.Media.Wav.Recorder.{
  WavRecorder, new_wav_recorder, fed, write_peer, write_operator, none_left, mixed, frame_written,
  write_mix, contents, write_frame, tick, drain, patched, close, rec_max_buffered,
}

-- The bytes of the file are those of whole samples, which are counted as a uint32, and, where a write
-- has failed, what it had written until then.
pub record IsWritten (body : List ℕ) (data_len : ℕ) (write_err : Bool) : Type 0 where
  pub samples : List ℕ
  pub torn : List ℕ
  pub parts : body ≡ samples ++ torn
  pub whole_samples : length samples % 2 ≡ 0
  pub counted : data_len ≡ u32 (length samples)
  pub unbroken : write_err ≡ false → torn ≡ []

abbrev nothing_written : IsWritten [] 0 false
nothing_written = record {
  samples = [];
  torn = [];
  parts = refl;
  whole_samples = refl;
  counted = refl;
  unbroken = λ e. refl;
}

-- Where no write has failed, the file is its whole samples.
unbroken-samples :
    (body : List ℕ) (n : ℕ) (e : Bool) (w : IsWritten body n e) → e ≡ false → body ≡ w.samples
unbroken-samples body n e w ok =
    w.parts ∙ ap (λ t. w.samples ++ t) (w.unbroken ok) ∙ append-nil w.samples

unbroken-IsWritten :
    (body : List ℕ) (n : ℕ) (e : Bool)
    → IsWritten body n e
    → e ≡ false
    → (length body % 2 ≡ 0) × (n ≡ u32 (length body))
unbroken-IsWritten body n e w ok = rw (unbroken-samples body n e w ok) (w.whole_samples, w.counted)

write-IsWritten :
    (body bytes : List ℕ) (n : ℕ)
    → IsWritten body n false
    → length bytes % 2 ≡ 0
    → IsWritten (body ++ bytes) (u32 (n + length bytes)) false
write-IsWritten body bytes n w even =
    let (whole, counted) = unbroken-IsWritten body n false w refl in
    record {
      samples = body ++ bytes;
      torn = [];
      parts = sym (append-nil (body ++ bytes));
      whole_samples = omega (arith, whole, even, length-append body bytes);
      counted = omega (arith, counted, length-append body bytes);
      unbroken = λ e. refl;
    }

tear-IsWritten :
    (body part : List ℕ) (n : ℕ) → IsWritten body n false → IsWritten (body ++ part) n true
tear-IsWritten body part n w =
    let (whole, counted) = unbroken-IsWritten body n false w refl in
    record {
      samples = body;
      torn = part;
      parts = refl;
      whole_samples = whole;
      counted = counted;
      unbroken = λ e. absurd (ground arith);
    }

module _ {A : Type 0} where
  -- What is on the file, and no leg holds more than two seconds.
  pub record IsRecording (r : WavRecorder A) : Type 0 where
    pub on_file : IsWritten r.body r.data_len r.write_err
    pub peer_bounded : length r.peer_buf ≤ rec_max_buffered
    pub op_bounded : length r.op_buf ≤ rec_max_buffered

  -- After Close: nothing is buffered, and where no write has failed the header counts the samples.
  pub record IsFinished (r : WavRecorder A) : Type 0 where
    pub recording : IsRecording r
    pub is_stopped : r.stopped ≡ true
    pub no_peer : r.peer_buf ≡ []
    pub no_operator : r.op_buf ≡ []
    pub header : r.write_err ≡ false → r.header_len ≡ u32 (length r.body)

  length-fed : (buf pcm : List A) → length (fed buf pcm) ≤ rec_max_buffered
  length-fed buf pcm =
      ground (arith, length-drop (length (buf ++ pcm) - rec_max_buffered) (buf ++ pcm))

  write_peer-IsRecording :
      (r : WavRecorder A) (pcm : List A) → IsRecording r → IsRecording (write_peer r pcm)
  unfolding write_peer
  write_peer-IsRecording r [] h = h
  write_peer-IsRecording r (s ∷ pcm) h = ground (arith, length-fed r.peer_buf (s ∷ pcm))

  write_operator-IsRecording :
      (r : WavRecorder A) (pcm : List A) → IsRecording r → IsRecording (write_operator r pcm)
  unfolding write_operator
  write_operator-IsRecording r [] h = h
  write_operator-IsRecording r (s ∷ pcm) h = ground (arith, length-fed r.op_buf (s ∷ pcm))

  write_peer_stopped : (r : WavRecorder A) (pcm : List A) → (write_peer r pcm).stopped ≡ r.stopped
  unfolding write_peer
  write_peer_stopped r [] = refl
  write_peer_stopped r (s ∷ pcm) = ground arith

  write_operator_stopped :
      (r : WavRecorder A) (pcm : List A) → (write_operator r pcm).stopped ≡ r.stopped
  unfolding write_operator
  write_operator_stopped r [] = refl
  write_operator_stopped r (s ∷ pcm) = ground arith

-- What happens to a recorder before Close.
pub data Input (A : Type 0) : Type 0 where
  from_peer from_operator : List A → Input A
  on_tick : Input A

module _ {A : Type 0} (mix : Option A → Option A → ℕ) (fails_after : ℕ → Option ℕ) where
  mixed_even : (peer op : List A) → length (mixed mix fails_after peer op) % 2 ≡ 0
  mixed_even [] [] = refl
  mixed_even (p ∷ peer) [] = omega (arith, mixed_even peer [])
  mixed_even [] (o ∷ op) = omega (arith, mixed_even [] op)
  mixed_even (p ∷ peer) (o ∷ op) = omega (arith, mixed_even peer op)

  frame_written-rest :
      (r : WavRecorder A) (bytes : List ℕ) (failure : Option ℕ)
      → let r' = frame_written r bytes failure in
        (r'.peer_buf ≡ r.peer_buf) × (r'.op_buf ≡ r.op_buf) × (r'.stopped ≡ r.stopped)
  frame_written-rest r bytes none = (refl, refl, refl)
  frame_written-rest r bytes (some k) = (refl, refl, refl)

  frame_written-IsRecording :
      (r : WavRecorder A) (bytes : List ℕ) (failure : Option ℕ)
      → IsRecording r
      → r.write_err ≡ false
      → length bytes % 2 ≡ 0
      → IsRecording (frame_written r bytes failure)
  frame_written-IsRecording r bytes none h ok even = record {
    on_file =
        subst (λ e. IsWritten (r.body ++ bytes) (u32 (r.data_len + length bytes)) e) (sym ok)
          (write-IsWritten r.body bytes r.data_len
            (subst (λ e. IsWritten r.body r.data_len e) ok h.on_file) even);
    peer_bounded = h.peer_bounded;
    op_bounded = h.op_bounded;
  }
  frame_written-IsRecording r bytes (some k) h ok even = record {
    on_file =
        tear-IsWritten r.body (take k bytes) r.data_len
          (subst (λ e. IsWritten r.body r.data_len e) ok h.on_file);
    peer_bounded = h.peer_bounded;
    op_bounded = h.op_bounded;
  }

  write_mix-IsRecording :
      (r : WavRecorder A) (peer op : List A)
      → IsRecording r
      → let r' = write_mix mix fails_after r peer op in
        IsRecording r'
        × (r'.peer_buf ≡ r.peer_buf)
        × (r'.op_buf ≡ r.op_buf)
        × (r'.stopped ≡ r.stopped)
  unfolding write_mix
  write_mix-IsRecording r peer op h =
      if_cases Kept (length bytes == 0 || r.write_err) r _ (λ _. (h, refl, refl, refl))
        (λ on.
          let (peer_same, op_same, stop_same) =
            frame_written-rest r bytes (fails_after (length r.body)) in
          (
            frame_written-IsRecording r bytes (fails_after (length r.body)) h (ground (arith, on))
                (mixed_even peer op),
            peer_same,
            op_same,
            stop_same,
          ))
    where
      bytes : List ℕ
      bytes = mixed mix fails_after peer op

      Kept : WavRecorder A → Type 0
      Kept r' =
          IsRecording r'
          × (r'.peer_buf ≡ r.peer_buf)
          × (r'.op_buf ≡ r.op_buf)
          × (r'.stopped ≡ r.stopped)

  write_frame-IsRecording :
      (r : WavRecorder A)
      → IsRecording r
      → let r' = write_frame mix fails_after r in
        IsRecording r'
        × (r'.peer_buf ≡ drop 320 r.peer_buf)
        × (r'.op_buf ≡ drop 320 r.op_buf)
        × (r'.stopped ≡ r.stopped)
  unfolding write_frame
  write_frame-IsRecording r h =
      write_mix-IsRecording
        (record r { peer_buf = drop 320 r.peer_buf; op_buf = drop 320 r.op_buf })
        (take 320 r.peer_buf) (take 320 r.op_buf)
        (record {
          on_file = h.on_file;
          peer_bounded = omega (arith, h.peer_bounded, length-drop 320 r.peer_buf);
          op_bounded = omega (arith, h.op_bounded, length-drop 320 r.op_buf);
        })

  tick-IsRecording : (r : WavRecorder A) → IsRecording r → IsRecording (tick mix fails_after r)
  unfolding tick
  tick-IsRecording r h =
      if_cases IsRecording (none_left r.peer_buf && none_left r.op_buf) r
        (write_frame mix fails_after r) (λ _. h) (λ _. (write_frame-IsRecording r h).0)

  -- What the pump leaves once Close has stopped the recorder.
  record IsDrained (r : WavRecorder A) : Type 0 where
    recording : IsRecording r
    is_stopped : r.stopped ≡ true
    no_peer : r.peer_buf ≡ []
    no_operator : r.op_buf ≡ []

  empty_legs :
      (peer op : List A) → (none_left peer && none_left op) ≡ true → (peer ≡ []) × (op ≡ [])
  empty_legs [] [] e = (refl, refl)
  empty_legs [] (o ∷ op) e = absurd (ground arith)
  empty_legs (p ∷ peer) op e = absurd (ground arith)

  no_samples_left :
      (peer op : List A) → length peer ≤ 0 → length op ≤ 0 → (none_left peer && none_left op) ≡ true
  no_samples_left [] [] p q = refl
  no_samples_left [] (o ∷ op) p q = absurd (omega arith)
  no_samples_left (s ∷ peer) op p q = absurd (omega arith)

  drain-IsDrained :
      (n : ℕ) (r : WavRecorder A)
      → IsRecording r
      → r.stopped ≡ true
      → length r.peer_buf ≤ 320 * n
      → length r.op_buf ≤ 320 * n
      → Gives (drain mix fails_after n r) IsDrained
  unfolding drain
  drain-IsDrained zero r h s p q =
      let e = no_samples_left r.peer_buf r.op_buf (omega arith) (omega arith) in
      ground (arith, e, empty_legs r.peer_buf r.op_buf e)
  drain-IsDrained (suc n) r h s p q =
      elim (Bool-cases (none_left r.peer_buf && none_left r.op_buf)) [
        | inl e ↦ ground (arith, e, empty_legs r.peer_buf r.op_buf e)
        | inr e ↦
            let (rec, peer, op, stop) = write_frame-IsRecording r h in
            let rest =
              drain-IsDrained n (write_frame mix fails_after r) rec (stop ∙ s)
                (rw peer (omega (arith, length-drop 320 r.peer_buf)))
                (rw op (omega (arith, length-drop 320 r.op_buf))) in
            ground (arith, e, rest)
      ]

  abbrev pub take_in : WavRecorder A → Input A → WavRecorder A
  take_in r (from_peer pcm) = write_peer r pcm
  take_in r (from_operator pcm) = write_operator r pcm
  take_in r on_tick = tick mix fails_after r

  abbrev pub take_all_in : WavRecorder A → List (Input A) → WavRecorder A
  take_all_in r [] = r
  take_all_in r (i ∷ is) = take_all_in (take_in r i) is

  tick_stopped : (r : WavRecorder A) → IsRecording r → (tick mix fails_after r).stopped ≡ r.stopped
  unfolding tick
  tick_stopped r h =
      if_cases (λ r'. r'.stopped ≡ r.stopped) (none_left r.peer_buf && none_left r.op_buf) r
        (write_frame mix fails_after r) (λ _. refl) (λ _. (write_frame-IsRecording r h).3)

  -- Recording, and not stopped.
  abbrev IsOpen : WavRecorder A → Type 0
  IsOpen r = IsRecording r × (r.stopped ≡ false)

  take_in-IsOpen : (r : WavRecorder A) (i : Input A) → IsOpen r → IsOpen (take_in r i)
  take_in-IsOpen r (from_peer pcm) h =
      (write_peer-IsRecording r pcm h.0, write_peer_stopped r pcm ∙ h.1)
  take_in-IsOpen r (from_operator pcm) h =
      (write_operator-IsRecording r pcm h.0, write_operator_stopped r pcm ∙ h.1)
  take_in-IsOpen r on_tick h = (tick-IsRecording r h.0, tick_stopped r h.0 ∙ h.1)

  take_all_in-IsOpen :
      (r : WavRecorder A) (is : List (Input A)) → IsOpen r → IsOpen (take_all_in r is)
  take_all_in-IsOpen r [] h = h
  take_all_in-IsOpen r (i ∷ is) h = take_all_in-IsOpen (take_in r i) is (take_in-IsOpen r i h)

  patched-IsFinished : (r : WavRecorder A) → IsDrained r → IsFinished (patched r)
  patched-IsFinished r h =
      if_cases IsFinished r.write_err r _
        (λ e. record {
          recording = h.recording;
          is_stopped = h.is_stopped;
          no_peer = h.no_peer;
          no_operator = h.no_operator;
          header = λ ok. absurd (ground (arith, e, ok));
        })
        (λ e. record {
          recording = record {
            on_file = h.recording.on_file;
            peer_bounded = h.recording.peer_bounded;
            op_bounded = h.recording.op_bounded;
          };
          is_stopped = h.is_stopped;
          no_peer = h.no_peer;
          no_operator = h.no_operator;
          header = λ ok. (unbroken-IsWritten r.body r.data_len r.write_err h.recording.on_file e).1;
        })

  closed-IsFinished :
      (r : WavRecorder A)
      → IsRecording r
      → r.stopped ≡ false
      → Gives (close mix fails_after 100 r) IsFinished
  unfolding close
  closed-IsFinished r h s =
      let drained =
        drain-IsDrained 100 (record r { stopped = true })
          (record { on_file = h.on_file; peer_bounded = h.peer_bounded; op_bounded = h.op_bounded })
          refl (omega (arith, h.peer_bounded)) (omega (arith, h.op_bounded)) in
      let patch =
        and_then-Gives IsDrained IsFinished
          (drain mix fails_after 100 (record r { stopped = true })) (λ r'. some (patched r'))
          drained patched-IsFinished in
      ground (arith, s, patch)

  -- On a file that can be created and whose header can be written: whatever the two legs and the clock do,
  -- and whichever write of samples fails and wherever in it, Close ends within a hundred rounds of its
  -- drain. Then nothing is left in the buffers; the file has whole samples, the bytes of which are counted
  -- modulo 2^32, and behind them what a failed write left; and, if no write has failed, nothing is behind
  -- them and the header has their count.
  pub recording-IsFinished :
      (is : List (Input A))
      → Gives (close mix fails_after 100 (take_all_in new_wav_recorder is)) IsFinished
  recording-IsFinished is =
      let new : IsRecording new_wav_recorder = record {
        on_file = nothing_written;
        peer_bounded = omega arith;
        op_bounded = omega arith;
      } in
      let (recording, open_yet) = take_all_in-IsOpen new_wav_recorder is (new, refl) in
      closed-IsFinished (take_all_in new_wav_recorder is) recording open_yet

-- A finished recording whose samples a WAV file can count, of one sample or more and with no failed
-- write, is a file that ParseWavStrict accepts, with the samples that were written.
pub recording-Parsed :
    {A : Type 0} (k : ℕ) (r : WavRecorder A)
    → IsFinished r
    → r.write_err ≡ false
    → 2 ≤ length r.body
    → IsU32 (length r.body)
    → parse_wav_strict (suc (suc (suc k))) (contents r)
      ≡ some (
          parsed (record {
            channels = 1;
            sample_rate = 16000;
            bit_depth = 16;
            samples = pcm_words r.body;
          }))
recording-Parsed k r f ok some_samples small =
    let count : r.header_len ≡ length r.body = omega (arith, f.header ok) in
    let (whole, counted) =
      unbroken-IsWritten r.body r.data_len r.write_err f.recording.on_file ok in
    rw count (parse_file k (length r.body) r.body refl small whole some_samples)

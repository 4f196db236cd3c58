-- ===== src/Media/Srtp/Stream.antt =====
-- A sender and a receiver that have the same keys, over packets that arrive in the order sent.
use wa_calls.Base.{
  ℕ, ◌+◌, ◌≤◌, ◌<◌, ◌≡◌, ◌≢◌, refl, ap, ◌∙◌, true, false, some, List, [], ◌∷◌, arith, length, map,
}
use wa_calls.Bytes.{u16, IsU16}
use wa_calls.Media.Rtp.HeaderTrip.{IsWellFormed}
use wa_calls.Media.Rtp.Packet.{RtpPacket}
use wa_calls.Media.Srtp.Context.{
  SrtpContext, update_roc, estimate_roc, commit_roc, replay_check, replay_update, index_of,
}
use wa_calls.Media.Srtp.Protect.{
  Crypto, SrtpResult, ok, err, panics, protect, unprotect, generate_iv,
}
use wa_calls.Media.Srtp.RoundTrip.{SameKeys, after_receive, sent_index, unprotect-protect}
use wa_calls.Media.Srtp.Rollover.{last_index, index_of_lem}

-- The receiver has counted what the sender has.
pub record InStep (s r : SrtpContext) : Type 0 where
  pub keys : SameKeys s r
  pub roc_same : s.roc ≡ r.roc
  pub seq_same : s.last_seq ≡ r.last_seq
  pub started_same : s.initialized ≡ r.initialized
  pub seen_same : r.replay_seen ≡ s.initialized
  pub seq_fits : IsU16 s.last_seq
  pub highest_last : s.initialized ≡ true → r.replay_highest ≡ last_index r
  pub fresh_roc : s.initialized ≡ false → s.roc ≡ 0

-- The sequence number is the one after the last, or any at the start.
abbrev IsNext : SrtpContext → ℕ → Type 0
IsNext s seq = (s.initialized ≡ true → seq ≡ u16 (s.last_seq + 1)) × IsU16 seq

estimate-InStep :
    (s r : SrtpContext) (seq : ℕ)
    → InStep s r
    → IsNext s seq
    → s.roc < 4294967295
    → estimate_roc r seq ≡ (update_roc s seq).roc
unfolding estimate_roc update_roc
estimate-InStep s r seq h n room = ground (arith, h, n)

fresh-InStep :
    (s r : SrtpContext) (seq : ℕ)
    → InStep s r
    → IsNext s seq
    → s.roc < 4294967295
    → replay_check r (index_of (update_roc s seq).roc seq) ≡ true
fresh-InStep s r seq h n room =
    rw (index_of_lem (update_roc s seq).roc seq (unfold update_roc in ground arith) n.1)
      (unfold update_roc replay_check in ground (arith, h, n))

commit-InStep :
    (s r : SrtpContext) (seq : ℕ)
    → InStep s r
    → IsNext s seq
    → s.roc < 4294967295
    → InStep (update_roc s seq) (
        replay_update
          (commit_roc r (update_roc s seq).roc seq)
          (index_of (update_roc s seq).roc seq))
commit-InStep s r seq h n room =
    rw (index_of_lem (update_roc s seq).roc seq (unfold update_roc in ground arith) n.1)
      (unfold update_roc commit_roc replay_update in ground (arith, h, n))

-- AES takes the key, whatever the initialization vector and the length.
unfoldable pub Accepts : Crypto → List ℕ → Type 0
Accepts crypto key =
    (iv : List ℕ) (n : ℕ) → (ks : List ℕ) × (Crypto.key_stream crypto key iv n ≡ some ks)

-- What RTP needs of the packets of a stream: headers it can carry, payloads, consecutive numbers.
unfoldable pub IsStream : ℕ → List RtpPacket → Type 0
IsStream seq [] = Unit
IsStream seq (p ∷ ps) =
    IsWellFormed p.header
    × (p.payload ≢ [])
    × (p.header.sequence_number ≡ u16 seq)
    × IsStream (seq + 1) ps

module _ (crypto : Crypto) where
  open crypto use {key_stream}

  -- What comes of Protect, given to the receiver.
  abbrev hand_over : SrtpContext → SrtpResult (List ℕ) → SrtpContext × SrtpResult RtpPacket
  hand_over r (ok d) = unprotect crypto r d
  hand_over r (err e) = (r, err e)
  hand_over r panics = (r, panics)

  -- Each packet is protected by the sender and what comes of it is given to the receiver.
  pub transmit : SrtpContext → SrtpContext → List RtpPacket → List (SrtpResult RtpPacket)
  transmit s r [] = []
  transmit s r (p ∷ ps) =
      (hand_over r (protect crypto s p).1).1
      ∷ transmit (protect crypto s p).0 (hand_over r (protect crypto s p).1).0 ps

  transmit_step :
      (s r s' r' : SrtpContext) (p : RtpPacket) (ps : List RtpPacket) (d : List ℕ)
      → protect crypto s p ≡ (s', ok d)
      → unprotect crypto r d ≡ (r', ok p)
      → transmit s r (p ∷ ps) ≡ ok p ∷ transmit s' r' ps
  unfolding transmit
  transmit_step s r s' r' p ps d e f = rw e (rw f refl)

  -- One packet: what it leaves of the hypotheses for the rest.
  after_one :
      (s r : SrtpContext) (p : RtpPacket)
      → InStep s r
      → IsNext s p.header.sequence_number
      → (s.roc < 4294967295)
      → let s' = update_roc s p.header.sequence_number in
        let r' = after_receive r p s'.roc in
        (s'.initialized ≡ true)
        × (s'.last_seq ≡ p.header.sequence_number)
        × (r'.auth_tag_len ≡ r.auth_tag_len)
        × (r'.session_key ≡ r.session_key)
        × (s'.roc ≤ s.roc + 1)
  after_one s r p h n room = unfold update_roc commit_roc replay_update in ground (arith, h, n)

  pub transmit-InStep :
      (s r : SrtpContext) (seq : ℕ) (ps : List RtpPacket)
      → InStep s r
      → (s.initialized ≡ true → u16 seq ≡ u16 (s.last_seq + 1))
      → r.auth_tag_len ≤ 20
      → Accepts crypto r.session_key
      → s.roc + length ps < 4294967295
      → IsStream seq ps
      → transmit s r ps ≡ map ok ps
  unfolding IsStream Accepts
  transmit-InStep s r seq [] h next small takes room stream = unfold transmit in refl
  transmit-InStep s r seq (p ∷ ps) h next small takes room (w, some_payload, num, stream) =
      let s' = update_roc s p.header.sequence_number in
      let r' = after_receive r p s'.roc in
      let n : IsNext s p.header.sequence_number = (λ i. num ∙ next i, w.sequence_fits) in
      let space : s.roc < 4294967295 = omega arith in
      let (ks, e) =
        takes (generate_iv r.session_salt p.header.ssrc (sent_index s p)) (length p.payload) in
      let (d, sent, received) =
        unprotect-protect crypto s r p ks h.keys w small some_payload e
          (estimate-InStep s r p.header.sequence_number h n space)
          (fresh-InStep s r p.header.sequence_number h n space) in
      let (on, last, tag, key, grown) = after_one s r p h n space in
      transmit_step s r s' r' p ps d sent received
      ∙ ap (λ rest. ok p ∷ rest)
          (transmit-InStep s' r' (seq + 1) ps (commit-InStep s r p.header.sequence_number h n space)
            (λ i. rw (last, num) (omega arith)) (rw tag small) (rw key takes) (omega arith) stream)

-- ===== src/Media/Srtp/RoundTrip.antt =====
-- What Protect sends, Unprotect of a receiver with the same keys returns.
use wa_calls.Base.{
  ℕ, ◌+◌, ◌-◌, ◌≤◌, ◌≡◌, ◌≢◌, ap, ◌∙◌, true, false, some, List, [], ◌++◌, append_assoc, arith, ltb,
  leb, length, take, drop, length-append, take_front, drop_front,
}
use wa_calls.Bytes.{xor_bytes}
use wa_calls.Media.Rtp.Header.{size, Result, decode_rtp_header}
use wa_calls.Media.Rtp.HeaderTrip.{
  IsWellFormed, header_bytes, length-header_bytes, decode-header_bytes,
}
use wa_calls.Media.Rtp.Packet.{RtpPacket}
use wa_calls.Media.Srtp.Context.{
  SrtpContext, update_roc, estimate_roc, packet_index, index_of, replay_check, commit_roc,
  replay_update,
}
use wa_calls.Media.Srtp.Protect.{
  commit, Crypto, ok, generate_iv, aes_ctr_xor, compute_auth_tag, protect, unprotect, authenticate,
  check_packet,
}
use wa_calls.Media.Srtp.Datagram.{
  length-xor_bytes, xor_bytes_twice, bytes_equal_self, length-pos, aes_lem, protect_lem, tag_length,
  length-covered, datagram,
}

-- The index that a sender gives a packet.
abbrev pub sent_index : SrtpContext → RtpPacket → ℕ
sent_index s p = index_of (update_roc s p.header.sequence_number).roc p.header.sequence_number

-- The receiver once it has accepted a packet under the counter `roc`.
abbrev pub after_receive : SrtpContext → RtpPacket → ℕ → SrtpContext
after_receive r p roc =
    replay_update (commit_roc r roc p.header.sequence_number)
      (index_of roc p.header.sequence_number)

-- The keys that two contexts share.
pub record SameKeys (s r : SrtpContext) : Type 0 where
  pub same_key : s.session_key ≡ r.session_key
  pub same_salt : s.session_salt ≡ r.session_salt
  pub same_auth : s.auth_key ≡ r.auth_key
  pub same_tag : s.auth_tag_len ≡ r.auth_tag_len

module _ (crypto : Crypto) where
  open crypto use {hmac_sha1, key_stream, hmac_length}

  check_packet_lem :
      (r : SrtpContext) (p : RtpPacket) (ks : List ℕ)
      → IsWellFormed p.header
      → r.auth_tag_len ≤ 20
      → p.payload ≢ []
      → let roc = estimate_roc r p.header.sequence_number in
        replay_check r (index_of roc p.header.sequence_number) ≡ true
        → check_packet crypto r (datagram crypto r p roc ks) p.header
          ≡ ok (record { header = p.header; body = xor_bytes p.payload ks; roc = roc })
  unfolding check_packet
  check_packet_lem r p ks w small some_payload fresh =
      rw (long_enough, fresh, covered, tag, bytes_equal_self, body)
    where
      roc : ℕ
      roc = estimate_roc r p.header.sequence_number

      front : List ℕ
      front = header_bytes p.header ++ xor_bytes p.payload ks

      back : List ℕ
      back = compute_auth_tag crypto r front roc

      cut : length (front ++ back) - r.auth_tag_len ≡ length front
      cut = omega (arith, length-append front back, tag_length crypto r front roc small)

      long_enough : leb (length (front ++ back)) (size p.header + r.auth_tag_len) ≡ false
      long_enough = ground (
        arith,
        length-append front back,
        tag_length crypto r front roc small,
        length-covered crypto p ks w,
        length-pos p.payload some_payload,
      )

      covered : take (length (front ++ back) - r.auth_tag_len) (front ++ back) ≡ front
      covered = rw cut (take_front front back)

      tag : drop (length (front ++ back) - r.auth_tag_len) (front ++ back) ≡ back
      tag = rw cut (drop_front front back)

      body : drop (size p.header) front ≡ xor_bytes p.payload ks
      body =
          rw (← length-header_bytes p.header w)
            (drop_front (header_bytes p.header) (xor_bytes p.payload ks))

  authenticate_lem :
      (r : SrtpContext) (p : RtpPacket) (ks : List ℕ)
      → IsWellFormed p.header
      → r.auth_tag_len ≤ 20
      → p.payload ≢ []
      → let roc = estimate_roc r p.header.sequence_number in
        replay_check r (index_of roc p.header.sequence_number) ≡ true
        → authenticate crypto r (datagram crypto r p roc ks)
          ≡ ok (record { header = p.header; body = xor_bytes p.payload ks; roc = roc })
  unfolding authenticate
  authenticate_lem r p ks w small some_payload fresh =
      rw (decoded, long_enough) (check_packet_lem r p ks w small some_payload fresh)
    where
      roc : ℕ
      roc = estimate_roc r p.header.sequence_number

      decoded : decode_rtp_header (datagram crypto r p roc ks) ≡ Result.ok p.header
      decoded =
          rw (append_assoc (header_bytes p.header) (xor_bytes p.payload ks))
            (decode-header_bytes p.header _ w)

      long_enough : ltb (length (datagram crypto r p roc ks)) 12 ≡ false
      long_enough =
          unfold size in
          ground (
            arith,
            length-append (header_bytes p.header ++ xor_bytes p.payload ks)
                (compute_auth_tag crypto r (header_bytes p.header ++ xor_bytes p.payload ks) roc),
            length-covered crypto p ks w,
          )

  SameKeys-update_roc : (s r : SrtpContext) (seq : ℕ) → SameKeys s r → SameKeys (update_roc s seq) r
  unfolding update_roc
  SameKeys-update_roc s r seq k = ground arith

  datagram_same :
      (s r : SrtpContext) (p : RtpPacket) (roc : ℕ) (ks : List ℕ)
      → SameKeys s r
      → datagram crypto s p roc ks ≡ datagram crypto r p roc ks
  unfolding compute_auth_tag
  datagram_same s r p roc ks k = rw (k.same_auth, k.same_tag)

  unprotect_lem :
      (r : SrtpContext) (p : RtpPacket) (ks : List ℕ)
      → IsWellFormed p.header
      → r.auth_tag_len ≤ 20
      → p.payload ≢ []
      → let roc = estimate_roc r p.header.sequence_number in
        let index = index_of roc p.header.sequence_number in
        replay_check r index ≡ true
        → key_stream r.session_key
            (generate_iv r.session_salt p.header.ssrc index)
            (length p.payload)
          ≡ some ks
        → unprotect crypto r (datagram crypto r p roc ks) ≡ (after_receive r p roc, ok p)
  unfolding unprotect commit
  unprotect_lem r p ks w small some_payload fresh e =
      rw (authenticate_lem r p ks w small some_payload fresh, unprotect) (rw (opened, unprotect))
    where
      stream :
          key_stream r.session_key
            (generate_iv r.session_salt p.header.ssrc
              (index_of (estimate_roc r p.header.sequence_number) p.header.sequence_number))
            (length (xor_bytes p.payload ks))
          ≡ some ks
      stream = rw (length-xor_bytes p.payload ks) e

      opened :
          aes_ctr_xor crypto r.session_key
            (generate_iv r.session_salt p.header.ssrc
              (index_of (estimate_roc r p.header.sequence_number) p.header.sequence_number))
            (xor_bytes p.payload ks)
          ≡ some p.payload
      opened = aes_lem crypto _ _ _ ks stream ∙ ap some (xor_bytes_twice p.payload ks)

  -- Unprotect returns the packet that Protect was given, and advances the receiver by commitRoc
  -- and replayUpdate, when the two contexts hold the same keys,
  -- the header is well formed, the payload is not empty, the cipher takes the key, the receiver's
  -- rollover estimate is the sender's counter, and the index has not been accepted before.
  pub unprotect-protect :
      (s r : SrtpContext) (p : RtpPacket) (ks : List ℕ)
      → SameKeys s r
      → IsWellFormed p.header
      → r.auth_tag_len ≤ 20
      → p.payload ≢ []
      → key_stream r.session_key
          (generate_iv r.session_salt p.header.ssrc (sent_index s p))
          (length p.payload)
        ≡ some ks
      → estimate_roc r p.header.sequence_number ≡ (update_roc s p.header.sequence_number).roc
      → replay_check r (sent_index s p) ≡ true
      → (d : List ℕ) × (protect crypto s p ≡ (update_roc s p.header.sequence_number, ok d))
        × (unprotect crypto r d
            ≡ (after_receive r p (update_roc s p.header.sequence_number).roc, ok p))
  unprotect-protect s r p ks same w small some_payload e synced fresh =
      (datagram crypto r p s'.roc ks, sent, received)
    where
      s' : SrtpContext
      s' = update_roc s p.header.sequence_number

      same' : SameKeys s' r
      same' = SameKeys-update_roc s r p.header.sequence_number same

      sent : protect crypto s p ≡ (s', ok (datagram crypto r p s'.roc ks))
      sent =
          protect_lem crypto s p ks w
            (unfold packet_index in rw (same'.same_key, same'.same_salt) e)
          ∙ ap (λ (d : List ℕ). (s', ok d)) (datagram_same s' r p s'.roc ks same')

      received :
          unprotect crypto r (datagram crypto r p s'.roc ks) ≡ (after_receive r p s'.roc, ok p)
      received =
          rw (← synced) (unprotect_lem r p ks w small some_payload (rw synced fresh) (rw synced e))

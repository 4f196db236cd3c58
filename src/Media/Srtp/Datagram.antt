-- ===== src/Media/Srtp/Datagram.antt =====
-- The datagram that Protect writes.
use wa_calls.Base.{
  ℕ, suc, ◌+◌, ◌≤◌, ◌<◌, ◌≡◌, ◌≢◌, refl, ap, true, false, some, List, [], ◌∷◌, ◌++◌, arith, ltb,
  length, take, length-append, length-replicate, length-take, take_front,
}
use wa_calls.Base.Bits.{bit_xor_twice}
use wa_calls.Bytes.{xor_bytes, zeros, put_u32}
use wa_calls.Media.Rtp.Header.{size}
use wa_calls.Media.Rtp.HeaderTrip.{IsWellFormed, header_bytes, length-header_bytes, encode_lem}
use wa_calls.Media.Rtp.Packet.{RtpPacket}
use wa_calls.Media.Srtp.Context.{SrtpContext, update_roc, packet_index}
use wa_calls.Media.Srtp.Protect.{
  Crypto, SrtpResult, ok, bytes_equal, generate_iv, aes_ctr_xor, compute_auth_tag, protect, seal,
}

pub length-xor_bytes : (xs ks : List ℕ) → length (xor_bytes xs ks) ≡ length xs
unfolding xor_bytes
length-xor_bytes [] ks = refl
length-xor_bytes (x ∷ xs) [] = refl
length-xor_bytes (x ∷ xs) (k ∷ ks) = ap suc (length-xor_bytes xs ks)

-- The same key stream twice gives back the bytes.
pub xor_bytes_twice : (xs ks : List ℕ) → xor_bytes (xor_bytes xs ks) ks ≡ xs
unfolding xor_bytes
xor_bytes_twice [] ks = refl
xor_bytes_twice (x ∷ xs) [] = refl
xor_bytes_twice (x ∷ xs) (k ∷ ks) = rw (bit_xor_twice x k, xor_bytes_twice xs ks)

pub bytes_equal_self : (xs : List ℕ) → bytes_equal xs xs ≡ true
unfolding bytes_equal
bytes_equal_self [] = refl
bytes_equal_self (x ∷ xs) = ground (arith, bytes_equal_self xs)

pub length-pos : (xs : List ℕ) → xs ≢ [] → 0 < length xs
length-pos [] h = absurd (h refl)
length-pos (x ∷ xs) h = omega arith

module _ (crypto : Crypto) where
  open crypto use {hmac_sha1, key_stream, hmac_length}

  -- The header's bytes, the payload under the key stream, and the tag over both.
  abbrev pub datagram : SrtpContext → RtpPacket → ℕ → List ℕ → List ℕ
  datagram c p roc ks =
      (header_bytes p.header ++ xor_bytes p.payload ks)
      ++ compute_auth_tag crypto c (header_bytes p.header ++ xor_bytes p.payload ks) roc

  pub aes_lem :
      (key iv src ks : List ℕ)
      → key_stream key iv (length src) ≡ some ks
      → aes_ctr_xor crypto key iv src ≡ some (xor_bytes src ks)
  unfolding aes_ctr_xor
  aes_lem key iv src ks e = ground arith

  seal_lem :
      (c : SrtpContext) (p : RtpPacket) (index : ℕ) (head cipher : List ℕ)
      → aes_ctr_xor crypto c.session_key (generate_iv c.session_salt p.header.ssrc index) p.payload
        ≡ some cipher
      → seal crypto c p index head
        ≡ ok ((head ++ cipher) ++ compute_auth_tag crypto c (head ++ cipher) c.roc)
  unfolding seal
  seal_lem c p index head cipher e = rw (e, seal)

  pub protect_lem :
      (c : SrtpContext) (p : RtpPacket) (ks : List ℕ)
      → IsWellFormed p.header
      → let c' = update_roc c p.header.sequence_number in
        key_stream c'.session_key
            (generate_iv c'.session_salt p.header.ssrc (packet_index c' p.header.sequence_number))
            (length p.payload)
          ≡ some ks
        → protect crypto c p ≡ (c', ok (datagram c' p c'.roc ks))
  unfolding protect
  protect_lem c p ks w e =
      rw
        (
          encode_lem p.header (zeros (size p.header + length p.payload + c.auth_tag_len)) w,
          enough,
          written,
        )
        (ap (λ (r : SrtpResult (List ℕ)). (update_roc c p.header.sequence_number, r))
          (seal_lem _ p _ (header_bytes p.header) _ (aes_lem _ _ p.payload ks e)))
    where
      enough :
          ltb (length (zeros (size p.header + length p.payload + c.auth_tag_len))) (size p.header)
          ≡ false
      enough =
          ground
            (arith, length-replicate {A = ℕ} (size p.header + length p.payload + c.auth_tag_len) 0)

      written :
          (rest : List ℕ)
          → take (size p.header) (header_bytes p.header ++ rest) ≡ header_bytes p.header
      written rest = rw (← length-header_bytes p.header w) (take_front (header_bytes p.header) rest)

  pub tag_length :
      (c : SrtpContext) (message : List ℕ) (roc : ℕ)
      → c.auth_tag_len ≤ 20
      → length (compute_auth_tag crypto c message roc) ≡ c.auth_tag_len
  unfolding compute_auth_tag
  tag_length c message roc h = omega (
    arith,
    length-take c.auth_tag_len (hmac_sha1 c.auth_key (message ++ put_u32 roc)),
    hmac_length c.auth_key (message ++ put_u32 roc),
  )

  pub length-covered :
      (p : RtpPacket) (ks : List ℕ)
      → IsWellFormed p.header
      → length (header_bytes p.header ++ xor_bytes p.payload ks) ≡ size p.header + length p.payload
  length-covered p ks w = omega (
    arith,
    length-append (header_bytes p.header) (xor_bytes p.payload ks),
    length-header_bytes p.header w,
    length-xor_bytes p.payload ks,
  )

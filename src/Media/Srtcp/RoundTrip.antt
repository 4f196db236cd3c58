-- ===== src/Media/Srtcp/RoundTrip.antt =====
-- What Protect of srtcp.go sends, Unprotect returns.
use native.Mathlib.Nat.{div-div-eq-div-mul, pow-suc}
use wa_calls.Base.{
  ℕ, zero, suc, ◌+◌, ◌-◌, ◌*◌, ◌/◌, ◌%◌, ◌^◌, ◌≤◌, ◌<◌, ◌≡◌, refl, sym, ap, ◌∙◌, true, false, some,
  List, [], ◌∷◌, ◌++◌, append_assoc, arith, ltb, ◌==◌, length, take, drop, length-append,
  length-take, take_at, drop_at, take-append-drop, bit_and, bit_or,
}
use wa_calls.Base.Bits.{bit_at, bit_and_one_bit, bit_and_mask, bit_or_fields}
use wa_calls.Bytes.{put_u32, get_u32, xor_bytes, IsU32, get-put_u32}
use wa_calls.Media.Srtp.Protect.{Crypto, ok, bytes_equal}
use wa_calls.Media.Srtp.Datagram.{length-xor_bytes, xor_bytes_twice, bytes_equal_self, aes_lem}
use wa_calls.Media.Srtp.Stream.{Accepts}
use wa_calls.Media.Srtcp.Context.{
  SrtcpContext, srtcp_iv, srtcp_tag, srtcp_crypt, srtcp_sealed, srtcp_protect, srtcp_open,
  srtcp_finish, srtcp_unprotect,
}

bit_at_lem : (n k : ℕ) → bit_at n k ≡ n / 2 ^ k % 2
unfolding bit_at
bit_at_lem n zero = omega arith
bit_at_lem n (suc k) =
    let e : 2 ^ suc k ≡ 2 * 2 ^ k = omega (arith, pow-suc 2 k) in
    rw (bit_at_lem (n / 2) k, div-div-eq-div-mul n 2 (2 ^ k), e) refl

-- The word that carries the E bit and a 31-bit index.
word_lem :
    (index : ℕ)
    → index ≤ 2147483647
    → let word = bit_or 0x80000000 (bit_and index 0x7fffffff) in
      (word ≡ 2147483648 + index)
      × (bit_and word 0x7fffffff ≡ index)
      × ((bit_and word 0x80000000 == 0) ≡ false)
word_lem index h = (whole, rw whole low, rw whole high)
  where
    kept : bit_and index 2147483647 ≡ index % 2147483648
    kept = bit_and_mask 31 index

    joined : bit_or 2147483648 index ≡ 2147483648 + index
    joined = bit_or_fields 31 1 index (omega arith)

    whole : bit_or 0x80000000 (bit_and index 0x7fffffff) ≡ 2147483648 + index
    whole = let same : bit_and index 2147483647 ≡ index = kept ∙ omega arith in rw same joined

    low : bit_and (2147483648 + index) 0x7fffffff ≡ index
    low = bit_and_mask 31 (2147483648 + index) ∙ omega arith

    flag : bit_and (2147483648 + index) 2147483648 ≡ bit_at (2147483648 + index) 31 * 2147483648
    flag = bit_and_one_bit 31 (2147483648 + index)

    set : bit_at (2147483648 + index) 31 ≡ (2147483648 + index) / 2147483648 % 2
    set = bit_at_lem (2147483648 + index) 31

    high : (bit_and (2147483648 + index) 0x80000000 == 0) ≡ false
    high = ground (arith, flag, set)

-- The header's bytes stand at the front, whatever follows.
header_ssrc :
    (front back : List ℕ)
    → length front ≡ 8
    → get_u32 (drop 4 (front ++ back)) ≡ get_u32 (drop 4 front)
header_ssrc (a ∷ b ∷ c ∷ d ∷ e ∷ f ∷ g ∷ h ∷ []) back eight = refl
header_ssrc [] back eight = absurd (omega arith)
header_ssrc (a ∷ []) back eight = absurd (omega arith)
header_ssrc (a ∷ b ∷ []) back eight = absurd (omega arith)
header_ssrc (a ∷ b ∷ c ∷ []) back eight = absurd (omega arith)
header_ssrc (a ∷ b ∷ c ∷ d ∷ []) back eight = absurd (omega arith)
header_ssrc (a ∷ b ∷ c ∷ d ∷ e ∷ []) back eight = absurd (omega arith)
header_ssrc (a ∷ b ∷ c ∷ d ∷ e ∷ f ∷ []) back eight = absurd (omega arith)
header_ssrc (a ∷ b ∷ c ∷ d ∷ e ∷ f ∷ g ∷ []) back eight = absurd (omega arith)
header_ssrc (a ∷ b ∷ c ∷ d ∷ e ∷ f ∷ g ∷ h ∷ i ∷ r) back eight = absurd (omega arith)

module _ (crypto : Crypto) where
  open crypto use {hmac_sha1, key_stream, hmac_length}

  crypt_some :
      (c : SrtcpContext) (ssrc index : ℕ) (body ks : List ℕ)
      → 0 < length body
      → key_stream c.session_key (srtcp_iv c.session_salt ssrc index) (length body) ≡ some ks
      → srtcp_crypt crypto c ssrc index body ≡ some (xor_bytes body ks)
  crypt_some c ssrc index [] ks some_byte e = absurd (omega arith)
  crypt_some c ssrc index (x ∷ r) ks some_byte e = aes_lem crypto _ _ (x ∷ r) ks e

  -- Enciphering twice under one index gives the bytes back, and keeps their number.
  crypt_twice :
      (c : SrtcpContext) (ssrc index : ℕ) (body : List ℕ)
      → Accepts crypto c.session_key
      → (cipher : List ℕ) × (srtcp_crypt crypto c ssrc index body ≡ some cipher)
        × (srtcp_crypt crypto c ssrc index cipher ≡ some body)
        × (length cipher ≡ length body)
  unfolding Accepts
  crypt_twice c ssrc index [] takes = ([], refl, refl, refl)
  crypt_twice c ssrc index (x ∷ r) takes =
      let (ks, e) = takes (srtcp_iv c.session_salt ssrc index) (length (x ∷ r)) in
      let size = length-xor_bytes (x ∷ r) ks in
      (
        xor_bytes (x ∷ r) ks,
        crypt_some c ssrc index (x ∷ r) ks (omega arith) e,
        crypt_some c ssrc index (xor_bytes (x ∷ r) ks) ks (omega arith) (rw size e)
            ∙ ap some (xor_bytes_twice (x ∷ r) ks),
        size,
      )

  tag_length : (c : SrtcpContext) (covered : List ℕ) → length (srtcp_tag crypto c covered) ≡ 10
  tag_length c covered =
      omega (arith, length-take 10 (hmac_sha1 c.auth_key covered), hmac_length c.auth_key covered)

  -- What Unprotect reads of a sealed packet.
  sealed_parts :
      (c : SrtcpContext) (index : ℕ) (front cipher : List ℕ)
      → length front ≡ 8
      → let word = bit_or 0x80000000 (bit_and index 0x7fffffff) in
        let out = front ++ cipher in
        let d = srtcp_sealed crypto c index out in
        (length d ≡ 22 + length cipher)
        × (take (length d - 10) d ≡ out ++ put_u32 word)
        × (drop (length d - 10) d ≡ srtcp_tag crypto c (out ++ put_u32 word))
        × (drop (length d - 14) d ≡ put_u32 word ++ srtcp_tag crypto c (out ++ put_u32 word))
        × (take (length d - 14) d ≡ out)
        × (take 8 d ≡ front)
        × (get_u32 (drop 4 d) ≡ get_u32 (drop 4 front))
  sealed_parts c index front cipher eight = (
    size,
    take_at _ (out ++ put_u32 word) tag (omega (arith, size, covered)),
    drop_at _ (out ++ put_u32 word) tag (omega (arith, size, covered)),
    ap (drop _) (append_assoc out (put_u32 word) tag)
        ∙ drop_at _ out (put_u32 word ++ tag) (omega (arith, size, outside)),
    ap (take _) (append_assoc out (put_u32 word) tag)
        ∙ take_at _ out (put_u32 word ++ tag) (omega (arith, size, outside)),
    ap (take 8) together ∙ take_at 8 front (cipher ++ (put_u32 word ++ tag)) eight,
    ap (λ d. get_u32 (drop 4 d)) together
        ∙ header_ssrc front (cipher ++ (put_u32 word ++ tag)) eight,
  )
    where
      word : ℕ
      word = bit_or 0x80000000 (bit_and index 0x7fffffff)

      out : List ℕ
      out = front ++ cipher

      tag : List ℕ
      tag = srtcp_tag crypto c (out ++ put_u32 word)

      outside : length out ≡ 8 + length cipher
      outside = length-append front cipher ∙ omega arith

      covered : length (out ++ put_u32 word) ≡ 12 + length cipher
      covered = length-append out (put_u32 word) ∙ omega (arith, outside)

      size : length ((out ++ put_u32 word) ++ tag) ≡ 22 + length cipher
      size =
          length-append (out ++ put_u32 word) tag
          ∙ omega (arith, covered, tag_length c (out ++ put_u32 word))

      together : (out ++ put_u32 word) ++ tag ≡ front ++ (cipher ++ (put_u32 word ++ tag))
      together =
          append_assoc out (put_u32 word) tag ∙ append_assoc front cipher (put_u32 word ++ tag)

  srtcp_protect_lem :
      (c : SrtcpContext) (rtcp cipher : List ℕ) (index : ℕ)
      → 8 ≤ length rtcp
      → srtcp_crypt crypto c (get_u32 (drop 4 rtcp)) index (drop 8 rtcp) ≡ some cipher
      → srtcp_protect crypto c rtcp index ≡ ok (srtcp_sealed crypto c index (take 8 rtcp ++ cipher))
  unfolding srtcp_protect
  srtcp_protect_lem c rtcp cipher index long e =
      let enough : ltb (length rtcp) 8 ≡ false = ground arith in rw (enough, e, srtcp_protect) refl

  srtcp_finish_lem :
      (c : SrtcpContext) (front cipher plain header body : List ℕ) (index ssrc ssrc' word : ℕ)
      → index ≤ 2147483647
      → header ≡ front
      → ssrc' ≡ ssrc
      → word ≡ bit_or 0x80000000 (bit_and index 0x7fffffff)
      → body ≡ cipher
      → srtcp_crypt crypto c ssrc index cipher ≡ some plain
      → srtcp_finish crypto c header ssrc' word body ≡ ok (front ++ plain)
  unfolding srtcp_finish
  srtcp_finish_lem c front cipher plain header body index ssrc ssrc' word small e1 e2 e3 e4 e =
      let (whole, low, set) = word_lem index small in
      let opened : srtcp_open crypto c ssrc (bit_or 0x80000000 (bit_and index 0x7fffffff)) cipher
          ≡ some plain =
        rw (set, low) e in
      rw (e1, e2, e3, e4) (rw (opened, srtcp_finish) refl)

  srtcp_unprotect_lem :
      (c : SrtcpContext) (front cipher plain : List ℕ) (index : ℕ)
      → length front ≡ 8
      → index ≤ 2147483647
      → srtcp_crypt crypto c (get_u32 (drop 4 front)) index cipher ≡ some plain
      → srtcp_unprotect crypto c (srtcp_sealed crypto c index (front ++ cipher))
        ≡ ok (front ++ plain)
  unfolding srtcp_unprotect
  srtcp_unprotect_lem c front cipher plain index eight small e =
      let (size, covered, tag, word_on, out, head, ssrc) =
        sealed_parts c index front cipher eight in
      let (whole, low, set) = word_lem index small in
      let word = bit_or 0x80000000 (bit_and index 0x7fffffff) in
      let d = srtcp_sealed crypto c index (front ++ cipher) in
      let enough : ltb (length d) 22 ≡ false = ground (arith, size) in
      let word_fits : IsU32 word = omega (arith, whole, small) in
      let genuine : bytes_equal (srtcp_tag crypto c (take (length d - 10) d))
            (drop (length d - 10) d)
          ≡ true =
        rw (covered, tag)
          (bytes_equal_self (srtcp_tag crypto c ((front ++ cipher) ++ put_u32 word))) in
      rw (enough, genuine)
        (srtcp_finish_lem c front cipher plain (take 8 d) (drop 8 (take (length d - 14) d)) index
          (get_u32 (drop 4 front)) (get_u32 (drop 4 d)) (get_u32 (drop (length d - 14) d)) small
          head ssrc
          (ap get_u32 word_on
            ∙ get-put_u32 word (srtcp_tag crypto c ((front ++ cipher) ++ put_u32 word)) word_fits)
          (ap (drop 8) out ∙ drop_at 8 front cipher eight) e)

  -- Unprotect returns the RTCP packet that Protect was given, of 8 bytes or more and under an index
  -- of 31 bits, when the cipher takes the key.
  pub srtcp_unprotect-srtcp_protect :
      (c : SrtcpContext) (rtcp : List ℕ) (index : ℕ)
      → 8 ≤ length rtcp
      → index ≤ 2147483647
      → Accepts crypto c.session_key
      → (d : List ℕ) × (srtcp_protect crypto c rtcp index ≡ ok d)
        × (srtcp_unprotect crypto c d ≡ ok rtcp)
  srtcp_unprotect-srtcp_protect c rtcp index long small takes =
      let front = take 8 rtcp in
      let eight : length front ≡ 8 = omega (arith, length-take 8 rtcp) in
      let same : get_u32 (drop 4 rtcp) ≡ get_u32 (drop 4 front) =
        ap (λ b. get_u32 (drop 4 b)) (sym (take-append-drop 8 rtcp))
        ∙ header_ssrc front (drop 8 rtcp) eight in
      let (cipher, there, back, size) =
        crypt_twice c (get_u32 (drop 4 rtcp)) index (drop 8 rtcp) takes in
      (
        srtcp_sealed crypto c index (front ++ cipher),
        srtcp_protect_lem c rtcp cipher index long there,
        srtcp_unprotect_lem c front cipher (drop 8 rtcp) index eight small (rw (← same) back)
            ∙ ap ok (take-append-drop 8 rtcp),
      )

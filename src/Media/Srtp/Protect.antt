-- ===== src/Media/Srtp/Protect.antt =====
-- Protect and Unprotect of srtp.go, and the keying of a context. crypto/aes, crypto/cipher and
-- crypto/hmac are the parameter `Crypto`. An authentication tag has at most the 20 bytes of SHA-1;
-- every caller asks for 4.
use wa_calls.Base.{
  ℕ, ◌+◌, ◌-◌, ◌≡◌, Bool, true, false, not, Option, none, some, List, [], ◌∷◌, ◌++◌, if◌then◌else◌,
  ltb, leb, ◌==◌, length, take, drop, ◌/◌, ◌%◌, ◌&&◌, bit_xor,
}
use mathlib.Core.Option
use wa_calls.Core.{SrtpKeyingMaterial}
use wa_calls.Bytes.{put_u32, slice, zeros, xor_bytes, byte_at}
use wa_calls.Media.Rtp.Header.{RtpHeader, size, encode, decode_rtp_header, Result}
use wa_calls.Media.Rtp.Packet.{RtpPacket}
use wa_calls.Media.Srtp.Context.{
  SrtpContext, SrtpError, packet_too_short, auth_failed, encryption, decryption, replay, update_roc,
  estimate_roc, commit_roc, replay_check, replay_update, packet_index, index_of,
}

-- What the code relies on: HMAC-SHA1 has 20 bytes, and AES-CTR gives as many bytes of key stream as
-- are asked for, or refuses the key.
pub record Crypto : Type 0 where
  pub hmac_sha1 : List ℕ → List ℕ → List ℕ
  pub key_stream : List ℕ → List ℕ → ℕ → Option (List ℕ)
  pub hmac_length : (key message : List ℕ) → length (hmac_sha1 key message) ≡ 20
  pub stream_length :
      (key iv : List ℕ) (n : ℕ) (ks : List ℕ) → key_stream key iv n ≡ some ks → length ks ≡ n

pub data SrtpResult {ℓ} (A : Type ℓ) : Type ℓ where
  ok : A → SrtpResult A
  err : SrtpError → SrtpResult A
  panics : SrtpResult A

-- Equality of byte slices, as hmac.Equal.
unfoldable pub bytes_equal : List ℕ → List ℕ → Bool
bytes_equal [] [] = true
bytes_equal (x ∷ xs) (y ∷ ys) = x == y && bytes_equal xs ys
bytes_equal _ _ = false

-- The low 48 bits of an index, most significant byte first: idxBuf[2:8].
abbrev pub put_u48 : ℕ → List ℕ
put_u48 n = (n / 1099511627776 % 256) ∷ (n / 4294967296 % 256) ∷ put_u32 n

-- generateIV, over the session salt.
pub generate_iv : List ℕ → ℕ → ℕ → List ℕ
generate_iv salt ssrc index =
    take 4 salt
    ++ (xor_bytes (slice salt 4 8) (put_u32 ssrc)
        ++ (xor_bytes (slice salt 8 14) (put_u48 index) ++ zeros 2))

-- What Unprotect has established before it changes the context: the header, the part that the tag
-- covers, and the estimated rollover counter.
pub record Authentic : Type 0 where
  pub header : RtpHeader
  pub body : List ℕ  -- data[headerSize:headerSize+payloadLen]
  pub roc : ℕ

abbrev pub authentic_index : Authentic → ℕ
authentic_index a = index_of a.roc a.header.sequence_number

-- commitRoc and replayUpdate.
unfoldable pub commit : SrtpContext → Authentic → SrtpContext
commit c a = replay_update (commit_roc c a.roc a.header.sequence_number) (authentic_index a)

module _ (crypto : Crypto) where
  open crypto use {hmac_sha1, key_stream}

  -- `none` is the error of aes.NewCipher.
  unfoldable pub aes_ctr_xor : List ℕ → List ℕ → List ℕ → Option (List ℕ)
  aes_ctr_xor key iv src = Option.map (xor_bytes src) (key_stream key iv (length src))

  -- The derivation of a key from the master key and salt, under a label. `none` is also the panic on a salt
  -- of fewer than 14 bytes.
  unfoldable pub derive_srtp_key : List ℕ → List ℕ → ℕ → ℕ → Option (List ℕ)
  derive_srtp_key master_key master_salt label n =
      let salt = take 14 master_salt ++ zeros 2 in
      let iv = take 7 salt ++ (bit_xor (byte_at salt 7) label ∷ drop 8 salt) in
      if ltb (length master_salt) 14 then none else aes_ctr_xor master_key iv (zeros n)

  unfoldable pub new_srtp_context : SrtpKeyingMaterial → ℕ → Option SrtpContext
  new_srtp_context keying auth_tag_len =
      let derive = derive_srtp_key keying.master_key keying.master_salt in
      Option.bind (derive 0 16) λ sk. Option.bind (derive 1 20) λ ak.
        Option.bind (derive 2 14) λ ss. some (record {
          session_key = sk;
          session_salt = ss;
          auth_key = ak;
          roc = 0;
          last_seq = 0;
          initialized = false;
          auth_tag_len = if auth_tag_len == 0 then 4 else auth_tag_len;
          replay_highest = 0;
          replay_window = 0;
          replay_seen = false;
        })

  unfoldable pub compute_auth_tag : SrtpContext → List ℕ → ℕ → List ℕ
  compute_auth_tag c message roc =
      take c.auth_tag_len (hmac_sha1 c.auth_key (message ++ put_u32 roc))

  -- The payload and the tag of Protect, once the header is written: `head` is output[:headerSize].
  unfoldable pub seal : SrtpContext → RtpPacket → ℕ → List ℕ → SrtpResult (List ℕ)
  seal c p index head =
      elim (aes_ctr_xor c.session_key (generate_iv c.session_salt p.header.ssrc index) p.payload) [
        | none ↦ err encryption
        | some cipher ↦ ok ((head ++ cipher) ++ compute_auth_tag c (head ++ cipher) c.roc)
      ]

  unfoldable pub protect : SrtpContext → RtpPacket → SrtpContext × SrtpResult (List ℕ)
  unfolding seal
  protect c p =
      let seq = p.header.sequence_number in
      let c' = update_roc c seq in
      let n = size p.header in
      (
        c',
        elim (encode p.header (zeros (n + length p.payload + c.auth_tag_len))) [
          | Result.ok (output, _) ↦ seal c' p (packet_index c' seq) (take n output)
          | Result.err _ ↦ err encryption
          | Result.panics ↦ panics
        ],
      )

  unfoldable pub check_packet : SrtpContext → List ℕ → RtpHeader → SrtpResult Authentic
  check_packet c packet header =
      let n = size header in
      if leb (length packet) (n + c.auth_tag_len)
      then err packet_too_short
      else let covered = length packet - c.auth_tag_len in
        let roc = estimate_roc c header.sequence_number in
        let index = index_of roc header.sequence_number in
        if not (replay_check c index)
        then err replay
        else if not
            (bytes_equal (compute_auth_tag c (take covered packet) roc) (drop covered packet))
        then err auth_failed
        else ok (record { header = header; body = drop n (take covered packet); roc = roc })

  unfoldable pub authenticate : SrtpContext → List ℕ → SrtpResult Authentic
  unfolding check_packet
  authenticate c packet =
      let decoded = decode_rtp_header packet in
      if ltb (length packet) 12 then err packet_too_short else elim decoded [
        | Result.ok header ↦ check_packet c packet header
        | Result.err _ ↦ err decryption
        | Result.panics ↦ panics
      ]

  unfoldable pub unprotect : SrtpContext → List ℕ → SrtpContext × SrtpResult RtpPacket
  unprotect c packet = elim (authenticate c packet) [
    | ok a ↦ (
      commit c a,
      elim (aes_ctr_xor c.session_key (generate_iv c.session_salt a.header.ssrc (authentic_index a))
          a.body) [
            | none ↦ err decryption
            | some plain ↦ ok (record { header = a.header; payload = plain })
          ],
    )
    | err e ↦ (c, err e)
    | panics ↦ (c, panics)
  ]

-- ===== src/Media/Srtcp/Context.antt =====
-- SrtcpContext of srtcp.go, over the parameter `Crypto` of srtp.go.
use mathlib.Core.Option
use wa_calls.Base.{
  ℕ, ◌-◌, not, Option, none, some, List, [], ◌∷◌, ◌++◌, if◌then◌else◌, ltb, ◌==◌, length, take,
  drop, bit_and, bit_or,
}
use wa_calls.Core.{SrtpKeyingMaterial}
use wa_calls.Bytes.{put_u32, get_u32, slice, zeros, xor_bytes}
use wa_calls.Media.Srtp.Context.{packet_too_short, auth_failed, encryption, decryption}
use wa_calls.Media.Srtp.Protect.{
  Crypto, SrtpResult, ok, err, bytes_equal, put_u48, derive_srtp_key, aes_ctr_xor,
}

pub record SrtcpContext : Type 0 where
  pub session_key : List ℕ
  pub session_salt : List ℕ
  pub auth_key : List ℕ

abbrev srtcp_auth_tag_len : ℕ
srtcp_auth_tag_len = 10

abbrev srtcp_encrypted_flag : ℕ
srtcp_encrypted_flag = 0x80000000

abbrev srtcp_max_index : ℕ
srtcp_max_index = 0x7fffffff

pub srtcp_iv : List ℕ → ℕ → ℕ → List ℕ
srtcp_iv salt ssrc index =
    take 4 salt
    ++ (xor_bytes (slice salt 4 8) (put_u32 ssrc)
        ++ (xor_bytes (slice salt 8 14) (put_u48 index) ++ zeros 2))

module _ (crypto : Crypto) where
  open crypto use {hmac_sha1}

  -- `none` is the error of aes.NewCipher.
  unfoldable pub new_srtcp_context : SrtpKeyingMaterial → Option SrtcpContext
  new_srtcp_context keying =
      let derive = derive_srtp_key crypto keying.master_key keying.master_salt in
      Option.bind (derive 3 16) λ sk. Option.bind (derive 4 20) λ ak.
        Option.bind (derive 5 14)
          λ ss. some (record { session_key = sk; session_salt = ss; auth_key = ak })

  abbrev pub srtcp_tag : SrtcpContext → List ℕ → List ℕ
  srtcp_tag c covered = take srtcp_auth_tag_len (hmac_sha1 c.auth_key covered)

  -- The bytes after the header: nothing is enciphered when there are none.
  abbrev pub srtcp_crypt : SrtcpContext → ℕ → ℕ → List ℕ → Option (List ℕ)
  srtcp_crypt c ssrc index [] = some []
  srtcp_crypt c ssrc index (x ∷ r) =
      aes_ctr_xor crypto c.session_key (srtcp_iv c.session_salt ssrc index) (x ∷ r)

  -- The header and the enciphered bytes, the word of the index, and the tag over both.
  abbrev pub srtcp_sealed : SrtcpContext → ℕ → List ℕ → List ℕ
  srtcp_sealed c index out =
      let word = bit_or srtcp_encrypted_flag (bit_and index srtcp_max_index) in
      (out ++ put_u32 word) ++ srtcp_tag c (out ++ put_u32 word)

  unfoldable pub srtcp_protect : SrtcpContext → List ℕ → ℕ → SrtpResult (List ℕ)
  srtcp_protect c rtcp index =
      if ltb (length rtcp) 8
      then err packet_too_short
      else elim (srtcp_crypt c (get_u32 (drop 4 rtcp)) index (drop 8 rtcp)) [
        | none ↦ err encryption
        | some cipher ↦ ok (srtcp_sealed c index (take 8 rtcp ++ cipher))
      ]

  -- An E-bit of 0 says that the bytes after the header are in the clear.
  abbrev pub srtcp_open : SrtcpContext → ℕ → ℕ → List ℕ → Option (List ℕ)
  srtcp_open c ssrc word body =
      if not (bit_and word srtcp_encrypted_flag == 0)
      then srtcp_crypt c ssrc (bit_and word srtcp_max_index) body
      else some body

  -- The packet from its header and what Unprotect read of the rest.
  unfoldable pub srtcp_finish : SrtcpContext → List ℕ → ℕ → ℕ → List ℕ → SrtpResult (List ℕ)
  srtcp_finish c header ssrc word body = elim (srtcp_open c ssrc word body) [
    | none ↦ err decryption
    | some plain ↦ ok (header ++ plain)
  ]

  unfoldable pub srtcp_unprotect : SrtcpContext → List ℕ → SrtpResult (List ℕ)
  srtcp_unprotect c protected =
      let n = length protected in
      let word = get_u32 (drop (n - 14) protected) in
      if ltb n 22
      then err packet_too_short
      else if not (bytes_equal (srtcp_tag c (take (n - 10) protected)) (drop (n - 10) protected))
      then err auth_failed
      else srtcp_finish c (take 8 protected) (get_u32 (drop 4 protected)) word
          (drop 8 (take (n - 14) protected))

-- ===== src/Transport/Stun/Message.antt =====
-- The messages of stun.go. Random bytes (the transaction, the tie breaker) are arguments.
use wa_calls.Base.{
  ℕ, ◌+◌, ◌-◌, ◌*◌, ◌%◌, Bool, true, false, Option, none, some, List, [], ◌∷◌, ◌++◌, if◌then◌else◌,
  length, take, bit_xor, bit_or, ◌==◌,
}
use wa_calls.Bytes.{u16, u32, put_u16, put_u32, zeros}

abbrev pub stun_magic_cookie : ℕ
stun_magic_cookie = 0x2112a442

abbrev stun_fingerprint_xor : ℕ
stun_fingerprint_xor = 0x5354554e

abbrev attr_message_integrity : ℕ
attr_message_integrity = 0x0008

abbrev attr_fingerprint : ℕ
attr_fingerprint = 0x8028

abbrev default_ice_priority : ℕ
default_ice_priority = 16777215

unfoldable pub encode_attribute : ℕ → List ℕ → List ℕ
encode_attribute attr_type body =
    (put_u16 attr_type ++ put_u16 (length body)) ++ (body ++ zeros ((4 - length body % 4) % 4))

-- The 20 bytes of a header; a transaction is copied into the last 12.
abbrev pub stun_header : ℕ → ℕ → List ℕ → List ℕ
stun_header msg_type msg_length transaction_id =
    put_u16 msg_type
    ++ (put_u16 msg_length
        ++ (put_u32 stun_magic_cookie
            ++ (take 12 transaction_id ++ zeros (12 - length transaction_id))))

-- `data[4:]` of XOR-RELAYED-ADDRESS; `fmt.Sscanf` has read the four numbers of the address.
unfoldable encode_xor_relayed_address : ℕ → ℕ → ℕ → ℕ → ℕ → List ℕ
encode_xor_relayed_address p0 p1 p2 p3 port =
    let ip_num =
      bit_or (u32 (p0 * 16777216)) (bit_or (u32 (p1 * 65536)) (bit_or (u32 (p2 * 256)) (u32 p3))) in
    0x00
    ∷ 0x01
    ∷ (put_u16 (bit_xor (u16 port) 0x2112) ++ put_u32 (bit_xor ip_num stun_magic_cookie))

unfoldable build_whatsapp_ping : List ℕ → List ℕ
build_whatsapp_ping txid = stun_header 0x0801 0 txid

-- HMAC-SHA1 of crypto/hmac, of a key and a message, and CRC-32 of hash/crc32.
module _ (hmac_sha1 : List ℕ → List ℕ → List ℕ) (crc32 : List ℕ → ℕ) where
  abbrev pub integrity_body : ℕ → List ℕ → List ℕ → List ℕ → List ℕ
  integrity_body msg_type attrs transaction_id key =
      hmac_sha1 key (stun_header msg_type (length attrs + 24) transaction_id ++ attrs)

  abbrev pub fingerprint_body : ℕ → List ℕ → List ℕ → List ℕ
  fingerprint_body msg_type attrs transaction_id = put_u32 (
      bit_xor (crc32 (stun_header msg_type (length attrs + 8) transaction_id ++ attrs))
        stun_fingerprint_xor)

  abbrev pub with_integrity : ℕ → List ℕ → List ℕ → Option (List ℕ) → List ℕ
  with_integrity msg_type attrs transaction_id none = attrs
  with_integrity msg_type attrs transaction_id (some key) =
      attrs
      ++ encode_attribute attr_message_integrity (integrity_body msg_type attrs transaction_id key)

  abbrev pub with_fingerprint : ℕ → List ℕ → List ℕ → Bool → List ℕ
  with_fingerprint msg_type attrs transaction_id false = attrs
  with_fingerprint msg_type attrs transaction_id true =
      attrs ++ encode_attribute attr_fingerprint (fingerprint_body msg_type attrs transaction_id)

  unfoldable pub build_stun_message : ℕ → List ℕ → List ℕ → Option (List ℕ) → Bool → List ℕ
  build_stun_message msg_type attrs transaction_id integrity_key include_fingerprint =
      let keyed = with_integrity msg_type attrs transaction_id integrity_key in
      let whole = with_fingerprint msg_type keyed transaction_id include_fingerprint in
      stun_header msg_type (length whole) transaction_id ++ whole

  -- The address is none where `relayIP` is empty; otherwise its four numbers.
  abbrev relayed_attribute : Option (ℕ × ℕ × ℕ × ℕ) → ℕ → List ℕ
  relayed_attribute none port = []
  relayed_attribute (some (p0, p1, p2, p3)) port =
      if port == 0
      then []
      else encode_attribute 0x0016 (encode_xor_relayed_address p0 p1 p2 p3 port)

  unfoldable build_allocate_for_relay :
      List ℕ → List ℕ → List ℕ → Option (List ℕ) → Option (ℕ × ℕ × ℕ × ℕ) → ℕ → List ℕ
  build_allocate_for_relay txid subscriptions ssrc_list hmac_key relay_ip relay_port =
      build_stun_message 0x0003
        (encode_attribute 0x4000 subscriptions
          ++ (encode_attribute 0x4024 ssrc_list ++ relayed_attribute relay_ip relay_port))
        txid hmac_key false

  unfoldable build_binding_request_with_subs :
      List ℕ → List ℕ → List ℕ → List ℕ → List ℕ → Bool → Bool → List ℕ
  build_binding_request_with_subs txid tie_breaker username hmac_key subscriptions
        include_ice_controlling include_fingerprint =
      let name = if length username == 0 then [] else encode_attribute 0x0006 username in
      let priority = encode_attribute 0x0024 (put_u32 default_ice_priority) in
      let ice = if include_ice_controlling then encode_attribute 0x802a tie_breaker else [] in
      let subs = if length subscriptions == 0 then [] else encode_attribute 0x4000 subscriptions in
      let key = if length hmac_key == 0 then none else some hmac_key in
      build_stun_message 0x0001 (name ++ (priority ++ (ice ++ subs))) txid key include_fingerprint

-- ===== src/Transport/Stun/Built.antt =====
-- What ParseStunResponse reads of a message of buildStunMessage.
use wa_calls.Base.{
  ℕ, ◌+◌, ◌≡◌, refl, sym, ap, ◌∙◌, Bool, true, false, Option, none, some, List, [], ◌∷◌, ◌++◌,
  append-nil, arith, All, length,
}
use wa_calls.Bytes.{IsU16}
use wa_calls.Transport.Stun.Message.{
  stun_header, with_integrity, with_fingerprint, build_stun_message, integrity_body,
  fingerprint_body,
}
use wa_calls.Transport.Stun.Parse.{
  StunAttribute, StunResponseInfo, parse_stun_response, method_of, class_of, stun_info,
}
use wa_calls.Transport.Stun.RoundTrip.{
  IsInRange, encode_all, encode_all-append, All-append, read_message, add_all, add_all-header,
  add_all-attributes,
}

module _ (hmac_sha1 : List ℕ → List ℕ → List ℕ) (crc32 : List ℕ → ℕ) where
  -- MESSAGE-INTEGRITY, when there is a key.
  abbrev integrity_of : ℕ → List ℕ → List ℕ → Option (List ℕ) → List StunAttribute
  integrity_of msg_type attrs txid none = []
  integrity_of msg_type attrs txid (some key) =
      record { type = 8; body = integrity_body hmac_sha1 crc32 msg_type attrs txid key } ∷ []

  -- FINGERPRINT, when it is asked for.
  abbrev fingerprint_of : ℕ → List ℕ → List ℕ → Bool → List StunAttribute
  fingerprint_of msg_type attrs txid false = []
  fingerprint_of msg_type attrs txid true =
      record { type = 0x8028; body = fingerprint_body hmac_sha1 crc32 msg_type attrs txid } ∷ []

  abbrev keyed_attributes : ℕ → List StunAttribute → List ℕ → Option (List ℕ) → List StunAttribute
  keyed_attributes msg_type attrs txid key =
      attrs ++ integrity_of msg_type (encode_all attrs) txid key

  -- All the attributes of the message, in order.
  abbrev pub sent_attributes :
      ℕ → List StunAttribute → List ℕ → Option (List ℕ) → Bool → List StunAttribute
  sent_attributes msg_type attrs txid key fingerprint =
      let keyed = keyed_attributes msg_type attrs txid key in
      keyed ++ fingerprint_of msg_type (encode_all keyed) txid fingerprint

  keyed_lem :
      (msg_type : ℕ) (attrs : List StunAttribute) (txid : List ℕ) (key : Option (List ℕ))
      → with_integrity hmac_sha1 crc32 msg_type (encode_all attrs) txid key
        ≡ encode_all (keyed_attributes msg_type attrs txid key)
  unfolding encode_all
  keyed_lem msg_type attrs txid none = rw append-nil refl
  keyed_lem msg_type attrs txid (some key) = sym (
      encode_all-append attrs (integrity_of msg_type (encode_all attrs) txid (some key))
      ∙ rw append-nil refl)

  sent_lem :
      (msg_type : ℕ) (attrs : List StunAttribute) (txid : List ℕ) (fingerprint : Bool)
      → with_fingerprint hmac_sha1 crc32 msg_type (encode_all attrs) txid fingerprint
        ≡ encode_all (attrs ++ fingerprint_of msg_type (encode_all attrs) txid fingerprint)
  unfolding encode_all
  sent_lem msg_type attrs txid false = rw append-nil refl
  sent_lem msg_type attrs txid true = sym (
      encode_all-append attrs (fingerprint_of msg_type (encode_all attrs) txid true)
      ∙ rw append-nil refl)

  built_lem :
      (msg_type : ℕ) (attrs : List StunAttribute) (txid : List ℕ) (key : Option (List ℕ))
      (fingerprint : Bool)
      → build_stun_message hmac_sha1 crc32 msg_type (encode_all attrs) txid key fingerprint
        ≡ stun_header msg_type
            (length (encode_all (sent_attributes msg_type attrs txid key fingerprint)))
            txid
          ++ encode_all (sent_attributes msg_type attrs txid key fingerprint)
  unfolding build_stun_message
  built_lem msg_type attrs txid key fingerprint =
      ap (λ b. stun_header msg_type (length b) txid ++ b)
        (ap (λ b. with_fingerprint hmac_sha1 crc32 msg_type b txid fingerprint)
            (keyed_lem msg_type attrs txid key)
          ∙ sent_lem msg_type (keyed_attributes msg_type attrs txid key) txid fingerprint)

  integrity-IsInRange :
      (msg_type : ℕ) (attrs txid : List ℕ) (key : Option (List ℕ))
      → ((k m : List ℕ) → length (hmac_sha1 k m) ≡ 20)
      → All IsInRange (integrity_of msg_type attrs txid key)
  integrity-IsInRange msg_type attrs txid none twenty = tt
  integrity-IsInRange msg_type attrs txid (some key) twenty = (
    (
      omega arith,
      omega (arith, twenty key (stun_header msg_type (length attrs + 24) txid ++ attrs)),
    ),
    tt,
  )

  fingerprint-IsInRange :
      (msg_type : ℕ) (attrs txid : List ℕ) (fingerprint : Bool)
      → All IsInRange (fingerprint_of msg_type attrs txid fingerprint)
  fingerprint-IsInRange msg_type attrs txid false = tt
  fingerprint-IsInRange msg_type attrs txid true = ((omega arith, omega arith), tt)

  -- ParseStunResponse of a message that buildStunMessage built gives the message type, and the method
  -- and class of its bits, and the attributes in order, MESSAGE-INTEGRITY and FINGERPRINT last, for
  -- attributes that fit 16 bits each and in all, and a transaction of 12 bytes.
  pub parse-build_stun_message :
      (msg_type : ℕ) (attrs : List StunAttribute) (txid : List ℕ) (key : Option (List ℕ))
      (fingerprint : Bool)
      → ((k m : List ℕ) → length (hmac_sha1 k m) ≡ 20)
      → IsU16 msg_type
      → length txid ≡ 12
      → All IsInRange attrs
      → IsU16 (length (encode_all (sent_attributes msg_type attrs txid key fingerprint)))
      → (info : StunResponseInfo) × (parse_stun_response
            (build_stun_message hmac_sha1 crc32 msg_type (encode_all attrs) txid key fingerprint)
          ≡ some info)
        × (info.raw_type ≡ msg_type)
        × (info.method ≡ method_of msg_type)
        × (info.stun_class ≡ class_of msg_type)
        × (info.attributes ≡ sent_attributes msg_type attrs txid key fingerprint)
  parse-build_stun_message msg_type attrs txid key fingerprint twenty t twelve ok size =
      let sent = sent_attributes msg_type attrs txid key fingerprint in
      let keyed_ok =
        All-append attrs (integrity_of msg_type (encode_all attrs) txid key) ok
          (integrity-IsInRange msg_type (encode_all attrs) txid key twenty) in
      let keyed = keyed_attributes msg_type attrs txid key in
      let sent_ok =
        All-append keyed (fingerprint_of msg_type (encode_all keyed) txid fingerprint) keyed_ok
          (fingerprint-IsInRange msg_type (encode_all keyed) txid fingerprint) in
      let start =
        stun_info msg_type (method_of msg_type) (class_of msg_type)
          (stun_header msg_type (length (encode_all sent)) txid ++ encode_all sent) in
      let (raw, method, class, transaction) = add_all-header start sent in
      (
        add_all start sent,
        ap parse_stun_response (built_lem msg_type attrs txid key fingerprint)
            ∙ read_message msg_type txid sent t twelve sent_ok size,
        raw,
        method,
        class,
        add_all-attributes start sent,
      )

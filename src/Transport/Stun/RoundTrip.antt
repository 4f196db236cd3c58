-- ===== src/Transport/Stun/RoundTrip.antt =====
-- ParseStunResponse reads what buildStunMessage wrote.
use wa_calls.Base.{
  ℕ, zero, suc, ◌+◌, ◌-◌, ◌%◌, ◌≤◌, ◌≡◌, refl, ap, ◌∙◌, false, ◌&&◌, ◌||◌, not, some, List, [], ◌∷◌,
  ◌++◌, append_assoc, append-nil, arith, All, ltb, leb, length, take, drop, length-append,
  length-replicate, take_front, drop_front, drop_at, length-take,
}
use wa_calls.Bytes.{get_u16, slice, zeros, IsU16}
use wa_calls.Transport.Stun.Message.{encode_attribute, stun_header}
use wa_calls.Transport.Stun.Parse.{
  StunAttribute, StunResponseInfo, add_attribute, parse_attributes, stun_info, parse_stun_response,
  method_of, class_of,
}

-- An attribute's type and length fit their 16 bits.
abbrev pub IsInRange : StunAttribute → Type 0
IsInRange a = IsU16 a.type × IsU16 (length a.body)

unfoldable pub encode_all : List StunAttribute → List ℕ
encode_all [] = []
encode_all (a ∷ rest) = encode_attribute a.type a.body ++ encode_all rest

abbrev padded_size : StunAttribute → ℕ
padded_size a = 4 + length a.body + (4 - length a.body % 4) % 4

length-encode_attribute :
    (a : StunAttribute) → length (encode_attribute a.type a.body) ≡ padded_size a
unfolding encode_attribute
length-encode_attribute a = omega (
  arith,
  length-append a.body (zeros ((4 - length a.body % 4) % 4)),
  length-replicate {A = ℕ} ((4 - length a.body % 4) % 4) 0,
)

-- One round of the loop reads one attribute.
read_one :
    (fuel : ℕ) (info : StunResponseInfo) (a : StunAttribute) (rest : List ℕ) (remaining : ℕ)
    → IsInRange a
    → 4 ≤ remaining
    → parse_attributes (suc fuel) info remaining (encode_attribute a.type a.body ++ rest)
      ≡ parse_attributes fuel (add_attribute info a.type a.body) (remaining - padded_size a) rest
unfolding parse_attributes
read_one fuel info a rest remaining (type_fits, size_fits) room =
    rw (more, read, size_read, type_read, onward) refl
  where
    encoded : List ℕ
    encoded = encode_attribute a.type a.body ++ rest

    type_read : get_u16 encoded ≡ a.type
    type_read = unfold encode_attribute in omega arith

    size_read : get_u16 (drop 2 encoded) ≡ length a.body
    size_read = unfold encode_attribute in omega arith

    size : length encoded ≡ padded_size a + length rest
    size =
        length-append (encode_attribute a.type a.body) rest
        ∙ omega (arith, length-encode_attribute a)

    room_read :
        (not (leb 4 remaining && leb 4 (length encoded))
          || ltb (length encoded) (4 + length a.body))
        ≡ false
    room_read = ground (arith, size)

    more :
        (not (leb 4 remaining && leb 4 (length encoded))
          || ltb (length encoded) (4 + get_u16 (drop 2 encoded)))
        ≡ false
    more =
        ap (λ n. not (leb 4 remaining && leb 4 (length encoded)) || ltb (length encoded) (4 + n))
          size_read
        ∙ room_read

    body_read : take (4 + length a.body - 4) (drop 4 encoded) ≡ a.body
    body_read =
        let e : 4 + length a.body - 4 ≡ length a.body = omega arith in
        unfold encode_attribute in
        rw (e, append_assoc a.body (zeros ((4 - length a.body % 4) % 4)) rest)
          (take_front a.body (zeros ((4 - length a.body % 4) % 4) ++ rest))

    read : slice encoded 4 (4 + get_u16 (drop 2 encoded)) ≡ a.body
    read = ap (λ n. slice encoded 4 (4 + n)) size_read ∙ body_read

    onward : drop (padded_size a) encoded ≡ rest
    onward = rw (← length-encode_attribute a) (drop_front (encode_attribute a.type a.body) rest)

-- The attributes that the loop adds, in order.
pub add_all : StunResponseInfo → List StunAttribute → StunResponseInfo
add_all info [] = info
add_all info (a ∷ rest) = add_all (add_attribute info a.type a.body) rest

read_attributes :
    (fuel : ℕ) (info : StunResponseInfo) (attrs : List StunAttribute)
    → All IsInRange attrs
    → length (encode_all attrs) ≤ fuel
    → parse_attributes fuel info (length (encode_all attrs)) (encode_all attrs) ≡ add_all info attrs
unfolding encode_all add_all
read_attributes zero info [] ok enough = unfold parse_attributes in refl
read_attributes (suc fuel) info [] ok enough = unfold parse_attributes in refl
read_attributes zero info (a ∷ rest) ok enough = absurd (
    omega (
      arith,
      length-append (encode_attribute a.type a.body) (encode_all rest),
      length-encode_attribute a,
    ))
read_attributes (suc fuel) info (a ∷ rest) (fits, ok) enough =
    read_one fuel info a (encode_all rest) _ fits (omega (arith, size))
    ∙ ap (λ n. parse_attributes fuel (add_attribute info a.type a.body) n (encode_all rest)) left
    ∙ read_attributes fuel (add_attribute info a.type a.body) rest ok (omega (arith, size, enough))
  where
    size :
        length (encode_attribute a.type a.body ++ encode_all rest)
        ≡ padded_size a + length (encode_all rest)
    size =
        length-append (encode_attribute a.type a.body) (encode_all rest)
        ∙ omega (arith, length-encode_attribute a)

    left :
        length (encode_attribute a.type a.body ++ encode_all rest) - padded_size a
        ≡ length (encode_all rest)
    left = omega (arith, size)

pub add_all-attributes :
    (info : StunResponseInfo) (attrs : List StunAttribute)
    → ((add_all info attrs).attributes ≡ info.attributes ++ attrs)
unfolding add_all add_attribute
add_all-attributes info [] = rw append-nil refl
add_all-attributes info (a ∷ rest) =
    rw (add_all-attributes (add_attribute info a.type a.body) rest, append_assoc) refl

add_attribute-header :
    (info : StunResponseInfo) (attr_type : ℕ) (body : List ℕ)
    → let next = add_attribute info attr_type body in
      (next.raw_type ≡ info.raw_type)
      × (next.method ≡ info.method)
      × (next.stun_class ≡ info.stun_class)
      × (next.transaction_id ≡ info.transaction_id)
unfolding add_attribute
add_attribute-header info attr_type body = ground arith

pub add_all-header :
    (info : StunResponseInfo) (attrs : List StunAttribute)
    → let last = add_all info attrs in
      (last.raw_type ≡ info.raw_type)
      × (last.method ≡ info.method)
      × (last.stun_class ≡ info.stun_class)
      × (last.transaction_id ≡ info.transaction_id)
unfolding add_all
add_all-header info [] = (refl, refl, refl, refl)
add_all-header info (a ∷ rest) =
    let (t, m, c, x) = add_all-header (add_attribute info a.type a.body) rest in
    let (t', m', c', x') = add_attribute-header info a.type a.body in
    (t ∙ t', m ∙ m', c ∙ c', x ∙ x')

pub encode_all-append :
    (xs ys : List StunAttribute) → encode_all (xs ++ ys) ≡ encode_all xs ++ encode_all ys
unfolding encode_all
encode_all-append [] ys = refl
encode_all-append (a ∷ xs) ys = rw (encode_all-append xs ys, append_assoc) refl

pub All-append :
    (xs ys : List StunAttribute) → All IsInRange xs → All IsInRange ys → All IsInRange (xs ++ ys)
All-append [] ys all more = more
All-append (x ∷ xs) ys (one, all) more = (one, All-append xs ys all more)

-- A message of a header and attributes, read back.
pub read_message :
    (msg_type : ℕ) (txid : List ℕ) (attrs : List StunAttribute)
    → IsU16 msg_type
    → length txid ≡ 12
    → All IsInRange attrs
    → IsU16 (length (encode_all attrs))
    → parse_stun_response
        (stun_header msg_type (length (encode_all attrs)) txid ++ encode_all attrs)
      ≡ some (
          add_all
            (stun_info msg_type
              (method_of msg_type)
              (class_of msg_type)
              (stun_header msg_type (length (encode_all attrs)) txid ++ encode_all attrs))
            attrs)
unfolding parse_stun_response
read_message msg_type txid attrs t twelve ok size =
    rw (long, type_read)
      (ap some (
        ap (λ b. parse_attributes (length d) info (get_u16 (drop 2 d)) b) back
        ∙ ap (λ n. parse_attributes (length d) info n (encode_all attrs)) length_read
        ∙ read_attributes (length d) info attrs ok fuel))
  where
    d : List ℕ
    d = stun_header msg_type (length (encode_all attrs)) txid ++ encode_all attrs

    info : StunResponseInfo
    info = stun_info msg_type (method_of msg_type) (class_of msg_type) d

    twelve_bytes : length (take 12 txid ++ zeros (12 - length txid)) ≡ 12
    twelve_bytes = omega (
      arith,
      length-append (take 12 txid) (zeros (12 - length txid)),
      length-take 12 txid,
      length-replicate {A = ℕ} (12 - length txid) 0,
    )

    all_bytes : length d ≡ 20 + length (encode_all attrs)
    all_bytes = omega (
      arith,
      length-append (take 12 txid ++ zeros (12 - length txid)) (encode_all attrs),
      twelve_bytes,
    )

    long : ltb (length d) 20 ≡ false
    long = ground (arith, all_bytes)

    type_read : get_u16 d ≡ msg_type
    type_read = omega arith

    length_read : get_u16 (drop 2 d) ≡ length (encode_all attrs)
    length_read = omega arith

    back : drop 20 d ≡ encode_all attrs
    back = drop_at 12 (take 12 txid ++ zeros (12 - length txid)) (encode_all attrs) twelve_bytes

    fuel : length (encode_all attrs) ≤ length d
    fuel = omega (arith, all_bytes)

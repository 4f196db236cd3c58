-- ===== src/Transport/Subscriptions/ReadBack.antt =====
-- A reader of protobuf's varints and length-delimited fields, against the encoders.
use wa_calls.Base.{
  ℕ, zero, suc, ◌+◌, ◌-◌, ◌*◌, ◌/◌, ◌%◌, ◌^◌, ◌≤◌, ◌<◌, ◌≡◌, refl, ap, ◌∙◌, inl, inr, Bool-cases,
  true, false, Option, none, some, List, [], ◌∷◌, ◌++◌, append_assoc, arith, if◌then◌else◌, ltb,
  ◌==◌, length, length-append, take, drop, take_front, drop_front, bit_and, bit_or,
}
use native.Mathlib.Nat.{pow-suc}
use wa_calls.Base.Bits.{bit_or_fields, bit_and_mask, all_below, all_below_lem}
use wa_calls.Transport.Subscriptions.Encode.{
  varint_loop, encode_varint, encode_protobuf_length_delimited,
}

-- The value of a varint at the front, and what follows it.
unfoldable pub read_varint : List ℕ → Option (ℕ × List ℕ)
read_varint [] = none
read_varint (b ∷ r) =
    let later = read_varint r in
    if ltb b 128
    then some (b, r)
    else elim later [ none ↦ none | some (v, rest) ↦ some (b - 128 + 128 * v, rest) ]

top_bit_table : all_below 128 (λ b. bit_or b 0x80 == b + 128) ≡ true
unfolding all_below
top_bit_table = refl

top_bit : (b : ℕ) → b < 128 → bit_or b 0x80 ≡ b + 128
top_bit b h = ground (arith, all_below_lem 128 (λ b. bit_or b 0x80 == b + 128) b top_bit_table)

low_bits : (v : ℕ) → bit_and v 0x7f ≡ v % 128
low_bits v = bit_and_mask 7 v

last_byte : (v : ℕ) (rest : List ℕ) → v < 128 → read_varint (v ∷ rest) ≡ some (v, rest)
unfolding read_varint
last_byte v rest h = let small : ltb v 128 ≡ true = ground arith in rw small refl

next_byte :
    (b v : ℕ) (r rest : List ℕ)
    → b < 128
    → read_varint r ≡ some (v, rest)
    → read_varint ((b + 128) ∷ r) ≡ some (b + 128 * v, rest)
unfolding read_varint
next_byte b v r rest h e =
    let large : ltb (b + 128) 128 ≡ false = ground arith in
    let low : b + 128 - 128 ≡ b = omega arith in rw (large, e, low) refl

stop_round :
    (fuel v : ℕ) (rest : List ℕ)
    → v < 128
    → read_varint (varint_loop (suc fuel) v ++ rest) ≡ some (v, rest)
unfolding varint_loop
stop_round fuel v rest h =
    let stop : ltb 0x7f v ≡ false = ground arith in
    let low : v % 128 ≡ v = omega arith in rw (stop, low_bits v, low) (last_byte v rest h)

more_round :
    (fuel v : ℕ) (rest : List ℕ)
    → 128 ≤ v
    → read_varint (varint_loop (suc fuel) (v / 128) ++ rest) ≡ some (v / 128, rest)
    → read_varint (varint_loop (suc (suc fuel)) v ++ rest) ≡ some (v, rest)
more_round fuel v rest h e =
    let on : ltb 0x7f v ≡ true = ground arith in
    let whole : v % 128 + 128 * (v / 128) ≡ v = omega arith in
    one on
    ∙ next_byte (v % 128) (v / 128) (varint_loop (suc fuel) (v / 128) ++ rest) rest (omega arith) e
    ∙ ap (λ n. some (n, rest)) whole
  where
    byte : bit_or (bit_and v 0x7f) 0x80 ≡ v % 128 + 128
    byte = rw (low_bits v) (top_bit (v % 128) (omega arith))

    one :
        ltb 0x7f v ≡ true
        → read_varint (varint_loop (suc (suc fuel)) v ++ rest)
          ≡ read_varint ((v % 128 + 128) ∷ (varint_loop (suc fuel) (v / 128) ++ rest))
    one on = unfold varint_loop in rw (on, byte) refl

read-varint_loop :
    (fuel v : ℕ) (rest : List ℕ)
    → v < 128 ^ suc fuel
    → read_varint (varint_loop (suc fuel) v ++ rest) ≡ some (v, rest)
read-varint_loop zero v rest h = stop_round zero v rest h
read-varint_loop (suc fuel) v rest h =
    let e : 128 ^ suc (suc fuel) ≡ 128 * 128 ^ suc fuel = omega (arith, pow-suc 128 (suc fuel)) in
    elim (Bool-cases (ltb 0x7f v)) [
      | inl on ↦
          more_round fuel v rest (ground arith)
            (read-varint_loop fuel (v / 128) rest (omega (arith, h, e)))
      | inr stop ↦ stop_round (suc fuel) v rest (ground arith)
    ]

-- What encodeVarint writes of a 64-bit value reads back as that value, and the reader stops where it ends.
read-encode_varint :
    (v : ℕ) (rest : List ℕ)
    → v < 18446744073709551616
    → read_varint (encode_varint v ++ rest) ≡ some (v, rest)
unfolding encode_varint
read-encode_varint v rest h = read-varint_loop 9 v rest (omega arith)

abbrev with_size : ℕ → Option (ℕ × List ℕ) → Option (ℕ × List ℕ × List ℕ)
with_size tag none = none
with_size tag (some (n, r)) = if ltb (length r) n then none else some (tag, take n r, drop n r)

abbrev with_tag : Option (ℕ × List ℕ) → Option (ℕ × List ℕ × List ℕ)
with_tag none = none
with_tag (some (tag, r)) = with_size tag (read_varint r)

-- The tag of a length-delimited field, its bytes, and what follows.
pub read_delimited : List ℕ → Option (ℕ × List ℕ × List ℕ)
read_delimited d = with_tag (read_varint d)

-- A length-delimited field of encodeProtobufLengthDelimited reads back as its tag, whose low three
-- bits are the wire type 2, its bytes, and what follows, when tag and length fit 64 bits.
read_delimited-encode :
    (field_number : ℕ) (body rest : List ℕ)
    → bit_or (field_number * 8) 2 < 18446744073709551616
    → length body < 18446744073709551616
    → read_delimited (encode_protobuf_length_delimited field_number body ++ rest)
      ≡ some (field_number * 8 + 2, body, rest)
read_delimited-encode field_number body rest tag_fits size_fits =
    unfold read_delimited in
    ap with_tag first
    ∙ ap (with_size (field_number * 8 + 2)) second
    ∙ rw (enough, take_front body rest, drop_front body rest) refl
  where
    tag : ℕ
    tag = bit_or (field_number * 8) 2

    tag_is : bit_or (field_number * 8) 2 ≡ field_number * 8 + 2
    tag_is = bit_or_fields 3 field_number 2 (omega arith)

    split :
        encode_protobuf_length_delimited field_number body ++ rest
        ≡ encode_varint tag ++ (encode_varint (length body) ++ (body ++ rest))
    split =
        unfold encode_protobuf_length_delimited in
        append_assoc (encode_varint tag) (encode_varint (length body) ++ body) rest
        ∙ ap (λ r. encode_varint tag ++ r) (append_assoc (encode_varint (length body)) body rest)

    first :
        read_varint (encode_protobuf_length_delimited field_number body ++ rest)
        ≡ some (field_number * 8 + 2, encode_varint (length body) ++ (body ++ rest))
    first =
        ap read_varint split
        ∙ read-encode_varint tag (encode_varint (length body) ++ (body ++ rest)) tag_fits
        ∙ ap (λ t. some (t, encode_varint (length body) ++ (body ++ rest))) tag_is

    second :
        read_varint (encode_varint (length body) ++ (body ++ rest))
        ≡ some (length body, body ++ rest)
    second = read-encode_varint (length body) (body ++ rest) size_fits

    enough : ltb (length (body ++ rest)) (length body) ≡ false
    enough = ground (arith, length-append body rest)

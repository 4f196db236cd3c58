-- ===== src/Transport/Subscriptions/Encode.antt =====
-- The encoders of subscriptions.go. A value is of uint64; its loop takes seven bits a round, so that ten
-- rounds are enough.
use wa_calls.Base.{
  ℕ, zero, suc, ◌*◌, ◌/◌, List, [], ◌∷◌, ◌++◌, if◌then◌else◌, ltb, ◌==◌, length, bit_and, bit_or,
}

unfoldable pub varint_loop : ℕ → ℕ → List ℕ
varint_loop zero v = []
varint_loop (suc fuel) v =
    let rest = varint_loop fuel (v / 128) in
    if ltb 0x7f v then bit_or (bit_and v 0x7f) 0x80 ∷ rest else bit_and v 0x7f ∷ []

unfoldable pub encode_varint : ℕ → List ℕ
encode_varint value = varint_loop 10 value

unfoldable pub encode_protobuf_varint_field : ℕ → ℕ → List ℕ
encode_protobuf_varint_field field_number value =
    encode_varint (field_number * 8) ++ encode_varint value

unfoldable pub encode_protobuf_length_delimited : ℕ → List ℕ → List ℕ
encode_protobuf_length_delimited field_number body =
    encode_varint (bit_or (field_number * 8) 2) ++ (encode_varint (length body) ++ body)

unfoldable build_sender_subscriptions : ℕ → List ℕ
build_sender_subscriptions ssrc = encode_protobuf_length_delimited 1 (
    encode_protobuf_varint_field 3 ssrc
    ++ (encode_protobuf_varint_field 5 0 ++ encode_protobuf_varint_field 6 0))

-- One loop of BuildSSRCSubscriptionList; an SSRC of 0 is passed over.
unfoldable pub subscription_entries : List ℕ → ℕ → List ℕ
subscription_entries [] pid = []
subscription_entries (ssrc ∷ ssrcs) pid =
    let rest = subscription_entries ssrcs pid in
    let entry = encode_protobuf_length_delimited 1 (
      encode_protobuf_varint_field 1 pid
      ++ (encode_protobuf_varint_field 2 1 ++ encode_protobuf_varint_field 3 ssrc)) in
    if ssrc == 0 then rest else entry ++ rest

unfoldable build_ssrc_subscription_list : List ℕ → List ℕ → ℕ → ℕ → List ℕ
build_ssrc_subscription_list self_ssrcs peer_ssrcs self_pid peer_pid =
    subscription_entries self_ssrcs self_pid ++ subscription_entries peer_ssrcs peer_pid

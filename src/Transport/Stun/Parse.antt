-- ===== src/Transport/Stun/Parse.antt =====
-- ParseStunResponse of stun.go. The names of attributes, which only the log shows, are left out; a
-- nil result is `none`. The offset into the data is a suffix of it, and the bytes that remain of the
-- message's length are a number.
use wa_calls.Base.{
  ℕ, zero, suc, ◌+◌, ◌-◌, ◌*◌, ◌/◌, ◌%◌, Bool, true, false, ◌&&◌, ◌||◌, not, Option, none, some,
  List, [], ◌∷◌, ◌++◌, if◌then◌else◌, ltb, leb, ◌==◌, length, drop, bit_and, bit_or,
}
use wa_calls.Bytes.{byte_at, get_u16, get_u32, slice}
use wa_calls.Transport.Stun.Message.{stun_magic_cookie}

pub data StunMethod : Type 0 where
  binding allocate refresh send data_method create_permission channel_bind : StunMethod
  wa_ping wa_pong unknown_method : StunMethod

pub data StunClass : Type 0 where
  request indication success error unknown_class : StunClass

pub record StunAttribute : Type 0 where
  pub type : ℕ
  pub body : List ℕ

pub record StunResponseInfo : Type 0 where
  pub raw_type : ℕ
  pub method : StunMethod
  pub stun_class : StunClass
  pub is_success : Bool
  pub is_error : Bool
  pub error_code : ℕ
  pub error_reason : List ℕ
  pub stable_routing_conn_id : ℕ
  pub transaction_id : List ℕ
  pub size : ℕ
  pub attributes : List StunAttribute

pub class_of : ℕ → StunClass
class_of raw_type =
    let c0 = bit_and (raw_type / 16) 0x1 in
    let c1 = bit_and (raw_type / 256) 0x1 in
    let n = bit_or (c1 * 2) c0 in
    if n == 0
    then request
    else if n == 1
    then indication
    else if n == 2
    then success
    else if n == 3
    then error
    else unknown_class

pub method_of : ℕ → StunMethod
method_of raw_type =
    let bits =
      bit_or (bit_or (bit_and raw_type 0x3e00 / 4) (bit_and raw_type 0x00e0 / 2))
        (bit_and raw_type 0x000f) in
    if raw_type == 0x0802
    then wa_pong
    else if raw_type == 0x0801
    then wa_ping
    else if bits == 0x001
    then binding
    else if bits == 0x003
    then allocate
    else if bits == 0x004
    then refresh
    else if bits == 0x006
    then send
    else if bits == 0x007
    then data_method
    else if bits == 0x008
    then create_permission
    else if bits == 0x009
    then channel_bind
    else unknown_method

-- The error code and its reason, of an ERROR-CODE attribute of four bytes or more.
abbrev note_error : StunResponseInfo → ℕ → List ℕ → StunResponseInfo
note_error info attr_type body =
    if attr_type == 0x0009 && leb 4 (length body)
    then record info {
      error_code = bit_and (byte_at body 2) 0x07 * 100 + byte_at body 3;
      error_reason = if ltb 4 (length body) then drop 4 body else info.error_reason;
    }
    else info

abbrev get_u64 : List ℕ → ℕ
get_u64 b = get_u32 b * 4294967296 + get_u32 (drop 4 b)

abbrev note_conn_id : StunResponseInfo → ℕ → List ℕ → StunResponseInfo
note_conn_id info attr_type body =
    let succeeded : Bool = elim info.stun_class [ success ↦ true | _ ↦ false ] in
    if attr_type == 0x4033 && succeeded && length body == 8
    then record info { stable_routing_conn_id = get_u64 body }
    else info

unfoldable pub add_attribute : StunResponseInfo → ℕ → List ℕ → StunResponseInfo
add_attribute info attr_type body =
    record (note_conn_id (note_error info attr_type body) attr_type body) {
      attributes = info.attributes ++ record { type = attr_type; body = body } ∷ [];
    }

-- Each round takes four bytes at least, so the data's length is enough fuel.
unfoldable pub parse_attributes : ℕ → StunResponseInfo → ℕ → List ℕ → StunResponseInfo
parse_attributes zero info remaining d = info
parse_attributes (suc fuel) info remaining d =
    let attr_length = get_u16 (drop 2 d) in
    let step = 4 + attr_length + (4 - attr_length % 4) % 4 in
    let next = add_attribute info (get_u16 d) (slice d 4 (4 + attr_length)) in
    let rest = parse_attributes fuel next (remaining - step) (drop step d) in
    if not (leb 4 remaining && leb 4 (length d)) || ltb (length d) (4 + attr_length)
    then info
    else rest

abbrev pub stun_info : ℕ → StunMethod → StunClass → List ℕ → StunResponseInfo
stun_info raw_type method class d = record {
  raw_type = raw_type;
  method = method;
  stun_class = class;
  is_success = elim class [ success ↦ true | _ ↦ false ];
  is_error = elim class [ error ↦ true | _ ↦ false ];
  error_code = 0;
  error_reason = [];
  stable_routing_conn_id = 0;
  transaction_id = slice d 8 20;
  size = length d;
  attributes = [];
}

-- Without the cookie only the two ping types are known.
abbrev parse_ping : List ℕ → Option StunResponseInfo
parse_ping d =
    let msg_type = get_u16 d in
    if msg_type == 0x0801
    then some (stun_info msg_type wa_ping indication d)
    else if msg_type == 0x0802
    then some (stun_info msg_type wa_pong indication d)
    else none

unfoldable pub parse_stun_response : List ℕ → Option StunResponseInfo
parse_stun_response d =
    let raw_type = get_u16 d in
    if ltb (length d) 20
    then none
    else if not (get_u32 (drop 4 d) == stun_magic_cookie)
    then parse_ping d
    else some (
        parse_attributes (length d) (stun_info raw_type (method_of raw_type) (class_of raw_type) d)
          (get_u16 (drop 2 d)) (drop 20 d))

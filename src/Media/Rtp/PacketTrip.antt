-- ===== src/Media/Rtp/PacketTrip.antt =====
-- DecodeRtpPacket against Encode of packets, and where DecodeRtpPacket panics.
use wa_calls.Base.{
  ℕ, ◌+◌, ◌-◌, ◌≤◌, ◌<◌, ◌≡◌, ap, true, false, List, [], ◌++◌, append-nil, arith, length, take,
  drop, length-append, length-replicate, length-drop, drop_front, take_front, take_all, drop_all,
  ltb,
}
use wa_calls.Bytes.{zeros}
use wa_calls.Media.Rtp.Header.{
  ok, panics, RtpHeader, size, csrc_bytes, decode_extension, decode_fields, decode_rtp_header,
}
use wa_calls.Media.Rtp.HeaderTrip.{
  IsWellFormed, header_bytes, length-header_bytes, encode_lem, decode-header_bytes, fixed_front,
  first_byte_fields, second_byte_fields, front_fields, decode_csrc-csrc_bytes, length-csrc_bytes,
}
use wa_calls.Media.Rtp.Packet.{RtpPacket, ◌>>=◌, packet_size, encode_packet, decode_packet, copy_at}

copy_at_lem :
    (front back src : List ℕ) (n : ℕ)
    → length front ≡ n
    → length back ≡ length src
    → copy_at (front ++ back) n src ≡ front ++ src
copy_at_lem front back src n e f = rw (front_part, take_all _ src room, nothing_left, append-nil)
  where
    front_part : take n (front ++ back) ≡ front
    front_part = rw (← e) (take_front front back)

    room : length src ≤ length (front ++ back) - n
    room = omega (arith, length-append front back)

    nothing_left : drop (n + length src) (front ++ back) ≡ []
    nothing_left =
        drop_all (n + length src) (front ++ back) (omega (arith, length-append front back))

-- A packet with a well-formed header is encoded as its header's bytes and the payload.
pub encode_packet_lem :
    (p : RtpPacket)
    → IsWellFormed p.header
    → encode_packet p ≡ ok (header_bytes p.header ++ p.payload)
unfolding encode_packet packet_size
encode_packet_lem p w =
    rw (encode_lem p.header (zeros (size p.header + length p.payload)) w, enough)
      (ap ok (
        copy_at_lem (header_bytes p.header) _ p.payload (size p.header)
          (length-header_bytes p.header w) remaining))
  where
    total : length (zeros (size p.header + length p.payload)) ≡ size p.header + length p.payload
    total = length-replicate _ 0

    enough : ltb (length (zeros (size p.header + length p.payload))) (size p.header) ≡ false
    enough = ground (arith, total)

    remaining :
        length (drop (size p.header) (zeros (size p.header + length p.payload))) ≡ length p.payload
    remaining =
        omega (arith, length-drop (size p.header) (zeros (size p.header + length p.payload)), total)

-- DecodeRtpPacket returns the packet that Encode wrote.
decode-encode_packet :
    (p : RtpPacket) → IsWellFormed p.header → (encode_packet p >>= decode_packet) ≡ ok p
decode-encode_packet p w =
    rw (encode_packet_lem p w)
      (unfold decode_packet in rw (decode-header_bytes p.header p.payload w, enough, payload))
  where
    enough : ltb (length (header_bytes p.header ++ p.payload)) (size p.header) ≡ false
    enough =
        ground
          (arith, length-append (header_bytes p.header) p.payload, length-header_bytes p.header w)

    payload : drop (size p.header) (header_bytes p.header ++ p.payload) ≡ p.payload
    payload = rw (← length-header_bytes p.header w) (drop_front (header_bytes p.header) p.payload)

-- What DecodeRtpHeader makes of a header whose extension is cut off within its first four bytes.
abbrev cut_header : RtpHeader → RtpHeader
cut_header h = record h { extension_profile = 0; extension_data = [] }

decode_fields_cut :
    (h : RtpHeader) (rest : List ℕ)
    → IsWellFormed h
    → h.extension ≡ true
    → length rest < 4
    → decode_fields (fixed_front h ++ (csrc_bytes h.csrc ++ rest)) ≡ cut_header h
unfolding decode_fields
decode_fields_cut h rest w e short =
    let (count, version, padding, extension) = first_byte_fields h w in
    let (type, marker) = second_byte_fields h w in
    rw
      (
        count,
        version,
        padding,
        extension,
        type,
        marker,
        decode_csrc-csrc_bytes h.csrc rest w.csrc_fit,
      )
      (rw no_room (ground (arith, w)))
  where
    no_room : decode_extension h.extension rest ≡ (0, [])
    no_room = unfold decode_extension in ground arith

-- A datagram that ends after the CSRC list, or within the first four bytes of the extension that
-- its X bit announces, makes DecodeRtpPacket panic: DecodeRtpHeader accepts it, and Size is past
-- the end of the datagram.
pub decode_packet_panics :
    (h : RtpHeader) (rest : List ℕ)
    → IsWellFormed h
    → h.extension ≡ true
    → length rest < 4
    → decode_packet (fixed_front h ++ (csrc_bytes h.csrc ++ rest)) ≡ panics
unfolding decode_packet decode_rtp_header
decode_packet_panics h rest w e short =
    let (version, count) = front_fields h w in
    rw (version, count, decode_fields_cut h rest w e short)
      (unfold size in
        ground (arith, w, length-csrc_bytes h.csrc, length-append (csrc_bytes h.csrc) rest))

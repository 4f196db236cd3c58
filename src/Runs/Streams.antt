-- ===== src/Runs/Streams.antt =====
-- The theorems on media, at concrete packets and units, with a stand-in for AES and HMAC.
use mathlib.Core.Option
use wa_calls.Base.{
  length, map, Bool, ℕ, ◌<◌, ◌≡◌, refl, some, List, [], ◌∷◌, ◌++◌, true, false, arith, ◌↔◌,
  replicate, length, length-replicate, All,
}
use wa_calls.Bytes.{byte_at}
use wa_calls.Media.Rtp.Header.{RtpHeader, new_rtp_header, Result, csrc_bytes}
use wa_calls.Media.Rtp.HeaderTrip.{IsWellFormed, fixed_front}
use wa_calls.Media.Rtp.Packet.{RtpPacket, RtpSession, decode_packet}
use wa_calls.Media.Rtp.PacketTrip.{decode_packet_panics}
use wa_calls.Media.Rtp.Session.{IsInRange, create_packets, IsNumbered, create_packets-IsNumbered}
use wa_calls.Media.Srtp.Context.{SrtpContext, update_roc, estimate_roc, replay_check, packet_index}
use wa_calls.Media.Srtp.Protect.{Crypto, ok, protect, unprotect}
use wa_calls.Bytes.{xor_bytes}
use wa_calls.Core.{SrtpKeyingMaterial}
use wa_calls.Media.Srtp.Protect.{new_srtp_context, derive_srtp_key, aes_ctr_xor}
use wa_calls.Media.Srtp.Session.{SrtpSession, new_srtp_session}
use wa_calls.Media.Srtp.Stream.{Accepts, transmit}
use wa_calls.Media.Srtp.Audio.{transmit-create_packets}
use wa_calls.Media.Srtp.RoundTrip.{SameKeys, after_receive, unprotect-protect}
use wa_calls.Media.Srtp.Receive.{IsDistinct, receive_all, receive_all-IsDistinct}
use wa_calls.Media.Srtp.Replay.{contains}
use wa_calls.Media.Srtp.Window.{offer_all, replay_check-offer_all_iff}
use wa_calls.Media.Srtp.Rollover.{last_index, next_index}
use wa_calls.Media.H264.Annexb.{start_code}
use wa_calls.Media.H264.Packetize.{packetize_h264}
use wa_calls.Media.H264.Depacketize.{new_depacketizer}
use wa_calls.Media.H264.RoundTrip.{IsNal}
use wa_calls.Media.H264.Unit.{annexb, deliver, has_key_nal}
use wa_calls.Media.H264.Split.{
  Coded, coded_stream, IsStream, IsClean, IsUnit, deliver-packetize_h264,
}

pub stream_size : (n b : ℕ) (ks : List ℕ) → some (replicate n b) ≡ some ks → length ks ≡ n
stream_size n b ks e = ground (arith, length-replicate n b)

-- Every byte of the tag is the first of the message, and every byte of the stream the key's first.
unfoldable pub stand_in : Crypto
stand_in = record {
  hmac_sha1 = λ key message. replicate 20 (byte_at message 0);
  key_stream = λ key iv n. some (replicate n (byte_at key 0));
  hmac_length = λ key message. length-replicate 20 (byte_at message 0);
  stream_length = λ key iv n ks e. stream_size n (byte_at key 0) ks e;
}

abbrev context : SrtpContext
context = record {
  session_key = 7 ∷ 9 ∷ [];
  session_salt = replicate 14 3;
  auth_key = 5 ∷ [];
  roc = 0;
  last_seq = 65535;
  initialized = true;
  auth_tag_len = 4;
  replay_highest = 65535;
  replay_window = 1;
  replay_seen = true;
}

abbrev pub packet : RtpPacket
packet = record { header = new_rtp_header 120 0 960 77; payload = 1 ∷ 2 ∷ 3 ∷ [] }

pub packet-IsWellFormed : IsWellFormed packet.header
unfolding new_rtp_header
packet-IsWellFormed = ground arith

context-SameKeys : SameKeys context context
context-SameKeys = record { same_key = refl; same_salt = refl; same_auth = refl; same_tag = refl }

unprotect-protect_example :
    (d : List ℕ) × (protect stand_in context packet ≡ (update_roc context 0, ok d))
    × (unprotect stand_in context d ≡ (after_receive context packet 1, ok packet))
unfolding new_rtp_header update_roc estimate_roc replay_check stand_in
unprotect-protect_example =
    unprotect-protect stand_in context context packet (7 ∷ 7 ∷ 7 ∷ []) context-SameKeys
      packet-IsWellFormed (omega arith) (λ e. cc) refl refl refl

abbrev new_context : SrtpContext
new_context = record context { replay_seen = false; replay_highest = 0; replay_window = 0 }

receive_all-IsDistinct_example :
    IsDistinct (receive_all stand_in new_context [] (replicate 3 (replicate 20 128))).1
receive_all-IsDistinct_example =
    receive_all-IsDistinct stand_in new_context (replicate 3 (replicate 20 128)) refl

replay_check-offer_all_iff_example :
    (replay_check (offer_all (new_context, []) (7 ∷ 90 ∷ 7 ∷ [])).0 8 ≡ true) ↔ (
      (contains 8 (offer_all (new_context, []) (7 ∷ 90 ∷ 7 ∷ [])).1 ≡ false)
      × All (λ j. j < 72) (offer_all (new_context, []) (7 ∷ 90 ∷ 7 ∷ [])).1)
replay_check-offer_all_iff_example = replay_check-offer_all_iff new_context (7 ∷ 90 ∷ 7 ∷ []) 8 refl

next_index_example :
    (packet_index (update_roc context 0) 0 ≡ 65536) × (last_index (update_roc context 0) ≡ 65536)
next_index_example = next_index context refl (omega arith) (omega arith)

abbrev session : RtpSession
session = record {
  ssrc = 77;
  payload_type = 120;
  sequence_number = 65535;
  sample_rate = 16000;
  timestamp = 4294967000;
  samples_per_packet = 960;
}

session-IsInRange : IsInRange session
session-IsInRange = ground arith

abbrev payloads : List (List ℕ × Bool)
payloads = (1 ∷ [], false) ∷ (2 ∷ [], true) ∷ []

create_packets-IsNumbered_example :
    IsNumbered 65535 4294967000 960 (create_packets session payloads)
create_packets-IsNumbered_example =
    create_packets-IsNumbered session payloads session-IsInRange (omega arith)

-- The keys of the two directions, and what the stand-in derives from them.
abbrev keying : ℕ → SrtpKeyingMaterial
keying x = record { master_key = replicate 16 x; master_salt = replicate 14 x }

abbrev derived : ℕ → SrtpContext
derived x = record {
  session_key = replicate 16 x;
  session_salt = replicate 14 x;
  auth_key = replicate 20 x;
  roc = 0;
  last_seq = 0;
  initialized = false;
  auth_tag_len = 4;
  replay_highest = 0;
  replay_window = 0;
  replay_seen = false;
}

abbrev near : SrtpSession
near = record { send_ctx = derived 7; recv_ctx = derived 9 }

abbrev far : SrtpSession
far = record { send_ctx = derived 9; recv_ctx = derived 7 }

near_made : new_srtp_session stand_in (keying 7) (keying 9) 4 4 ≡ some near
unfolding new_srtp_session new_srtp_context derive_srtp_key aes_ctr_xor xor_bytes stand_in
    Option.bind
near_made = refl

far_made : new_srtp_session stand_in (keying 9) (keying 7) 4 4 ≡ some far
unfolding new_srtp_session new_srtp_context derive_srtp_key aes_ctr_xor xor_bytes stand_in
    Option.bind
far_made = refl

stand_in-Accepts : Accepts stand_in (replicate 16 7)
unfolding Accepts stand_in
stand_in-Accepts = λ iv n. (replicate n 7, refl)

transmit-create_packets_example :
    transmit stand_in near.send_ctx far.recv_ctx (create_packets session payloads)
    ≡ map ok (create_packets session payloads)
transmit-create_packets_example =
    transmit-create_packets stand_in (keying 7) (keying 9) 4 4 near far session payloads near_made
      far_made (omega arith) stand_in-Accepts session-IsInRange ((λ e. cc), ((λ e. cc), tt))
      (omega arith)

abbrev extended : RtpHeader
extended = record packet.header {
  extension = true;
  extension_profile = 48862;
  extension_data = replicate 4 1;
}

decode_packet_panics_example :
    decode_packet (fixed_front extended ++ (csrc_bytes [] ++ 190 ∷ 222 ∷ [])) ≡ Result.panics
unfolding new_rtp_header
decode_packet_panics_example =
    decode_packet_panics extended (190 ∷ 222 ∷ []) (ground arith) refl (omega arith)

-- An SPS of four bytes and an IDR slice of seven.
abbrev units : List (List ℕ)
units = (103 ∷ 66 ∷ 0 ∷ 10 ∷ []) ∷ (101 ∷ 136 ∷ 132 ∷ 0 ∷ 0 ∷ 3 ∷ 1 ∷ []) ∷ []

units-IsNal : All IsNal units
unfolding IsNal
units-IsNal =
    ((omega arith, omega arith, omega arith), ((omega arith, omega arith, omega arith), tt))

-- The SPS behind a start code of four bytes, the slice behind one of three.
abbrev coded_units : List Coded
coded_units = (true, 103 ∷ 66 ∷ 0 ∷ 10 ∷ []) ∷ (false, 101 ∷ 136 ∷ 132 ∷ 0 ∷ 0 ∷ 3 ∷ 1 ∷ []) ∷ []

coded_units-IsStream : IsStream coded_units
unfolding IsStream IsUnit IsClean start_code
coded_units-IsStream = (
  (omega arith, (refl, (refl, (refl, (refl, tt))))),
  refl,
  ((omega arith, (refl, (refl, (refl, (refl, (refl, (refl, (refl, tt)))))))), tt, tt),
)

deliver-packetize_h264_example :
    deliver new_depacketizer (packetize_h264 (coded_stream coded_units) 5)
    ≡ (new_depacketizer, some (annexb units, true))
unfolding has_key_nal
deliver-packetize_h264_example =
    deliver-packetize_h264 5 coded_units (omega arith) units-IsNal coded_units-IsStream
      (omega arith)

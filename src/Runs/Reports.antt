-- ===== src/Runs/Reports.antt =====
-- The theorems on RTCP, SRTCP and STUN, at concrete packets.
use wa_calls.Base.{
  ℕ, ◌≤◌, ◌<◌, ◌≡◌, refl, ◌↔◌, true, false, some, List, [], ◌∷◌, ◌++◌, arith, length, replicate,
}
use wa_calls.Media.Rtp.HeaderTrip.{header_bytes}
use wa_calls.Media.Srtp.Protect.{ok}
use wa_calls.Media.Srtp.Stream.{Accepts}
use wa_calls.Media.Srtcp.Context.{SrtcpContext, srtcp_protect, srtcp_unprotect}
use wa_calls.Media.Srtcp.RoundTrip.{srtcp_unprotect-srtcp_protect}
use wa_calls.Media.Rtcp.Build.{RtcpSenderStats, RtcpReportBlock, build_rtcp_compound}
use wa_calls.Media.Rtcp.Parse.{parse_rtcp_compound}
use wa_calls.Media.Rtcp.RoundTrip.{inbound_blocks, ntp_mid, parse-build_rtcp_compound}
use wa_calls.Media.Rtcp.Receiver.{
  RtcpReceiverStats, new_rtcp_receiver_stats, note_rtp, ext_high, report_block_of,
}
use wa_calls.Media.Rtcp.Tracking.{
  IsTracking, AreTimely, note_all, report_block_of-note_all, note_rtp_late,
}
use wa_calls.Transport.Stun.Message.{encode_attribute, build_stun_message}
use wa_calls.Transport.Stun.Parse.{
  StunAttribute, StunResponseInfo, parse_stun_response, method_of, class_of,
}
use wa_calls.Transport.Stun.RoundTrip.{encode_all}
use wa_calls.Transport.Stun.Built.{sent_attributes, parse-build_stun_message}
use wa_calls.Transport.Stun.Classes.{
  is_rtp_packet, is_stun_packet, is_rtcp_packet, is_rtcp_packet-header_bytes_iff,
}
use wa_calls.Runs.Streams.{stand_in, packet, packet-IsWellFormed}

abbrev rtcp_context : SrtcpContext
rtcp_context = record { session_key = 7 ∷ []; session_salt = replicate 14 3; auth_key = 5 ∷ [] }

rtcp_context-Accepts : Accepts stand_in (7 ∷ [])
unfolding Accepts stand_in
rtcp_context-Accepts = λ iv n. (replicate n 7, refl)

abbrev report : List ℕ
report = 129 ∷ 208 ∷ 0 ∷ 2 ∷ replicate 8 17

srtcp_unprotect-srtcp_protect_example :
    (d : List ℕ) × (srtcp_protect stand_in rtcp_context report 41 ≡ ok d)
    × (srtcp_unprotect stand_in rtcp_context d ≡ ok report)
srtcp_unprotect-srtcp_protect_example =
    srtcp_unprotect-srtcp_protect stand_in rtcp_context report 41 (omega arith) (omega arith)
      rtcp_context-Accepts

abbrev stats : RtcpSenderStats
stats = record { packets_sent = 12; octets_sent = 900; rtp_timestamp = 11520 }

abbrev block : RtcpReportBlock
block = record {
  ssrc = 77;
  fraction_lost = 3;
  cumulative_lost = 70000;
  ext_high_seq = 65540;
  jitter = 9;
  lsr = 1234567;
  dlsr = 655;
}

parse-build_rtcp_compound_example :
    parse_rtcp_compound (build_rtcp_compound 5 stats (some block) (119 ∷ 97 ∷ []) 1700000000123)
    ≡ record {
      has_sr = true;
      sr_ntp_mid = ntp_mid 1700000000123;
      blocks = inbound_blocks (some block);
    }
parse-build_rtcp_compound_example =
    parse-build_rtcp_compound 5 stats (some block) (119 ∷ 97 ∷ []) 1700000000123 (omega arith)
      (ground arith)

-- 65534, then one across the wrap with two lost, and one of those late by one.
abbrev arrivals : List ℕ
arrivals = 65537 ∷ 65536 ∷ []

arrivals-AreTimely : AreTimely 65534 arrivals
arrivals-AreTimely = ground arith

report_block_of-note_all_example :
    let r = note_all (note_rtp new_rtcp_receiver_stats 65534) arrivals in
    ((report_block_of r 77 1000 0).1.ext_high_seq ≡ 65537)
    × ((report_block_of r 77 1000 0).1.cumulative_lost ≡ 1)
report_block_of-note_all_example =
    report_block_of-note_all 65534 arrivals 77 1000 0 (omega arith) arrivals-AreTimely (omega arith)

-- The receiver after 65534 and 65537.
abbrev wrapped : RtcpReceiverStats
wrapped = record new_rtcp_receiver_stats {
  base_seq = 65534;
  max_seq = 1;
  cycles = 65536;
  received = 2;
  init_seq = true;
}

wrapped-IsTracking : IsTracking wrapped 65534 65537
wrapped-IsTracking = ground arith

note_rtp_late_example : (ext_high (note_rtp wrapped 65535) ≡ 131071) × (98305 < 131071)
note_rtp_late_example =
    note_rtp_late wrapped 65534 65537 65535 wrapped-IsTracking (omega arith) (omega arith)
      (ground arith)

abbrev request_attributes : List StunAttribute
request_attributes =
    record { type = 6; body = 97 ∷ 58 ∷ 98 ∷ [] }
    ∷ record { type = 0x24; body = 110 ∷ 0 ∷ 1 ∷ 255 ∷ [] }
    ∷ []

abbrev hash : List ℕ → List ℕ → List ℕ
hash key message = replicate 20 9

abbrev checksum : List ℕ → ℕ
checksum d = 12345

parse-build_stun_message_example :
    (info : StunResponseInfo) × (parse_stun_response (
        build_stun_message hash checksum 1
          (encode_all request_attributes)
          (replicate 12 4)
          (some (1 ∷ []))
          true)
      ≡ some info)
    × (info.raw_type ≡ 1)
    × (info.method ≡ method_of 1)
    × (info.stun_class ≡ class_of 1)
    × (info.attributes
        ≡ sent_attributes hash checksum 1 request_attributes (replicate 12 4) (some (1 ∷ [])) true)
unfolding encode_all encode_attribute
parse-build_stun_message_example =
    parse-build_stun_message hash checksum 1 request_attributes (replicate 12 4) (some (1 ∷ []))
      true (λ k m. refl) (omega arith) (omega arith)
      ((omega arith, omega arith), ((omega arith, omega arith), tt)) (omega arith)

is_rtcp_packet-header_bytes_iff_example :
    (is_rtp_packet (header_bytes packet.header ++ (1 ∷ [])) ≡ true)
    × (is_stun_packet (header_bytes packet.header ++ (1 ∷ [])) ≡ false)
    × ((is_rtcp_packet (header_bytes packet.header ++ (1 ∷ [])) ≡ true) ↔ (
        (packet.header.padding ≡ false)
        × (packet.header.extension ≡ false)
        × (length packet.header.csrc ≤ 1)))
is_rtcp_packet-header_bytes_iff_example =
    is_rtcp_packet-header_bytes_iff packet.header (1 ∷ []) packet-IsWellFormed

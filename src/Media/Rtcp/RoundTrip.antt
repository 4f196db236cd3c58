-- ===== src/Media/Rtcp/RoundTrip.antt =====
-- ParseRTCPCompound reads what BuildRTCPCompound wrote.
use wa_calls.Base.{
  ℕ, zero, suc, ◌+◌, ◌-◌, ◌*◌, ◌/◌, ◌%◌, ◌<◌, ◌≡◌, refl, sym, ap, ◌∙◌, true, false, not, ◌||◌,
  Option, none, some, List, [], ◌∷◌, ◌++◌, append-nil, arith, ltb, ◌==◌, length, take, drop,
  length-append, length-replicate, take_front, drop_front, bit_and,
}
use wa_calls.Bytes.{get_u32, put_u16, put_u32, IsByte, IsU16, IsU32, u16}
use wa_calls.Media.Rtcp.Build.{
  RtcpSenderStats, RtcpReportBlock, ntp_sec, ntp_frac, block_bytes, build_sender_report_with_block,
  build_sdes, sdes_item, sdes_chunk, sender_info, build_rtcp_compound,
}
use wa_calls.Media.Rtcp.Parse.{
  InboundReportBlock, InboundRtcp, report_block, parse_report_blocks, take_report, parse_loop,
  parse_rtcp_compound,
}

-- The fields fit the widths that the packet gives them.
pub record IsInRange (rb : RtcpReportBlock) : Type 0 where
  pub ssrc_fits : IsU32 rb.ssrc
  pub fraction_fits : IsByte rb.fraction_lost
  pub lost_fits : rb.cumulative_lost < 16777216
  pub seq_fits : IsU32 rb.ext_high_seq
  pub jitter_fits : IsU32 rb.jitter
  pub lsr_fits : IsU32 rb.lsr
  pub dlsr_fits : IsU32 rb.dlsr

abbrev inbound_of : RtcpReportBlock → InboundReportBlock
inbound_of rb = record {
  ssrc = rb.ssrc;
  fraction_lost = rb.fraction_lost;
  cumulative_lost = rb.cumulative_lost;
  ext_high_seq = rb.ext_high_seq;
  jitter = rb.jitter;
  lsr = rb.lsr;
  dlsr = rb.dlsr;
}

abbrev pub inbound_blocks : Option RtcpReportBlock → List InboundReportBlock
inbound_blocks none = []
inbound_blocks (some rb) = inbound_of rb ∷ []

report_block-block_bytes :
    (rb : RtcpReportBlock) → IsInRange rb → report_block (block_bytes rb) ≡ inbound_of rb
unfolding report_block block_bytes
report_block-block_bytes rb r = ground (arith, r)

-- One round takes a whole packet off the front of the data.
one_packet :
    (fuel : ℕ) (out : InboundRtcp) (a b c e : ℕ) (body rest : List ℕ)
    → bit_and (a / 64) 3 ≡ 2
    → (c * 256 + e + 1) * 4 ≡ 4 + length body
    → parse_loop (suc fuel) out ((a ∷ b ∷ c ∷ e ∷ body) ++ rest)
      ≡ parse_loop fuel (take_report out (bit_and a 0x1f) b (a ∷ b ∷ c ∷ e ∷ body)) rest
unfolding parse_loop
one_packet fuel out a b c e body rest version size = rw (long, right, whole, front, back) refl
  where
    n_is : (c * 256 + e + 1) * 4 ≡ length (a ∷ b ∷ c ∷ e ∷ body)
    n_is = size ∙ omega arith

    long : ltb (length ((a ∷ b ∷ c ∷ e ∷ body) ++ rest)) 4 ≡ false
    long = ground arith

    right : not (bit_and (a / 64) 3 == 2) ≡ false
    right = ground (arith, version)

    whole :
        (ltb ((c * 256 + e + 1) * 4) 4
          || ltb (length ((a ∷ b ∷ c ∷ e ∷ body) ++ rest)) ((c * 256 + e + 1) * 4))
        ≡ false
    whole = ground (arith, size, length-append body rest)

    front : take ((c * 256 + e + 1) * 4) ((a ∷ b ∷ c ∷ e ∷ body) ++ rest) ≡ a ∷ b ∷ c ∷ e ∷ body
    front = rw n_is (take_front (a ∷ b ∷ c ∷ e ∷ body) rest)

    back : drop ((c * 256 + e + 1) * 4) ((a ∷ b ∷ c ∷ e ∷ body) ++ rest) ≡ rest
    back = rw n_is (drop_front (a ∷ b ∷ c ∷ e ∷ body) rest)

-- A packet of another type leaves the report as it is.
sdes_ignored : (out : InboundRtcp) (rc : ℕ) (p : List ℕ) → take_report out rc 202 p ≡ out
unfolding take_report
sdes_ignored out rc p = refl

parse_loop-nil : (fuel : ℕ) (out : InboundRtcp) → parse_loop fuel out [] ≡ out
unfolding parse_loop
parse_loop-nil zero out = refl
parse_loop-nil (suc fuel) out = refl

-- The SDES packet has a length that the parser accepts, whatever the CNAME.
sdes_size :
    (ssrc : ℕ) (cname : List ℕ)
    → length cname < 65536
    → (chunk : List ℕ) × (n : ℕ) × (build_sdes ssrc cname ≡ 0x81 ∷ 202 ∷ (put_u16 n ++ chunk))
      × ((n + 1) * 4 ≡ 4 + length chunk)
      × IsU16 n
unfolding build_sdes
sdes_size ssrc cname short = (
  sdes_chunk ssrc cname,
  u16 ((4 + length (sdes_chunk ssrc cname)) / 4 - 1),
  refl,
  omega (arith, item, padded),
  omega arith,
)
  where
    item : length (sdes_item ssrc cname) ≡ 7 + length cname
    item = omega (arith, length-append cname (0 ∷ []))

    padded :
        length (sdes_chunk ssrc cname)
        ≡ length (sdes_item ssrc cname) + (4 - (4 + length (sdes_item ssrc cname)) % 4) % 4
    padded =
        length-append (sdes_item ssrc cname) _
        ∙ ap (λ k. length (sdes_item ssrc cname) + k)
            (length-replicate {A = ℕ} ((4 - (4 + length (sdes_item ssrc cname)) % 4) % 4) 0)

sdes_round :
    (fuel : ℕ) (out : InboundRtcp) (ssrc : ℕ) (cname : List ℕ)
    → length cname < 65536
    → parse_loop (suc fuel) out (build_sdes ssrc cname) ≡ out
sdes_round fuel out ssrc cname short =
    let (chunk, n, e, size, fits) = sdes_size ssrc cname short in
    rw e (
      ap (parse_loop (suc fuel) out) (sym (append-nil (0x81 ∷ 202 ∷ (put_u16 n ++ chunk))))
      ∙ one_packet fuel out 0x81 202 (n / 256 % 256) (n % 256) chunk [] refl (omega arith)
      ∙ rw sdes_ignored (parse_loop-nil fuel out))

-- The middle 32 bits of the NTP time of a report.
abbrev pub ntp_mid : ℕ → ℕ
ntp_mid now_ms = ntp_sec now_ms % 65536 * 65536 + ntp_frac now_ms / 65536

abbrev nothing_yet : InboundRtcp
nothing_yet = record { has_sr = false; sr_ntp_mid = 0; blocks = [] }

ntp_frac-le : (now_ms : ℕ) → ntp_frac now_ms < 4294967296
unfolding ntp_frac
ntp_frac-le now_ms = omega arith

length-block_bytes : (rb : RtcpReportBlock) → length (block_bytes rb) ≡ 24
unfolding block_bytes
length-block_bytes rb = refl

-- The report that a sender report alone makes, with one block and with none.
sr_with_block :
    (local : ℕ) (s : RtcpSenderStats) (rb : RtcpReportBlock) (now_ms : ℕ) (fuel : ℕ) (rest : List ℕ)
    → IsInRange rb
    → parse_loop
        (suc fuel)
        nothing_yet
        (build_sender_report_with_block local s (some rb) now_ms ++ rest)
      ≡ parse_loop fuel
          (record { has_sr = true; sr_ntp_mid = ntp_mid now_ms; blocks = inbound_of rb ∷ [] })
          rest
unfolding build_sender_report_with_block
sr_with_block local s rb now_ms fuel rest r =
    one_packet fuel nothing_yet 129 200 0 12
      (put_u32 local ++ (sender_info s now_ms ++ block_bytes rb)) rest refl
      (omega (arith, length-block_bytes rb))
    ∙ ap (λ out. parse_loop fuel out rest) taken
  where
    block : parse_report_blocks 1 (block_bytes rb) ≡ inbound_of rb ∷ []
    block =
        unfold parse_report_blocks in
        rw (length-block_bytes rb) (ap (λ b. b ∷ []) (report_block-block_bytes rb r))

    mid : get_u32 (drop 6 (put_u32 local ++ sender_info s now_ms)) ≡ ntp_mid now_ms
    mid = omega (arith, ntp_frac-le now_ms)

    taken :
        take_report nothing_yet 1 200
          (129 ∷ 200 ∷ 0 ∷ 12 ∷ (put_u32 local ++ (sender_info s now_ms ++ block_bytes rb)))
        ≡ record { has_sr = true; sr_ntp_mid = ntp_mid now_ms; blocks = inbound_of rb ∷ [] }
    taken = unfold take_report in rw (block, mid, length-block_bytes rb) refl

sr_without_block :
    (local : ℕ) (s : RtcpSenderStats) (now_ms : ℕ) (fuel : ℕ) (rest : List ℕ)
    → parse_loop (suc fuel) nothing_yet (build_sender_report_with_block local s none now_ms ++ rest)
      ≡ parse_loop fuel (record { has_sr = true; sr_ntp_mid = ntp_mid now_ms; blocks = [] }) rest
unfolding build_sender_report_with_block
sr_without_block local s now_ms fuel rest =
    one_packet fuel nothing_yet 128 200 0 6 (put_u32 local ++ sender_info s now_ms) rest refl
      (omega arith)
    ∙ ap (λ out. parse_loop fuel out rest) taken
  where
    mid : get_u32 (drop 6 (put_u32 local ++ sender_info s now_ms)) ≡ ntp_mid now_ms
    mid = omega (arith, ntp_frac-le now_ms)

    taken :
        take_report nothing_yet 0 200 (128 ∷ 200 ∷ 0 ∷ 6 ∷ (put_u32 local ++ sender_info s now_ms))
        ≡ record { has_sr = true; sr_ntp_mid = ntp_mid now_ms; blocks = [] }
    taken = unfold take_report parse_report_blocks in rw mid refl

abbrev IsBlockInRange : Option RtcpReportBlock → Type 0
IsBlockInRange none = Unit
IsBlockInRange (some rb) = IsInRange rb

-- ParseRTCPCompound of a compound that BuildRTCPCompound built: a sender report, the middle 32 bits
-- of its NTP time, and the report block, if one was given, field by field; for a CNAME of up to
-- 65,535 bytes and a block whose fields fit their widths.
pub parse-build_rtcp_compound :
    (local : ℕ) (s : RtcpSenderStats) (rb : Option RtcpReportBlock) (cname : List ℕ) (now_ms : ℕ)
    → length cname < 65536
    → IsBlockInRange rb
    → parse_rtcp_compound (build_rtcp_compound local s rb cname now_ms)
      ≡ record { has_sr = true; sr_ntp_mid = ntp_mid now_ms; blocks = inbound_blocks rb }
unfolding parse_rtcp_compound build_rtcp_compound
parse-build_rtcp_compound local s none cname now_ms short r =
    let d = build_sender_report_with_block local s none now_ms ++ build_sdes local cname in
    let e : length d ≡ suc (suc (length d - 2)) =
      unfold build_sender_report_with_block in omega arith in
    ap (λ n. parse_loop n nothing_yet d) e
    ∙ sr_without_block local s now_ms (suc (length d - 2)) (build_sdes local cname)
    ∙ sdes_round (length d - 2) _ local cname short
parse-build_rtcp_compound local s (some rb) cname now_ms short r =
    let d = build_sender_report_with_block local s (some rb) now_ms ++ build_sdes local cname in
    let e : length d ≡ suc (suc (length d - 2)) =
      unfold build_sender_report_with_block in omega arith in
    ap (λ n. parse_loop n nothing_yet d) e
    ∙ sr_with_block local s rb now_ms (suc (length d - 2)) (build_sdes local cname) r
    ∙ sdes_round (length d - 2) _ local cname short

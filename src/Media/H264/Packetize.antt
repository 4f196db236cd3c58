-- ===== src/Media/H264/Packetize.antt =====
-- PacketizeH264 of h264.go.
use wa_calls.Base.{
  ℕ, zero, suc, ◌-◌, Bool, true, false, List, [], ◌∷◌, ◌++◌, if◌then◌else◌, leb, length, take, drop,
  bit_and, bit_or,
}
use wa_calls.Media.H264.Annexb.{annexb_nalus}

abbrev h264_max_payload : ℕ
h264_max_payload = 1100

-- The FU header of a fragment: the NAL's type, with the start and end bits.
unfoldable pub fu_header : ℕ → Bool → Bool → ℕ
fu_header nal_header start end =
    let fu_type = bit_and nal_header 0x1F in
    let h = if start then bit_or fu_type 0x80 else fu_type in if end then bit_or h 0x40 else h

unfoldable pub fu_indicator : ℕ → ℕ
fu_indicator nal_header = bit_or (bit_and nal_header 0xE0) 28

-- The loop over the body in steps of `chunk`: `body` is `body[i:]`, and `start` says that i is 0.
-- Each round takes a byte at least, so the body's length is enough fuel.
unfoldable pub fragments : ℕ → ℕ → ℕ → Bool → List ℕ → List (List ℕ)
fragments zero chunk nal_header start body = []
fragments (suc fuel) chunk nal_header start [] = []
fragments (suc fuel) chunk nal_header start (x ∷ r) =
    let rest = fragments fuel chunk nal_header false (drop chunk (x ∷ r)) in
    let end = leb (length (x ∷ r)) chunk in
    (fu_indicator nal_header ∷ fu_header nal_header start end ∷ take chunk (x ∷ r)) ∷ rest

unfoldable pub packetize_nal : ℕ → List ℕ → List (List ℕ)
packetize_nal max_payload [] = [] ∷ []
packetize_nal max_payload (header ∷ body) =
    if leb (length (header ∷ body)) max_payload
    then (header ∷ body) ∷ []
    else fragments (length body) (max_payload - 2) header true body

unfoldable pub packetize_nals : ℕ → List (List ℕ) → List (List ℕ)
packetize_nals max_payload [] = []
packetize_nals max_payload (nal ∷ nals) =
    packetize_nal max_payload nal ++ packetize_nals max_payload nals

unfoldable pub packetize_h264 : List ℕ → ℕ → List (List ℕ)
packetize_h264 annexb max_payload =
    packetize_nals (if leb max_payload 2 then h264_max_payload else max_payload)
      (annexb_nalus annexb)

-- ===== src/Media/H264/Depacketize.antt =====
-- H264Depacketizer of h264.go.
use wa_calls.Base.{
  ℕ, zero, suc, ◌+◌, ◌*◌, Bool, true, false, not, ◌&&◌, ◌||◌, Option, none, some, List, [], ◌∷◌,
  ◌++◌, if◌then◌else◌, ltb, leb, ◌==◌, length, take, drop, bit_and, bit_or,
}

-- `au` nil and empty are not told apart by the code: flush tests its length.
pub record Depacketizer : Type 0 where
  pub fu : List ℕ
  pub fu_hdr : Bool
  pub au : List ℕ
  pub has_key : Bool

abbrev pub new_depacketizer : Depacketizer
new_depacketizer = record { fu = []; fu_hdr = false; au = []; has_key = false }

-- IDR slice, SPS and PPS.
abbrev pub is_key_type : ℕ → Bool
is_key_type t = t == 5 || t == 7 || t == 8

unfoldable pub append_nal : Depacketizer → List ℕ → Depacketizer
append_nal d [] = d
append_nal d (h ∷ r) = record d {
  has_key = is_key_type (bit_and h 0x1F) || d.has_key;
  au = d.au ++ 0 ∷ 0 ∷ 0 ∷ 1 ∷ h ∷ r;
}

-- The access unit and its keyframe flag, when complete.
unfoldable pub flush : Depacketizer → Bool → Depacketizer × Option (List ℕ × Bool)
flush d marker =
    if not marker || length d.au == 0
    then (d, none)
    else (record d { au = []; has_key = false }, some (d.au, d.has_key))

-- The loop over the units of a STAP-A packet. Each round takes two bytes at least.
pub stap_loop : ℕ → Depacketizer → List ℕ → Depacketizer
stap_loop zero d buf = d
stap_loop (suc fuel) d (a ∷ b ∷ buf) =
    let size = a * 256 + b in
    let rest = stap_loop fuel (append_nal d (take size buf)) (drop size buf) in
    if size == 0 || ltb (length buf) size then d else rest
stap_loop (suc fuel) d _ = d

-- The FU-A case: the indicator, and what follows it.
unfoldable pub push_fu : Depacketizer → ℕ → List ℕ → Depacketizer
push_fu d indicator [] = d
push_fu d indicator (fu_header ∷ body) =
    let start = not (bit_and fu_header 0x80 == 0) in
    let end = not (bit_and fu_header 0x40 == 0) in
    let reconstructed = bit_or (bit_and indicator 0xE0) (bit_and fu_header 0x1F) in
    let d1 = if start then record d { fu = reconstructed ∷ []; fu_hdr = true } else d in
    let d2 = if d1.fu_hdr then record d1 { fu = d1.fu ++ body } else d1 in
    if end && d2.fu_hdr then record (append_nal d2 d2.fu) { fu = []; fu_hdr = false } else d2

-- The switch of Push, before flush.
unfoldable pub take_payload : Depacketizer → List ℕ → Depacketizer
take_payload d [] = d
take_payload d (h ∷ r) =
    let nal_type = bit_and h 0x1F in
    if leb 1 nal_type && leb nal_type 23
    then append_nal d (h ∷ r)
    else if nal_type == 24
    then stap_loop (length r) d r
    else if nal_type == 28
    then push_fu d h r
    else d

unfoldable pub push : Depacketizer → List ℕ → Bool → Depacketizer × Option (List ℕ × Bool)
unfolding take_payload flush
push d payload marker = flush (take_payload d payload) marker

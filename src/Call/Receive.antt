-- ===== src/Call/Receive.antt =====
-- onRelayData of internal/voip/call/callmanager_media.go on an RTP packet, as far as it chooses the
-- stream that is forwarded and drops the copies that several relays bring. `is_decoded` says whether
-- Unprotect accepts the packet, with a payload, and there is a handler for it.
use wa_calls.Base.{
  ℕ, ◌+◌, ◌*◌, Bool, true, false, ◌&&◌, ◌||◌, not, List, [], ◌∷◌, if◌then◌else◌, ltb, ◌==◌, get_or,
  set, replicate, length,
}

abbrev pub rx_failover_silence : ℕ
rx_failover_silence = 2000000000

-- The length of rxDedupRing.
abbrev pub rx_dedup_len : ℕ
rx_dedup_len = 512

pub record CopyFilter : Type 0 where
  pub dedup : List ℕ
  pub ring : List ℕ
  pub idx : ℕ
  pub filled : Bool

pub record RxState : Type 0 where
  pub locked_ssrc : ℕ
  pub locked_last_ns : ℕ
  pub filter : CopyFilter

abbrev pub new_copy_filter : ℕ → CopyFilter
new_copy_filter n = record { dedup = []; ring = replicate n 0; idx = 0; filled = false }

abbrev pub new_rx_state : RxState
new_rx_state = record { locked_ssrc = 0; locked_last_ns = 0; filter = new_copy_filter rx_dedup_len }

abbrev pub has : ℕ → List ℕ → Bool
has k [] = false
has k (x ∷ xs) = let rest = has k xs in if x == k then true else rest

-- delete(m.rxDedup, k)
abbrev pub forget : ℕ → List ℕ → List ℕ
forget k [] = []
forget k (x ∷ xs) = let rest = forget k xs in if x == k then rest else x ∷ rest

-- What happens to a key that is not known yet.
abbrev pub remember : CopyFilter → ℕ → CopyFilter
remember f k =
    let known = if f.filled then forget (get_or f.ring f.idx 0) f.dedup else f.dedup in
    let ring = set f.ring f.idx k in
    if f.idx + 1 == length ring
    then record { dedup = k ∷ known; ring = ring; idx = 0; filled = true }
    else record { dedup = k ∷ known; ring = ring; idx = f.idx + 1; filled = f.filled }

pub data RxVerdict : Type 0 where
  own_stream other_stream copied undecoded forwarded : RxVerdict

-- `nowNs-m.rxLockedLastNs > int64(rxFailoverSilence)`
abbrev pub is_silent : RxState → ℕ → Bool
is_silent s now = ltb (s.locked_last_ns + rx_failover_silence) now

-- The lock is committed once the packet is decoded.
abbrev pub commit_lock : RxState → ℕ → ℕ → Bool → RxState
commit_lock s ssrc now is_failover =
    if (s.locked_ssrc == 0) || (is_failover && not (ssrc == s.locked_ssrc) && is_silent s now)
    then record s { locked_ssrc = ssrc; locked_last_ns = now }
    else s

abbrev pub take_packet : RxState → ℕ → ℕ → ℕ → Bool → Bool → RxVerdict × RxState
take_packet s ssrc seq now is_decoded is_failover =
    let key = ssrc * 65536 + seq in
    let known = if ssrc == s.locked_ssrc then record s { locked_last_ns = now } else s in
    let noted = record known { filter = remember s.filter key } in
    if has key s.filter.dedup
    then (copied, known)
    else if is_decoded
    then (forwarded, commit_lock noted ssrc now is_failover)
    else (undecoded, noted)

unfoldable pub on_rtp : ℕ → RxState → ℕ → ℕ → ℕ → Bool → RxVerdict × RxState
on_rtp self_ssrc s ssrc seq now is_decoded =
    let is_other = not (s.locked_ssrc == 0) && not (ssrc == s.locked_ssrc) in
    if ssrc == self_ssrc
    then (own_stream, s)
    else if is_other && not (is_silent s now)
    then (other_stream, s)
    else take_packet s ssrc seq now is_decoded is_other

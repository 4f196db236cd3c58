-- ===== src/Media/Srtp/Context.antt =====
-- SrtpContext of srtp.go: the rollover counter and the replay window. Sequence numbers are below
-- 2^16, the rollover counter below 2^32 and indices below 2^48, each in its Go type.
use wa_calls.Base.{
  ℕ, ◌+◌, ◌-◌, ◌*◌, ◌^◌, Bool, true, false, ◌||◌, not, List, if◌then◌else◌, ltb, leb, ◌==◌, bit_and,
  bit_or,
}
use wa_calls.Bytes.{u32, u64}

-- SrtpErrorType; the texts of the errors are left out.
pub data SrtpError : Type 0 where
  packet_too_short auth_failed encryption decryption replay : SrtpError

pub record SrtpContext : Type 0 where
  pub session_key : List ℕ
  pub session_salt : List ℕ
  pub auth_key : List ℕ
  pub roc : ℕ
  pub last_seq : ℕ
  pub initialized : Bool
  pub auth_tag_len : ℕ
  pub replay_highest : ℕ
  pub replay_window : ℕ
  pub replay_seen : Bool

abbrev srtp_replay_window_size : ℕ
srtp_replay_window_size = 64

-- `int32(seq) - int32(c.lastSeq) < -32768` of 16-bit numbers is `seq + 32768 < c.lastSeq`.
unfoldable pub update_roc : SrtpContext → ℕ → SrtpContext
update_roc c seq =
    if not c.initialized
    then record c { last_seq = seq; initialized = true }
    else if ltb (seq + 32768) c.last_seq
    then record c { roc = u32 (c.roc + 1); last_seq = seq }
    else record c { last_seq = seq }

-- `c.roc - 1` of uint32.
unfoldable pub estimate_roc : SrtpContext → ℕ → ℕ
estimate_roc c seq =
    if not c.initialized
    then c.roc
    else if ltb c.last_seq 0x8000
    then (if ltb (c.last_seq + 0x8000) seq then u32 (c.roc + 4294967296 - 1) else c.roc)
    else (if ltb (seq + 0x8000) c.last_seq then u32 (c.roc + 1) else c.roc)

unfoldable pub commit_roc : SrtpContext → ℕ → ℕ → SrtpContext
commit_roc c v seq =
    if not c.initialized
    then record c { last_seq = seq; initialized = true }
    else if v == c.roc
    then (if ltb c.last_seq seq then record c { last_seq = seq } else c)
    else if v == u32 (c.roc + 1)
    then record c { roc = v; last_seq = seq }
    else c

-- The error of replayCheck, if any. `1<<delta` is of uint64, and delta is below 64 there.
unfoldable pub replay_check : SrtpContext → ℕ → Bool
replay_check c index =
    if not c.replay_seen || ltb c.replay_highest index
    then true
    else if leb srtp_replay_window_size (c.replay_highest - index)
    then false
    else bit_and c.replay_window (2 ^ (c.replay_highest - index)) == 0

unfoldable pub replay_update : SrtpContext → ℕ → SrtpContext
replay_update c index =
    if not c.replay_seen
    then record c { replay_seen = true; replay_highest = index; replay_window = 1 }
    else if ltb c.replay_highest index
    then (let delta = index - c.replay_highest in
        record c {
          replay_window =
              if leb srtp_replay_window_size delta
              then 1
              else bit_or (u64 (c.replay_window * 2 ^ delta)) 1;
          replay_highest = index;
        })
    else record c { replay_window = bit_or c.replay_window (u64 (2 ^ (c.replay_highest - index))) }

-- `(uint64(roc) << 16) | uint64(seq)`
abbrev pub index_of : ℕ → ℕ → ℕ
index_of roc seq = bit_or (u64 (roc * 2 ^ 16)) seq

unfoldable pub packet_index : SrtpContext → ℕ → ℕ
packet_index c seq = index_of c.roc seq

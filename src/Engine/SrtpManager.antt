-- ===== src/Engine/SrtpManager.antt =====
-- SrtpManager of internal/voip/engine/srtpmanager.go: a context of SRTP for each SSRC and direction.
-- `added` and `released` are the sums of what the observer's AddMem and ReleaseMem were told. The
-- observer itself, which SetObserver changes, is left out.
use wa_calls.Base.{
  ℕ, ◌+◌, ◌-◌, ◌*◌, Option, none, some, List, [], ◌∷◌, if◌then◌else◌, ltb, ◌==◌, length,
}
use wa_calls.Core.{SrtpKeyingMaterial}
use wa_calls.Media.Rtp.Packet.{RtpPacket, rtp_ssrc}
use wa_calls.Media.Srtp.Context.{SrtpContext}
use wa_calls.Media.Srtp.Protect.{Crypto, SrtpResult, new_srtp_context, protect, unprotect}

abbrev pub srtp_context_bytes : ℕ
srtp_context_bytes = 4096

abbrev pub Contexts : Type 0
Contexts = List (ℕ × SrtpContext)

abbrev pub context_of : ℕ → Contexts → Option SrtpContext
context_of k [] = none
context_of k ((j, c) ∷ m) = let rest = context_of k m in if j == k then some c else rest

-- The context of an SSRC that is in the map, changed.
abbrev pub put_context : ℕ → SrtpContext → Contexts → Contexts
put_context k c [] = []
put_context k c ((j, d) ∷ m) =
    let rest = put_context k c m in if j == k then (j, c) ∷ m else (j, d) ∷ rest

pub record SrtpManager : Type 0 where
  pub send_km : SrtpKeyingMaterial
  pub recv_km : SrtpKeyingMaterial
  pub send_auth : ℕ
  pub recv_auth : ℕ
  pub send : Contexts
  pub recv : Contexts
  pub mem : ℕ
  pub added : ℕ
  pub released : ℕ

abbrev pub new_srtp_manager : SrtpKeyingMaterial → SrtpKeyingMaterial → ℕ → ℕ → SrtpManager
new_srtp_manager send_km recv_km send_auth recv_auth = record {
  send_km = send_km;
  recv_km = recv_km;
  send_auth = send_auth;
  recv_auth = recv_auth;
  send = [];
  recv = [];
  mem = 0;
  added = 0;
  released = 0;
}

-- The errors of the manager itself, and the answer of the context.
pub data ManagerResult (A : Type 0) : Type 0 where
  nil_packet too_short no_context : ManagerResult A
  answer : SrtpResult A → ManagerResult A

abbrev count_context : SrtpManager → SrtpManager
count_context m = record m {
  mem = m.mem + srtp_context_bytes;
  added = m.added + srtp_context_bytes;
}

-- The map with a context for the SSRC, where there is none and one can be made.
abbrev pub with_send : SrtpManager → ℕ → Option SrtpContext → Option SrtpContext → SrtpManager
with_send m ssrc (some c) made = m
with_send m ssrc none none = m
with_send m ssrc none (some c) = record (count_context m) { send = (ssrc, c) ∷ m.send }

abbrev pub with_recv : SrtpManager → ℕ → Option SrtpContext → Option SrtpContext → SrtpManager
with_recv m ssrc (some c) made = m
with_recv m ssrc none none = m
with_recv m ssrc none (some c) = record (count_context m) { recv = (ssrc, c) ∷ m.recv }

module _ (crypto : Crypto) where
  abbrev pub protect_with :
      SrtpManager → RtpPacket → Option SrtpContext → SrtpManager × ManagerResult (List ℕ)
  protect_with m p none = (m, no_context)
  protect_with m p (some c) =
      let (c', r) = protect crypto c p in
      (record m { send = put_context p.header.ssrc c' m.send }, answer r)

  unfoldable pub manager_protect :
      SrtpManager → Option RtpPacket → SrtpManager × ManagerResult (List ℕ)
  manager_protect m none = (m, nil_packet)
  manager_protect m (some p) =
      let ssrc = p.header.ssrc in
      let m' =
        with_send m ssrc (context_of ssrc m.send) (new_srtp_context crypto m.send_km m.send_auth) in
      protect_with m' p (context_of ssrc m'.send)

  abbrev pub unprotect_with :
      SrtpManager → ℕ → List ℕ → Option SrtpContext → SrtpManager × ManagerResult RtpPacket
  unprotect_with m ssrc datagram none = (m, no_context)
  unprotect_with m ssrc datagram (some c) =
      let (c', r) = unprotect crypto c datagram in
      (record m { recv = put_context ssrc c' m.recv }, answer r)

  unfoldable pub manager_unprotect : SrtpManager → List ℕ → SrtpManager × ManagerResult RtpPacket
  manager_unprotect m datagram =
      let ssrc = rtp_ssrc datagram in
      let m' =
        with_recv m ssrc (context_of ssrc m.recv) (new_srtp_context crypto m.recv_km m.recv_auth) in
      if ltb (length datagram) 12
      then (m, too_short)
      else unprotect_with m' ssrc datagram (context_of ssrc m'.recv)

-- ReleaseMem is not called for nothing, which adds nothing here.
unfoldable pub rekey_recv : SrtpManager → SrtpKeyingMaterial → SrtpManager
rekey_recv m recv_km =
    let released = length m.recv * srtp_context_bytes in
    record m {
      mem = m.mem - released;
      recv_km = recv_km;
      recv = [];
      released = m.released + released;
    }

unfoldable pub close_manager : SrtpManager → SrtpManager
close_manager m = record m { mem = 0; send = []; recv = []; released = m.released + m.mem }

-- ===== src/Engine/Memory.antt =====
-- The memory that an SrtpManager reports, over any sequence of calls.
use wa_calls.Base.{ℕ, ◌+◌, ◌*◌, ◌≡◌, refl, sym, Option, none, some, List, [], ◌∷◌, arith, length}
use wa_calls.Core.{SrtpKeyingMaterial}
use wa_calls.Media.Rtp.Packet.{RtpPacket, rtp_ssrc}
use wa_calls.Media.Srtp.Context.{SrtpContext}
use wa_calls.Media.Srtp.Protect.{Crypto, protect, unprotect, new_srtp_context}
use wa_calls.Engine.SrtpManager.{
  SrtpManager, Contexts, context_of, put_context, with_send, with_recv, protect_with,
  unprotect_with, manager_protect, manager_unprotect, rekey_recv, close_manager, new_srtp_manager,
}

-- `mem` is 4096 bytes for each context, and what was added and not yet released.
pub record IsAccounted (m : SrtpManager) : Type 0 where
  pub by_contexts : m.mem ≡ 4096 * (length m.send + length m.recv)
  pub balance : m.added ≡ m.released + m.mem

length-put_context :
    (k : ℕ) (c : SrtpContext) (m : Contexts) → length (put_context k c m) ≡ length m
length-put_context k c [] = refl
length-put_context k c ((j, d) ∷ m) = ground (arith, length-put_context k c m)

with_send-IsAccounted :
    (m : SrtpManager) (ssrc : ℕ) (known made : Option SrtpContext)
    → IsAccounted m
    → IsAccounted (with_send m ssrc known made)
with_send-IsAccounted m ssrc (some c) made h = h
with_send-IsAccounted m ssrc none none h = h
with_send-IsAccounted m ssrc none (some c) h = ground arith

with_recv-IsAccounted :
    (m : SrtpManager) (ssrc : ℕ) (known made : Option SrtpContext)
    → IsAccounted m
    → IsAccounted (with_recv m ssrc known made)
with_recv-IsAccounted m ssrc (some c) made h = h
with_recv-IsAccounted m ssrc none none h = h
with_recv-IsAccounted m ssrc none (some c) h = ground arith

-- A call of the manager.
pub data Call : Type 0 where
  protect_call : Option RtpPacket → Call
  unprotect_call : List ℕ → Call
  rekey_call : SrtpKeyingMaterial → Call
  close_call : Call

module _ (crypto : Crypto) where
  protect_with-IsAccounted :
      (m : SrtpManager) (p : RtpPacket) (o : Option SrtpContext)
      → IsAccounted m
      → IsAccounted (protect_with crypto m p o).0
  protect_with-IsAccounted m p none h = h
  protect_with-IsAccounted m p (some c) h =
      ground (arith, length-put_context p.header.ssrc (protect crypto c p).0 m.send)

  unprotect_with-IsAccounted :
      (m : SrtpManager) (ssrc : ℕ) (datagram : List ℕ) (o : Option SrtpContext)
      → IsAccounted m
      → IsAccounted (unprotect_with crypto m ssrc datagram o).0
  unprotect_with-IsAccounted m ssrc datagram none h = h
  unprotect_with-IsAccounted m ssrc datagram (some c) h =
      ground (arith, length-put_context ssrc (unprotect crypto c datagram).0 m.recv)

  pub after : SrtpManager → Call → SrtpManager
  after m (protect_call p) = (manager_protect crypto m p).0
  after m (unprotect_call datagram) = (manager_unprotect crypto m datagram).0
  after m (rekey_call km) = rekey_recv m km
  after m close_call = close_manager m

  pub after_all : SrtpManager → List Call → SrtpManager
  after_all m [] = m
  after_all m (c ∷ cs) = after_all (after m c) cs

  after-IsAccounted : (m : SrtpManager) (c : Call) → IsAccounted m → IsAccounted (after m c)
  unfolding after manager_protect manager_unprotect rekey_recv close_manager
  after-IsAccounted m (protect_call none) h = h
  after-IsAccounted m (protect_call (some p)) h =
      protect_with-IsAccounted _ p _ (with_send-IsAccounted m p.header.ssrc _ _ h)
  after-IsAccounted m (unprotect_call datagram) h =
      let ssrc = rtp_ssrc datagram in
      let m' =
        with_recv m ssrc (context_of ssrc m.recv) (new_srtp_context crypto m.recv_km m.recv_auth) in
      ground (
        arith,
        h,
        unprotect_with-IsAccounted m' ssrc datagram (context_of ssrc m'.recv)
            (with_recv-IsAccounted m ssrc _ _ h),
      )
  after-IsAccounted m (rekey_call km) h = ground arith
  after-IsAccounted m close_call h = ground arith

  after_all-IsAccounted :
      (m : SrtpManager) (cs : List Call) → IsAccounted m → IsAccounted (after_all m cs)
  unfolding after_all
  after_all-IsAccounted m [] h = h
  after_all-IsAccounted m (c ∷ cs) h =
      after_all-IsAccounted (after m c) cs (after-IsAccounted m c h)

  -- After any sequence of Protect, Unprotect, RekeyRecv and Close on a new manager, the memory it
  -- counts is 4096 bytes for each context it holds, and what it reported as added less what it
  -- reported as released; and after Close all that was added has been released.
  pub manager-IsAccounted :
      (send_km recv_km : SrtpKeyingMaterial) (send_auth recv_auth : ℕ) (cs : List Call)
      → let m = after_all (new_srtp_manager send_km recv_km send_auth recv_auth) cs in
        IsAccounted m
        × ((close_manager m).released ≡ (close_manager m).added)
        × ((close_manager m).mem ≡ 0)
  unfolding close_manager
  manager-IsAccounted send_km recv_km send_auth recv_auth cs =
      let m = after_all (new_srtp_manager send_km recv_km send_auth recv_auth) cs in
      let h : IsAccounted m =
        after_all-IsAccounted _ cs (record { by_contexts = refl; balance = refl }) in
      (h, sym h.balance, refl)

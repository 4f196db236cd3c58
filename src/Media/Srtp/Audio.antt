-- ===== src/Media/Srtp/Audio.antt =====
-- The audio of one call: an RTP session, and the SRTP sessions of the two ends.
use mathlib.Core.Option
use wa_calls.Base.{
  ℕ, suc, ◌+◌, ◌≤◌, ◌<◌, ◌≡◌, ◌≢◌, refl, ap, Bool, false, Option, none, some, List, [], ◌∷◌, arith,
  length, map, All,
}
use wa_calls.Bytes.{u16}
use wa_calls.Core.{SrtpKeyingMaterial}
use wa_calls.Media.Rtp.Header.{new_rtp_header}
use wa_calls.Media.Rtp.Packet.{RtpSession, create_packet}
use wa_calls.Media.Rtp.Session.{IsInRange, create_packets, create_packet-IsWellFormed}
use wa_calls.Media.Srtp.Context.{SrtpContext}
use wa_calls.Media.Srtp.Protect.{Crypto, ok, new_srtp_context, derive_srtp_key}
use wa_calls.Media.Srtp.Session.{SrtpSession, new_srtp_session}
use wa_calls.Media.Srtp.Stream.{InStep, IsStream, Accepts, transmit, transmit-InStep}

-- Every payload has a byte.
abbrev HasPayload : List ℕ × Bool → Type 0
HasPayload (payload, marker) = payload ≢ []

create_packets-IsStream :
    (s : RtpSession) (seq : ℕ) (payloads : List (List ℕ × Bool))
    → IsInRange s
    → s.sequence_number ≡ u16 seq
    → All HasPayload payloads
    → IsStream seq (create_packets s payloads)
unfolding create_packets create_packet new_rtp_header IsStream
create_packets-IsStream s seq [] r h all = tt
create_packets-IsStream s seq ((payload, marker) ∷ rest) r h (some_byte, all) =
    let (w, r') = create_packet-IsWellFormed s payload s.samples_per_packet marker r in
    (
      w,
      some_byte,
      h,
      create_packets-IsStream (create_packet s payload marker).0 (seq + 1) rest r' (omega arith)
          all,
    )

length-create_packets :
    (s : RtpSession) (payloads : List (List ℕ × Bool))
    → length (create_packets s payloads) ≡ length payloads
unfolding create_packets
length-create_packets s [] = refl
length-create_packets s ((payload, marker) ∷ rest) =
    ap suc (length-create_packets (create_packet s payload marker).0 rest)

bind_some :
    {A B : Type 0} (o : Option A) (f : A → Option B) (y : B)
    → Option.bind o f ≡ some y
    → (x : A) × (o ≡ some x) × (f x ≡ some y)
unfolding Option.bind
bind_some none f y e = absurd cc
bind_some (some x) f y e = (x, refl, e)

module _ (crypto : Crypto) where
  contexts_of :
      (send_key recv_key : SrtpKeyingMaterial) (n m : ℕ) (a : SrtpSession)
      → new_srtp_session crypto send_key recv_key n m ≡ some a
      → (new_srtp_context crypto send_key n ≡ some a.send_ctx)
        × (new_srtp_context crypto recv_key m ≡ some a.recv_ctx)
  unfolding new_srtp_session
  contexts_of send_key recv_key n m a e =
      let (sc, sent, rest) = bind_some (new_srtp_context crypto send_key n) _ a e in
      let (rc, got, last) = bind_some (new_srtp_context crypto recv_key m) _ a rest in
      ground (arith, sent, got, last)

  new_srtp_context-InStep :
      (key : SrtpKeyingMaterial) (n : ℕ) (c : SrtpContext)
      → new_srtp_context crypto key n ≡ some c
      → n ≤ 20
      → InStep c c × (c.initialized ≡ false) × (c.roc ≡ 0) × (c.auth_tag_len ≤ 20)
  unfolding new_srtp_context
  new_srtp_context-InStep key n c e small =
      let derive = derive_srtp_key crypto key.master_key key.master_salt in
      let (sk, e1, rest) = bind_some (derive 0 16) _ c e in
      let (ak, e2, rest') = bind_some (derive 1 20) _ c rest in
      let (ss, e3, last) = bind_some (derive 2 14) _ c rest' in ground (arith, last)

  -- Two ends that set up their SRTP sessions with each other's keys: every packet that the one makes
  -- of its payloads, in order, the other unprotects to that packet.
  pub transmit-create_packets :
      (k1 k2 : SrtpKeyingMaterial) (n m : ℕ) (a b : SrtpSession) (s : RtpSession)
      (payloads : List (List ℕ × Bool))
      → new_srtp_session crypto k1 k2 n m ≡ some a
      → new_srtp_session crypto k2 k1 m n ≡ some b
      → n ≤ 20
      → Accepts crypto b.recv_ctx.session_key
      → IsInRange s
      → All HasPayload payloads
      → length payloads < 4294967295
      → transmit crypto a.send_ctx b.recv_ctx (create_packets s payloads)
        ≡ map ok (create_packets s payloads)
  transmit-create_packets k1 k2 n m a b s payloads ea eb small takes r all room =
      let (sent, _) = contexts_of k1 k2 n m a ea in
      let (_, got) = contexts_of k2 k1 m n b eb in
      let same : a.send_ctx ≡ b.recv_ctx = ground (arith, sent, got) in
      let (step, off, zero_roc, tag) = new_srtp_context-InStep k1 n b.recv_ctx got small in
      rw same (
        transmit-InStep crypto b.recv_ctx b.recv_ctx s.sequence_number (create_packets s payloads)
          step (λ on. absurd (cc)) tag takes
          (rw (zero_roc, length-create_packets s payloads) (omega arith))
          (create_packets-IsStream s s.sequence_number payloads r (ground (arith, r)) all))

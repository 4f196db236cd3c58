-- ===== src/Media/Srtp/Session.antt =====
-- SrtpSession of srtp.go: a sending and a receiving context. `none` is the error of aes.NewCipher,
-- which leaves the session as it was.
use mathlib.Core.Option
use wa_calls.Base.{ℕ, List, Option, some}
use wa_calls.Core.{SrtpKeyingMaterial}
use wa_calls.Media.Rtp.Packet.{RtpPacket}
use wa_calls.Media.Srtp.Context.{SrtpContext}
use wa_calls.Media.Srtp.Protect.{
  Crypto, SrtpResult, derive_srtp_key, new_srtp_context, protect, unprotect,
}

pub record SrtpSession : Type 0 where
  pub send_ctx : SrtpContext
  pub recv_ctx : SrtpContext

module _ (crypto : Crypto) where
  unfoldable set_auth_keying : SrtpContext → SrtpKeyingMaterial → Option SrtpContext
  set_auth_keying c keying =
      Option.map (λ ak. record c { auth_key = ak })
        (derive_srtp_key crypto keying.master_key keying.master_salt 1 20)

  unfoldable pub new_srtp_session :
      SrtpKeyingMaterial → SrtpKeyingMaterial → ℕ → ℕ → Option SrtpSession
  new_srtp_session send_key recv_key send_auth_len recv_auth_len =
      Option.bind (new_srtp_context crypto send_key send_auth_len) λ sc.
        Option.bind (new_srtp_context crypto recv_key recv_auth_len)
          λ rc. some (record { send_ctx = sc; recv_ctx = rc })

  unfoldable session_protect : SrtpSession → RtpPacket → SrtpSession × SrtpResult (List ℕ)
  session_protect s p = let (c, r) = protect crypto s.send_ctx p in (record s { send_ctx = c }, r)

  unfoldable session_unprotect : SrtpSession → List ℕ → SrtpSession × SrtpResult RtpPacket
  session_unprotect s datagram =
      let (c, r) = unprotect crypto s.recv_ctx datagram in (record s { recv_ctx = c }, r)

  unfoldable set_send_auth_keying : SrtpSession → SrtpKeyingMaterial → Option SrtpSession
  set_send_auth_keying s keying =
      Option.map (λ c. record s { send_ctx = c }) (set_auth_keying s.send_ctx keying)

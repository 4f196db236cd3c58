-- ===== src/Core.antt =====
-- internal/voip/core/types.go: the types that the components share. The string constants of Go are
-- constructors; a nil slice or pointer is `none`.
use Prim.Native.String.{String}
use wa_calls.Base.{ℕ, Option, List}

pub data CallState : Type 0 where
  initiating ringing incoming_ringing connecting active on_hold reconnecting ended : CallState

pub data CallDirection : Type 0 where
  outgoing incoming : CallDirection

pub data CallMediaType : Type 0 where
  audio video : CallMediaType

pub data EndCallReason : Type 0 where
  user_ended declined timeout busy cancelled failed do_not_disturb unknown_reason : EndCallReason
  other_reason : String → EndCallReason  -- any other text that a peer sends

pub record RelayEndpoint : Type 0 where
  pub ip : String
  pub port : ℕ
  pub token : String
  pub auth_token : String
  pub raw_auth_token : Option (List ℕ)
  pub raw_token : Option (List ℕ)
  pub key : String
  pub relay_id : ℕ
  pub protocol : ℕ
  pub c2r_rtt : Option ℕ
  pub relay_name : String
  pub address_bytes : Option (List ℕ)
  pub auth_token_id : String

pub record RelayData : Type 0 where
  pub endpoints : List RelayEndpoint
  pub participant_jids : List String
  pub uuid : String
  pub self_pid : Option ℕ
  pub peer_pid : Option ℕ
  pub hbh_key : Option (List ℕ)

pub record SrtpKeyingMaterial : Type 0 where
  pub master_key : List ℕ
  pub master_salt : List ℕ

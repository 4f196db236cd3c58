-- ===== src/Call/Relays.antt =====
-- buildRelayConfigs of internal/voip/call/callmanager_relay.go: the relays that a call connects to.
use Prim.Native.String.{String}
use text.Mathlib.Text.{◌==◌}
use text.Mathlib.TextEquality.{eq_iff}
use wa_calls.Base.{
  ℕ, ◌≡◌, Bool, true, false, ◌&&◌, not, Option, none, some, List, [], ◌∷◌, arith, if◌then◌else◌,
  leb,
}
use wa_calls.Core.{RelayEndpoint}

pub record RelayConfig : Type 0 where
  pub ip : String
  pub port : ℕ
  pub token : String
  pub auth_token : String
  pub raw_auth_token : Option (List ℕ)
  pub raw_token : Option (List ℕ)
  pub key : String
  pub relay_id : ℕ
  pub name : String
  pub auth_token_id : String

abbrev pub has_token : Option (List ℕ) → Bool
has_token none = false
has_token (some t) = true

-- The endpoints that the loop does not skip for what they lack.
abbrev pub is_usable : RelayEndpoint → Bool
is_usable ep = leb ep.protocol 0 && not (ep.key == "") && has_token ep.raw_token

abbrev pub config_of : RelayEndpoint → RelayConfig
config_of ep = record {
  ip = ep.ip;
  port = ep.port;
  token = ep.token;
  auth_token = ep.auth_token;
  raw_auth_token = ep.raw_auth_token;
  raw_token = ep.raw_token;
  key = ep.key;
  relay_id = ep.relay_id;
  name = if ep.relay_name == "" then ep.ip else ep.relay_name;
  auth_token_id = ep.auth_token_id;
}

abbrev pub is_seen : String → List String → Bool
is_seen ip [] = false
is_seen ip (s ∷ seen) = let rest = is_seen ip seen in if s == ip then true else rest

-- The loop, with the addresses it has seen.
unfoldable pub relay_configs : List String → List RelayEndpoint → List RelayConfig
relay_configs seen [] = []
relay_configs seen (ep ∷ eps) = elim (is_usable ep && not (is_seen ep.ip seen)) [
  | true ↦ config_of ep ∷ relay_configs (ep.ip ∷ seen) eps
  | false ↦ relay_configs seen eps
]

unfoldable pub build_relay_configs : List RelayEndpoint → List RelayConfig
build_relay_configs eps = relay_configs [] eps

abbrev pub has_config : String → List RelayConfig → Bool
has_config ip [] = false
has_config ip (c ∷ cs) = let rest = has_config ip cs in if c.ip == ip then true else rest

-- An endpoint that can be used has the address.
abbrev pub is_offered : String → List RelayEndpoint → Bool
is_offered ip [] = false
is_offered ip (ep ∷ eps) =
    let rest = is_offered ip eps in if (ep.ip == ip) && is_usable ep then true else rest

-- No two configurations have one address.
abbrev pub IsApart : List RelayConfig → Type 0
IsApart [] = Unit
IsApart (c ∷ cs) = (has_config c.ip cs ≡ false) × IsApart cs

relay_configs-has :
    (ip : String) (seen : List String) (eps : List RelayEndpoint)
    → has_config ip (relay_configs seen eps) ≡ (not (is_seen ip seen) && is_offered ip eps)
unfolding relay_configs
relay_configs-has ip seen [] = ground arith
relay_configs-has ip seen (ep ∷ eps) =
    ground (
      arith,
      relay_configs-has ip seen eps,
      relay_configs-has ip (ep.ip ∷ seen) eps,
      eq_iff ep.ip ip,
    )

relay_configs-IsApart :
    (seen : List String) (eps : List RelayEndpoint) → IsApart (relay_configs seen eps)
unfolding relay_configs
relay_configs-IsApart seen [] = tt
relay_configs-IsApart seen (ep ∷ eps) = ground (
  arith,
  relay_configs-IsApart seen eps,
  relay_configs-IsApart (ep.ip ∷ seen) eps,
  relay_configs-has ep.ip (ep.ip ∷ seen) eps,
  eq_iff ep.ip ep.ip,
)

-- buildRelayConfigs has a configuration for each address of a usable endpoint, which is one of protocol
-- 0 with a key and a raw token, and for no other address, and no two for the same.
pub build_relay_configs-IsApart :
    (eps : List RelayEndpoint)
    → IsApart (build_relay_configs eps)
      × ((ip : String) → has_config ip (build_relay_configs eps) ≡ is_offered ip eps)
unfolding build_relay_configs
build_relay_configs-IsApart eps = (relay_configs-IsApart [] eps, λ ip. relay_configs-has ip [] eps)

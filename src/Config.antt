-- ===== src/Config.antt =====
-- crates/core/src/runtime/config.rs: the configuration that the master reads and hands to every
-- worker, and `Config::validate`. TOML itself is read by a library. A map is an association list in
-- the order in which it is iterated, and an address (`SocketAddr`) a number.
use thwip.Prelude.{
  ℕ, ◌+◌, ◌^◌, Bool, true, false, not, ◌||◌, Option, none, some, List, [], ◌∷◌, ltb, ◌==◌,
  if◌then◌else◌, any, is_empty, Result, ok, ◌>>◌, guard,
}
use thwip.Prelude.Text.{Bytes, ◌=ᵇ◌}
use thwip.Prelude.Utf8.{trim}

pub data BalancePolicy : Type 0 where
  round_robin weighted_round_robin : BalancePolicy

pub record UpstreamEndpoint : Type 0 where
  pub url : Bytes
  pub weight : ℕ

pub record UpstreamGroup : Type 0 where
  pub policy : BalancePolicy
  pub servers : List UpstreamEndpoint

-- The fields of `Action::Proxy`.
pub record ProxyAction : Type 0 where
  pub upstream : Option Bytes
  pub upstream_group : Option Bytes
  pub upstreams : List UpstreamEndpoint
  pub policy : BalancePolicy

pub data Action : Type 0 where
  proxy : ProxyAction → Action
  static : (directory : Bytes) → Action
  response : (status : ℕ) (body : Bytes) → Action

pub data PathMatcher : Type 0 where
  exact prefix : (path : Bytes) → PathMatcher

pub record Location : Type 0 where
  pub matcher : PathMatcher
  pub action : Action

pub data SslProtocol : Type 0 where
  tlsv1_2 tlsv1_3 : SslProtocol

pub data SslCipher : Type 0 where
  tls13_aes256_gcm_sha384 tls13_aes128_gcm_sha256 tls13_chacha20_poly1305_sha256 : SslCipher
  tls_ecdhe_ecdsa_with_aes256_gcm_sha384 tls_ecdhe_ecdsa_with_aes128_gcm_sha256 : SslCipher
  tls_ecdhe_ecdsa_with_chacha20_poly1305_sha256 : SslCipher
  tls_ecdhe_rsa_with_aes256_gcm_sha384 tls_ecdhe_rsa_with_aes128_gcm_sha256 : SslCipher
  tls_ecdhe_rsa_with_chacha20_poly1305_sha256 : SslCipher

pub record SslServerConfig : Type 0 where
  pub certificate_path : Bytes
  pub private_key_path : Bytes
  pub handshake_timeout_ms : ℕ
  pub protocols : List SslProtocol
  pub ciphers : List SslCipher

pub record Server : Type 0 where
  pub server_name : Option Bytes
  pub locations : List Location
  pub listen : ℕ
  pub ssl : Option SslServerConfig

abbrev pub Groups : Type 0
Groups = List (Bytes × UpstreamGroup)

-- `HashMap::get`
unfoldable pub get_group : Bytes → Groups → Option UpstreamGroup
get_group name [] = none
get_group name ((key, group) ∷ groups) = if key =ᵇ name then some group else get_group name groups

abbrev pub is_some {ℓ} : {A : Type ℓ} → Option A → Bool
is_some none = false
is_some (some a) = true

-- The errors of `validate`, which the source gives as texts.
pub data ValidationError : Type 0 where
  empty_group_name empty_group empty_url weights_too_large : ValidationError
  empty_certificate_path empty_private_key_path empty_protocols empty_ciphers : ValidationError
  not_exactly_one_upstream unknown_group : ValidationError

abbrev pub is_blank_text : Bytes → Bool
is_blank_text s = is_empty (trim s)

-- `total.checked_add(weight)` over the endpoints; `none` is an overflow of 64 bits.
unfoldable pub total_weight : ℕ → List UpstreamEndpoint → Option ℕ
total_weight total [] = some total
total_weight total (endpoint ∷ endpoints) =
    if ltb (total + endpoint.weight) (2 ^ 64)
    then total_weight (total + endpoint.weight) endpoints
    else none

unfoldable pub validate_endpoints : List UpstreamEndpoint → Result (Unit {0}) ValidationError
unfolding total_weight
validate_endpoints endpoints = do
  guard (not (any (λ e. is_blank_text e.url) endpoints)) empty_url
  guard (is_some (total_weight 0 endpoints)) weights_too_large

unfoldable pub validate_group : Bytes × UpstreamGroup → Result (Unit {0}) ValidationError
unfolding validate_endpoints
validate_group (name, group) = do
  guard (not (is_blank_text name)) empty_group_name
  guard (not (is_empty group.servers)) empty_group
  validate_endpoints group.servers

unfoldable pub validate_groups : Groups → Result (Unit {0}) ValidationError
unfolding validate_group
validate_groups [] = ok tt
validate_groups (group ∷ groups) = do validate_group group; validate_groups groups

unfoldable pub validate_ssl : Option SslServerConfig → Result (Unit {0}) ValidationError
validate_ssl none = ok tt
validate_ssl (some ssl) = do
  guard (not (is_blank_text ssl.certificate_path)) empty_certificate_path
  guard (not (is_blank_text ssl.private_key_path)) empty_private_key_path
  guard (not (is_empty ssl.protocols)) empty_protocols
  guard (not (is_empty ssl.ciphers)) empty_ciphers

abbrev pub count_if : Bool → ℕ
count_if b = if b then 1 else 0

-- How many of the three ways to name an upstream are used.
unfoldable pub configured : ProxyAction → ℕ
configured p =
    count_if (is_some p.upstream)
    + count_if (is_some p.upstream_group)
    + count_if (not (is_empty p.upstreams))

abbrev pub blank_upstream : Option Bytes → Bool
blank_upstream none = false
blank_upstream (some url) = is_blank_text url

abbrev pub known_group : Groups → Option Bytes → Bool
known_group groups none = true
known_group groups (some name) = is_some (get_group name groups)

unfoldable pub validate_proxy : Groups → ProxyAction → Result (Unit {0}) ValidationError
unfolding configured validate_endpoints get_group
validate_proxy groups p = do
  guard (configured p == 1) not_exactly_one_upstream
  guard (not (blank_upstream p.upstream || any (λ e. is_blank_text e.url) p.upstreams)) empty_url
  validate_endpoints p.upstreams
  guard (known_group groups p.upstream_group) unknown_group

unfoldable pub validate_action : Groups → Action → Result (Unit {0}) ValidationError
unfolding validate_proxy
validate_action groups (proxy p) = validate_proxy groups p
validate_action groups (static directory) = ok tt
validate_action groups (response status body) = ok tt

unfoldable pub validate_locations : Groups → List Location → Result (Unit {0}) ValidationError
unfolding validate_action
validate_locations groups [] = ok tt
validate_locations groups (location ∷ locations) = do
  validate_action groups location.action
  validate_locations groups locations

unfoldable pub validate_servers : Groups → List Server → Result (Unit {0}) ValidationError
unfolding validate_ssl validate_locations
validate_servers groups [] = ok tt
validate_servers groups (server ∷ servers) = do
  validate_ssl server.ssl
  validate_locations groups server.locations
  validate_servers groups servers

-- The parts of `Config` that `validate` reads.
pub record Config : Type 0 where
  pub servers : List Server
  pub upstreams : Groups

unfoldable pub validate : Config → Result (Unit {0}) ValidationError
unfolding validate_groups validate_servers
validate config = do
  validate_groups config.upstreams
  validate_servers config.upstreams config.servers

-- ===== src/Net/Endpoint.antt =====
-- src/cpprealm/internal/networking/utils.cpp: requests, responses and websocket endpoints between
-- the SDK and realm-core.
--
-- realm-core's URI parser, its test whether a protocol uses TLS, its Base64 encoder and the
-- defaults of its `WebSocketEndpoint` are outside the repository: they are the fields of `Core`.
pub mod Laws
use realm_cpp.Prelude.{
  ℕ, suc, List, [], ◌∷◌, ◌++◌, Bool, true, false, Option, none, some, if◌then◌else◌,
}
use realm_cpp.Prelude.Bytes.{Bytes, codes, bytes_eq, is_empty}
use realm_cpp.Prelude.Numbers.{ℤ, pos, negsuc, stoi, to_string}
use realm_cpp.Net.Uri.{Uri}
use realm_cpp.Net.Headers.{KeyTest, Headers, emplace}
use realm_cpp.Net.Transport.{ProxyConfig, Configuration, with_colon}

pub data ProtocolEnvelope : Type 0 where
  realm realms ws wss : ProtocolEnvelope

-- `fatal` is REALM_TERMINATE; `invalid_port` the exception of `std::stoi`.
pub data Failure : Type 0 where
  fatal invalid_port : Failure

pub data Result {ℓ} (A : Type ℓ) : Type ℓ where
  ok : A → Result A
  err : Failure → Result A

infixl 5 ◌>>=◌
abbrev pub ◌>>=◌ {ℓ κ} : {A : Type ℓ} {B : Type κ} → Result A → (A → Result B) → Result B
ok a >>= f = f a
err e >>= f = err e

pub to_protocol_envelope : Bytes → Result ProtocolEnvelope
to_protocol_envelope protocol =
    if bytes_eq protocol (codes "realm:")
    then ok realm
    else if bytes_eq protocol (codes "realms:")
    then ok realms
    else if bytes_eq protocol (codes "ws:")
    then ok ws
    else if bytes_eq protocol (codes "wss:")
    then ok wss
    else err fatal

pub record SdkEndpoint : Type 0 where
  pub protocols : List Bytes
  pub url : Bytes

pub record CoreProxy : Type 0 where
  pub address : Bytes
  pub port : ℕ

pub record CoreEndpoint : Type 0 where
  pub address : Bytes
  pub port : ℤ
  pub path : Bytes
  pub protocols : List Bytes
  pub is_ssl : Bool
  pub headers : Headers
  pub proxy : Option CoreProxy
  pub verify_servers_ssl_certificate : Bool
  pub ssl_trust_certificate_path : Option Bytes
  pub ssl_verify_callback : Bool

pub record Core : Type 0 where
  pub keys : KeyTest
  pub parse_uri : Bytes → Uri
  pub is_ssl : ProtocolEnvelope → Bool
  pub base64_encode : Bytes → Bytes
  pub blank : CoreEndpoint

port_of : Bool → Bytes → Result ℤ
unfolding is_empty
port_of ssl port =
    if is_empty port
    then ok (pos (if ssl then 443 else 80))
    else elim (stoi port) [ none ↦ err invalid_port | some n ↦ ok n ]

module _ (core : Core) where
  open core use {keys, parse_uri, is_ssl, base64_encode, blank}

  -- if (config->proxy_config) …
  pub with_proxy : Option ProxyConfig → CoreEndpoint → CoreEndpoint
  with_proxy none ep = ep
  with_proxy (some p) ep = record ep {
    proxy = some (record { address = p.address; port = p.port });
    headers = elim p.username_password [
      | none ↦ ep.headers
      | some (username, password) ↦
          emplace keys (codes "Proxy-Authorization")
            (codes "Basic " ++ base64_encode (with_colon username password)) ep.headers
    ];
  }

  -- if (config->custom_http_headers) …
  pub with_headers : Option Headers → CoreEndpoint → CoreEndpoint
  with_headers none ep = ep
  with_headers (some custom) ep = record ep { headers = custom }

  -- if (config) …
  pub configured : Option Configuration → CoreEndpoint → CoreEndpoint
  unfolding with_proxy with_headers
  configured none ep = ep
  configured (some c) ep =
      let proxied = with_headers c.custom_http_headers (with_proxy c.proxy_config ep) in
      record proxied {
        verify_servers_ssl_certificate = c.client_validate_ssl;
        ssl_trust_certificate_path = c.ssl_trust_certificate_path;
        ssl_verify_callback = c.ssl_verify_callback;
      }

  pub to_core_websocket_endpoint : SdkEndpoint → Option Configuration → Result CoreEndpoint
  to_core_websocket_endpoint ep config = do
    let uri = parse_uri ep.url
    protocol ← to_protocol_envelope uri.scheme
    port ← port_of (is_ssl protocol) uri.port
    ok (
        configured config (record blank {
          is_ssl = is_ssl protocol;
          address = uri.host;
          port = port;
          path = uri.path ++ uri.query;
          protocols = ep.protocols;
        }))

-- `util::format("%1://%2:%3%4", scheme, address, port, path)`.
pub format_url : Bytes → Bytes → Bytes → Bytes → Bytes
format_url scheme address port path = scheme ++ (codes "://" ++ (address ++ b':' ∷ (port ++ path)))

show_port : ℤ → Bytes
show_port (pos n) = to_string n
show_port (negsuc n) = b'-' ∷ to_string (suc n)

pub to_websocket_endpoint : CoreEndpoint → SdkEndpoint
unfolding format_url show_port
to_websocket_endpoint core_ep = record {
  protocols = core_ep.protocols;
  url =
      format_url (if core_ep.is_ssl then codes "wss" else codes "ws") core_ep.address
        (elim core_ep.proxy [ none ↦ show_port core_ep.port | some p ↦ to_string p.port ])
        core_ep.path;
}

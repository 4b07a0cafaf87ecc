-- ===== src/Net/Transport.antt =====
-- `default_http_transport::send_request_to_server` of
-- src/cpprealm/internal/networking/network_transport.cpp, with the types of
-- include/cpprealm/networking/http.hpp.
--
-- The URI parser, name resolution, sockets, TLS and the HTTP client are realm-core's. They are the
-- fields of `World`: what each call answers. The code's lambdas run on the service's event loop on
-- this one thread, so that their order is the order of the calls. The result of a call is what it
-- asked of the network, the responses given to the completion block, and how it ended.
pub mod Send
use realm_cpp.Prelude.{
  ℕ, suc, ◌-◌, ◌%◌, ◌^◌, List, [], ◌∷◌, ◌++◌, Bool, true, false, not, ◌&&◌, Option, none, some, ltb,
  ◌==◌, if◌then◌else◌, length,
}
use realm_cpp.Prelude.Bytes.{Bytes, codes, bytes_eq, is_empty}
use realm_cpp.Prelude.Numbers.{ℤ, stoi, to_string}
use realm_cpp.Net.Headers.{KeyTest, Headers, assign, emplace, assign_all, emplace_all}
use realm_cpp.Net.Uri.{Uri}
use realm_cpp.Net.Ipv4.{is_valid_ipv4}

pub data HttpMethod : Type 0 where
  get post patch put del : HttpMethod

pub record Request : Type 0 where
  pub method : HttpMethod
  pub url : Bytes
  pub timeout_ms : ℕ
  pub headers : Headers
  pub body : Bytes

-- The two status codes are not initialised by the declaration: `none` is such a code.
pub record Response : Type 0 where
  pub http_status_code : Option ℕ
  pub custom_status_code : Option ℕ
  pub headers : Headers
  pub body : Bytes

pub record ProxyConfig : Type 0 where
  pub address : Bytes
  pub port : ℕ
  pub username_password : Option (Bytes × Bytes)

pub record Configuration : Type 0 where
  pub custom_http_headers : Option Headers
  pub proxy_config : Option ProxyConfig
  pub client_validate_ssl : Bool
  pub ssl_trust_certificate_path : Option Bytes
  pub ssl_verify_callback : Bool

pub data UrlScheme : Type 0 where
  http https unknown : UrlScheme

pub get_url_scheme : Bytes → UrlScheme
get_url_scheme scheme =
    if bytes_eq scheme (codes "https:")
    then https
    else if bytes_eq scheme (codes "http:")
    then http
    else unknown

-- An endpoint of an address and a port, or the first that a query of host and service resolves to.
pub data Endpoint : Type 0 where
  at_address : Bytes → ℕ → Endpoint
  resolved : Bytes → Bytes → Endpoint

pub data CoreMethod : Type 0 where
  core_get core_put core_post core_patch core_delete connect : CoreMethod

pub record CoreRequest : Type 0 where
  pub method : CoreMethod
  pub headers : Headers
  pub path : Bytes
  pub body : Option Bytes

pub record CoreResponse : Type 0 where
  pub status : ℕ
  pub headers : Headers
  pub body : Option Bytes

pub record World : Type 0 where
  pub keys : KeyTest
  pub parse_uri : Bytes → Uri
  -- The value of the error code, 0 if there is none, and its message.
  pub make_address : Bytes → ℕ
  pub message : ℕ → Bytes
  -- Whether the call returns, and does not throw.
  pub resolves : Bytes → Bytes → Bool
  pub connects : Endpoint → Bool
  pub async_request : Endpoint → CoreRequest → Bool
  pub use_certificate_chain_file : Bytes → Bool
  pub use_default_verify : Bool
  pub set_host_name : Bytes → Bool
  pub async_handshake : Endpoint → Bool
  pub base64_encode : Bytes → Bytes
  pub operation_aborted : ℕ
  pub status_ok : ℕ
  -- The error code and the response that the handler of a proxy request is called with.
  pub proxy_reply : Endpoint → CoreRequest → ℕ × CoreResponse
  -- The error code of the TLS handshake for a host name, with or without verification of the peer.
  pub handshake : Endpoint → Bytes → Bool → ℕ
  pub reply : Endpoint → CoreRequest → CoreResponse

-- Where to connect to: an endpoint, an exception, or a response that ends the request.
pub data Location : Type 0 where
  at : Endpoint → Location
  throws : Location
  refused : Response → Location

-- How a call ends: it returns; it waits for a `service.stop()` that never comes; it dereferences
-- an empty optional; or an exception leaves it.
pub data Ending : Type 0 where
  returned stuck undefined threw : Ending

pub record Trace : Type 0 where
  pub proxied : Option CoreRequest
  pub sent : Option (Endpoint × CoreRequest)
  pub completions : List Response
  pub ending : Ending

-- The 16 bits of an endpoint's port.
pub as_port : ℤ → ℕ
as_port (ℤ.pos n) = n % 2 ^ 16
as_port (ℤ.negsuc n) = 2 ^ 16 - suc (n % 2 ^ 16)

-- `util::format("%1:%2", a, b)`.
abbrev pub with_colon : Bytes → Bytes → Bytes
with_colon a b = a ++ b':' ∷ b

module _ (w : World) where
  open w use {
    keys, parse_uri, make_address, message, resolves, connects, base64_encode, operation_aborted,
    status_ok, proxy_reply, handshake, reply,
  }

  pub is_localhost : Bytes → Bool
  is_localhost host = bytes_eq host (codes "localhost")

  pub aborted : Response
  aborted = record {
    http_status_code = none;
    custom_status_code = some operation_aborted;
    headers = [];
    body = [];
  }

  pub default_port : Bytes → Bytes
  unfolding is_localhost
  default_port host = if is_localhost host then codes "9090" else codes "443"

  pub locate_proxy : ProxyConfig → Location
  unfolding is_empty as_port
  locate_proxy p =
      let proxy_host = (parse_uri p.address).host in
      let e = make_address p.address in
      if is_empty proxy_host
      then if ltb 0 e
        then refused (record {
          http_status_code = none;
          custom_status_code = some e;
          headers = [];
          body = message e;
        })
        else at (at_address p.address (as_port (ℤ.pos p.port)))
      else if resolves proxy_host (to_string p.port)
      then at (resolved proxy_host (to_string p.port))
      else throws

  -- The error code of `make_address` is not looked at here.
  pub locate_host : Bytes → Bytes → Location
  unfolding as_port
  locate_host host port =
      if is_valid_ipv4 host
      then elim (stoi port) [ none ↦ throws | some n ↦ at (at_address host (as_port n)) ]
      else if resolves host (default_port host)
      then at (resolved host (default_port host))
      else throws

  pub locate : Configuration → Bytes → Bytes → Location
  unfolding locate_proxy locate_host
  locate c host port = elim c.proxy_config [
    | none ↦ locate_host host port
    | some p ↦ locate_proxy p
  ]

  pub proxy_request : ProxyConfig → Bytes → Bytes → CoreRequest
  proxy_request p host port = record {
    method = connect;
    headers = elim p.username_password [
      | none ↦ emplace keys (codes "Host") (with_colon host port) []
      | some (username, password) ↦
          emplace keys (codes "Proxy-Authorization")
            (codes "Basic " ++ base64_encode (with_colon username password))
            (emplace keys (codes "Host") (with_colon host port) [])
    ];
    path = [];
    body = none;
  }

  -- The handler of the proxy request: a response to complete with, or `none` for service.stop().
  pub proxy_handler : ℕ → CoreResponse → Option Response
  unfolding aborted
  proxy_handler ec response =
      if not (ec == 0) && not (ec == operation_aborted)
      then some aborted
      else if not (response.status == status_ok)
      then some (record {
        http_status_code = some (response.status % 2 ^ 16);
        custom_status_code = none;
        headers = [];
        body = [];
      })
      else none

-- ===== src/Net/Transport/Send.antt =====
-- The request itself, in `send_request_to_server` of
-- src/cpprealm/internal/networking/network_transport.cpp: headers, proxy, TLS and reply.
pub mod Completion
pub mod Routes
pub mod Precedence
mod Tests
use realm_cpp.Prelude.{
  ℕ, [], ◌∷◌, Bool, true, false, not, ◌&&◌, Option, none, some, ◌==◌, if◌then◌else◌, length,
}
use realm_cpp.Prelude.Bytes.{Bytes, codes, is_empty}
use realm_cpp.Prelude.Numbers.{to_string}
use realm_cpp.Net.Headers.{Headers, assign, assign_all, emplace_all}
use realm_cpp.Net.Transport.{
  HttpMethod, get, post, patch, put, del, Request, Response, Configuration, ProxyConfig, UrlScheme,
  http, https, unknown, get_url_scheme, Endpoint, CoreMethod, core_get, core_put, core_post,
  core_patch, core_delete, CoreRequest, CoreResponse, World, Location, at, throws, refused,
  returned, stuck, undefined, threw, Trace, aborted, default_port, locate, proxy_request,
  proxy_handler,
}

pub core_method : HttpMethod → CoreMethod
core_method get = core_get
core_method put = core_put
core_method post = core_post
core_method patch = core_patch
core_method del = core_delete

pub is_https : UrlScheme → Bool
is_https https = true
is_https http = false
is_https unknown = false

module _ (w : World) where
  open w use {
    keys, parse_uri, connects, async_request, use_certificate_chain_file, use_default_verify,
    set_host_name, async_handshake, proxy_reply, handshake, reply,
  }

  pub build_headers : Configuration → Request → Bytes → Headers
  unfolding is_empty
  build_headers c request host =
      let own =
        assign keys (codes "User-Agent") (codes "Realm C++ SDK")
          (assign keys (codes "Host") host (assign_all keys request.headers [])) in
      let sized =
        if not (is_empty request.body)
        then assign keys (codes "Content-Length") (to_string (length request.body)) own
        else own in
      elim c.custom_http_headers [ none ↦ sized | some custom ↦ emplace_all keys custom sized ]

  pub core_request : Configuration → Request → Bytes → CoreRequest
  unfolding build_headers core_method is_empty
  core_request c request host = record {
    method = core_method request.method;
    headers = build_headers c request host;
    path = request.url;
    body = if is_empty request.body then none else some request.body;
  }

  body_or_empty : Option Bytes → Bytes
  body_or_empty none = []
  body_or_empty (some body) = body

  pub from_core : CoreResponse → Response
  unfolding body_or_empty
  from_core r = record {
    http_status_code = some r.status;
    custom_status_code = some 0;
    headers = r.headers;
    body = body_or_empty r.body;
  }

  -- The handler of the handshake, which for other schemes is called with no error.
  pub after_handshake : ℕ → Endpoint → CoreRequest → Option CoreRequest → Trace
  unfolding from_core
  after_handshake ec ep request proxied =
      if ec == 0
      then record {
        proxied = proxied;
        sent = some (ep, request);
        completions = from_core (reply ep request) ∷ [];
        ending = returned;
      }
      else record {
        proxied = proxied;
        sent = none;
        completions = aborted w ∷ [];
        ending = returned;
      }

  -- An exception that no handler of this function catches.
  pub thrown : Option CoreRequest → Trace
  thrown proxied = record { proxied = proxied; sent = none; completions = []; ending = threw }

  -- Whether the certificates that are trusted are loaded without an exception.
  pub trusts : Configuration → Bool
  trusts c = elim c.ssl_trust_certificate_path [
    | none ↦ use_default_verify
    | some path ↦ use_certificate_chain_file path
  ]

  -- From the TLS context on. The callback is given to `socket.ssl_stream`, which is empty there.
  pub exchange : Configuration → Request → Bytes → Endpoint → Option CoreRequest → Trace
  unfolding trusts
  exchange c request host ep proxied =
      if not (trusts c)
      then thrown proxied
      else if c.ssl_verify_callback
      then record { proxied = proxied; sent = none; completions = []; ending = undefined }
      else if is_https (get_url_scheme (parse_uri request.url).scheme)
          && not (set_host_name host && async_handshake ep)
      then thrown proxied
      else after_handshake
          (if is_https (get_url_scheme (parse_uri request.url).scheme)
            then handshake ep host c.client_validate_ssl
            else 0)
          ep (core_request c request host) proxied

  pub refused_by_proxy : CoreRequest → Response → Trace
  refused_by_proxy connect_request refusal = record {
    proxied = some connect_request;
    sent = none;
    completions = refusal ∷ [];
    ending = stuck;
  }

  -- A refused request is completed, and `run_until_stopped` then waits for ever.
  pub after_proxy :
      Configuration → Request → Bytes → Endpoint → CoreRequest → Option Response → Trace
  after_proxy c request host ep connect_request none =
      exchange c request host ep (some connect_request)
  after_proxy c request host ep connect_request (some refusal) =
      refused_by_proxy connect_request refusal

  -- A socket that is connected: the request to the proxy, if there is one, and the exchange.
  pub through_proxy :
      Configuration → Request → Bytes → Bytes → Endpoint → Option ProxyConfig → Trace
  through_proxy c request host port ep none = exchange c request host ep none
  through_proxy c request host port ep (some p) =
      let connect_request = proxy_request w p host port in
      let (ec, response) = proxy_reply ep connect_request in
      if async_request ep connect_request
      then after_proxy c request host ep connect_request (proxy_handler w ec response)
      else thrown none

  pub completed : Response → Trace
  completed r = record { proxied = none; sent = none; completions = r ∷ []; ending = returned }

  -- The `try` block with its handler, which completes with `operation_aborted`.
  pub connect_then : Configuration → Request → Bytes → Bytes → Location → Trace
  connect_then c request host port (at ep) =
      if connects ep
      then through_proxy c request host port ep c.proxy_config
      else completed (aborted w)
  connect_then c request host port throws = completed (aborted w)
  connect_then c request host port (refused response) = completed response

  pub port_or_default : Bytes → Bytes → Bytes
  unfolding is_empty
  port_or_default host port = if is_empty port then default_port w host else port

  pub send_request_to_server : Configuration → Request → Trace
  send_request_to_server c request =
      let uri = parse_uri request.url in
      let port = port_or_default uri.host uri.port in
      connect_then c request uri.host port (locate w c uri.host port)

-- ===== src/Net/Endpoint/Laws.antt =====
-- src/cpprealm/internal/networking/utils.cpp: what a websocket endpoint keeps on its way to
-- realm-core and back.
use realm_cpp.Prelude.{
  ℕ, ◌^◌, ◌<◌, ◌≡◌, ◌≢◌, refl, [], ◌∷◌, ◌++◌, append-nil, Bool, true, false, Option, none, some,
  ◌↔◌, if◌then◌else◌, arith,
}
use realm_cpp.Prelude.Bytes.{Bytes, codes, bytes_eq, bytes_eq_iff, is_empty}
use realm_cpp.Prelude.Numbers.{ℤ, pos, stoi, to_string, stoi-to_string}
use realm_cpp.Net.Headers.{find, find-emplace}
use realm_cpp.Net.Transport.{ProxyConfig, Configuration}
use realm_cpp.Net.Endpoint.{
  ProtocolEnvelope, wss, ws, fatal, ok, err, to_protocol_envelope, SdkEndpoint, CoreEndpoint, Core,
  port_of, configured, to_core_websocket_endpoint, to_websocket_endpoint,
}

-- The port that the SDK is told: the proxy's, if there is a proxy.
abbrev pub told_port : CoreEndpoint → ℕ → ℕ
told_port ep own = elim ep.proxy [ none ↦ own | some p ↦ p.port ]

is_empty-stoi : (s : Bytes) (z : ℤ) → stoi s ≡ some z → is_empty s ≡ false
unfolding stoi is_empty
is_empty-stoi [] z e = cc
is_empty-stoi (c ∷ cs) z e = refl

port_of-to_string : (ssl : Bool) (n : ℕ) → n < 2 ^ 31 → port_of ssl (to_string n) ≡ ok (pos n)
unfolding port_of
port_of-to_string ssl n h =
    rw (is_empty-stoi (to_string n) (pos n) (stoi-to_string n h), stoi-to_string n h)

abbrev pub scheme_of : Bool → Bytes
scheme_of ssl = if ssl then codes "wss" else codes "ws"

abbrev pub envelope_of : Bool → ProtocolEnvelope
envelope_of ssl = if ssl then wss else ws

to_protocol_envelope-scheme_of :
    (ssl : Bool) → to_protocol_envelope (scheme_of ssl ++ codes ":") ≡ ok (envelope_of ssl)
unfolding to_protocol_envelope bytes_eq
to_protocol_envelope-scheme_of true = refl
to_protocol_envelope-scheme_of false = refl

url-told_port :
    (ep : CoreEndpoint) (own : ℕ)
    → ep.port ≡ pos own
    → (to_websocket_endpoint ep).url
      ≡ scheme_of ep.is_ssl
        ++ (codes "://" ++ (ep.address ++ b':' ∷ (to_string (told_port ep own) ++ ep.path)))
unfolding to_websocket_endpoint
url-told_port ep own e = ground arith

module _ (core : Core) where
  open core use {keys, parse_uri, is_ssl, blank}

  -- An endpoint of realm-core that goes to the SDK and back keeps its TLS flag, address, path and
  -- protocols, where the parser splits the URL that is written out here; the port becomes that of
  -- the proxy, if there is one.
  pub to_core-to_websocket :
      (ep : CoreEndpoint) (own : ℕ)
      → ep.port ≡ pos own
      → told_port ep own < 2 ^ 31
      → is_ssl (envelope_of ep.is_ssl) ≡ ep.is_ssl
      → parse_uri (
          scheme_of ep.is_ssl
          ++ (codes "://" ++ (ep.address ++ b':' ∷ (to_string (told_port ep own) ++ ep.path))))
        ≡ record {
          scheme = scheme_of ep.is_ssl ++ codes ":";
          host = ep.address;
          port = to_string (told_port ep own);
          path = ep.path;
          query = [];
        }
      → to_core_websocket_endpoint core (to_websocket_endpoint ep) none
        ≡ ok (record blank {
          is_ssl = ep.is_ssl;
          address = ep.address;
          port = pos (told_port ep own);
          path = ep.path;
          protocols = ep.protocols;
        })
  unfolding to_core_websocket_endpoint configured
  to_core-to_websocket ep own e small tls splits =
      rw
        (
          url-told_port ep own e,
          splits,
          to_protocol_envelope-scheme_of ep.is_ssl,
          tls,
          port_of-to_string ep.is_ssl (told_port ep own) small,
        )
        (unfold to_websocket_endpoint in rw append-nil)

  -- Credentials for the proxy are sent where no custom headers are configured; where they are,
  -- they replace the credentials, also if they have none themselves.
  pub find-proxy_authorization :
      (ep : SdkEndpoint) (c : Configuration) (p : ProxyConfig) (username password : Bytes)
      (r : CoreEndpoint)
      → to_core_websocket_endpoint core ep (some c) ≡ ok r
      → c.proxy_config ≡ some p
      → p.username_password ≡ some (username, password)
      → find keys (codes "Proxy-Authorization") blank.headers ≡ none
      → find keys (codes "Proxy-Authorization") r.headers ≡ elim c.custom_http_headers [
        | none ↦ some (codes "Basic " ++ core.base64_encode (username ++ b':' ∷ password))
        | some custom ↦ find keys (codes "Proxy-Authorization") custom
      ]
  unfolding to_core_websocket_endpoint configured
  find-proxy_authorization ep c p username password r e hp hu hb = ground (
    arith,
    hp,
    hu,
    hb,
    find-emplace keys (codes "Proxy-Authorization") (codes "Proxy-Authorization")
        (codes "Basic " ++ core.base64_encode (username ++ b':' ∷ password)) blank.headers,
    keys.same_refl (codes "Proxy-Authorization"),
  )

  -- The conversion terminates the process exactly for a URL whose scheme is none of the four.
  pub to_core_websocket_endpoint-fatal :
      (ep : SdkEndpoint) (config : Option Configuration)
      → (to_core_websocket_endpoint core ep config ≡ err fatal)
        ↔ ((parse_uri ep.url).scheme ≢ codes "realm:")
          × ((parse_uri ep.url).scheme ≢ codes "realms:")
          × ((parse_uri ep.url).scheme ≢ codes "ws:")
          × ((parse_uri ep.url).scheme ≢ codes "wss:")
  unfolding to_core_websocket_endpoint to_protocol_envelope port_of
  to_core_websocket_endpoint-fatal ep config =
      let s = (parse_uri ep.url).scheme in
      ground (
        arith,
        bytes_eq_iff s (codes "realm:"),
        bytes_eq_iff s (codes "realms:"),
        bytes_eq_iff s (codes "ws:"),
        bytes_eq_iff s (codes "wss:"),
      )

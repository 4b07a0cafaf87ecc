-- ===== src/Net/Transport/Send/Routes.antt =====
-- `send_request_to_server` of src/cpprealm/internal/networking/network_transport.cpp: to which
-- endpoint a request is sent, and behind which handshake.
use realm_cpp.Prelude.{◌≡◌, true, Option, some, arith}
use realm_cpp.Prelude.Bytes.{Bytes}
use realm_cpp.Net.Transport.{
  Request, Configuration, get_url_scheme, Endpoint, CoreRequest, World, Trace,
}
use realm_cpp.Net.Transport.Send.{
  is_https, after_handshake, exchange, completed, refused_by_proxy, thrown, send_request_to_server,
  core_request,
}
use realm_cpp.Net.Transport.Send.Completion.{send_request_to_server_cases}

-- What holds of every endpoint and request that is sent.
abbrev pub Sends {ℓ} : (Endpoint → CoreRequest → Type ℓ) → Trace → Type ℓ
Sends P t = (ep : Endpoint) (r : CoreRequest) → t.sent ≡ some (ep, r) → P ep r

module _ (w : World) (c : Configuration) (request : Request) where
  abbrev host : Bytes
  host = (w.parse_uri request.url).host

  -- The request is the one built from the caller's, and over https it is sent only if the
  -- handshake with the endpoint, for the host of the URL and with verification of the peer where
  -- the configuration asks for it, has succeeded.
  abbrev pub IsAuthentic : Endpoint → CoreRequest → Type 0
  IsAuthentic ep r =
      (r ≡ core_request w c request (w.parse_uri request.url).host)
      × (is_https (get_url_scheme (w.parse_uri request.url).scheme) ≡ true
          → w.handshake ep (w.parse_uri request.url).host c.client_validate_ssl ≡ 0)

  exchange-IsAuthentic :
      (ep : Endpoint) (proxied : Option CoreRequest)
      → Sends IsAuthentic (exchange w c request host ep proxied)
  unfolding exchange after_handshake thrown
  exchange-IsAuthentic ep proxied e r s = (ground arith, λ h. ground arith)

  -- Whatever is sent to a server is the request built from the caller's; and over https it is
  -- sent only after a handshake, with verification where it is configured, that succeeded.
  pub send_request_to_server-IsAuthentic : Sends IsAuthentic (send_request_to_server w c request)
  unfolding completed refused_by_proxy thrown
  send_request_to_server-IsAuthentic =
      send_request_to_server_cases w c request (Sends IsAuthentic) (λ q e r s. cc) (λ q o e r s. cc)
        (λ n ep q o e r s. cc) (λ ep proxied _. exchange-IsAuthentic ep proxied)

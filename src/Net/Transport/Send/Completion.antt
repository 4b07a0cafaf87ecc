-- ===== src/Net/Transport/Send/Completion.antt =====
-- `send_request_to_server` of src/cpprealm/internal/networking/network_transport.cpp: completion.
use realm_cpp.Prelude.{
  ◌≡◌, ◌≢◌, [], refl, ◌⊎◌, inl, inr, Bool, true, false, not, ◌&&◌, Option, none, some, length,
  arith, Bool-cases,
}
use realm_cpp.Prelude.Bytes.{Bytes}
use realm_cpp.Prelude.Numbers.{}
use realm_cpp.Net.Headers.{}
use realm_cpp.Net.Ipv4.{}
use realm_cpp.Net.Transport.{
  Request, Response, ProxyConfig, Configuration, Endpoint, CoreRequest, World, Location, at, throws,
  refused, returned, stuck, threw, Trace, locate, get_url_scheme, proxy_request,
}
use realm_cpp.Net.Transport.Send.{
  thrown, trusts, is_https, after_handshake, exchange, through_proxy, connect_then, completed,
  refused_by_proxy, after_proxy, send_request_to_server, port_or_default,
}

module _ (w : World) (c : Configuration) (request : Request) where
  -- What holds of a request that is completed early, of one that the proxy refuses, and of the
  -- exchange with the server on an endpoint that was located and connected, holds of the call.
  module _ {ℓ} (P : Trace → Type ℓ) (early : (r : Response) → P (completed w r))
      (refusal : (q : CoreRequest) (r : Response) → P (refused_by_proxy w q r))
      (unasked : c.proxy_config ≢ none
        → (ep : Endpoint) (q : CoreRequest) → w.async_request ep q ≡ false
        → P (thrown w none)) where
    after_proxy_cases :
        (h : Bytes) (ep : Endpoint) (q : CoreRequest) (o : Option Response)
        → ((proxied : Option CoreRequest) → P (exchange w c request h ep proxied))
        → P (after_proxy w c request h ep q o)
    unfolding after_proxy
    after_proxy_cases h ep q none server = server (some q)
    after_proxy_cases h ep q (some r) server = refusal q r

    through_proxy_cases :
        (h p : Bytes) (ep : Endpoint) (o : Option ProxyConfig)
        → o ≡ c.proxy_config
        → ((proxied : Option CoreRequest) → P (exchange w c request h ep proxied))
        → P (through_proxy w c request h p ep o)
    unfolding through_proxy
    through_proxy_cases h p ep none e server = server none
    through_proxy_cases h p ep (some x) e server =
        elim (Bool-cases (w.async_request ep (proxy_request w x h p))) [
          | inl a ↦ rw a (after_proxy_cases h ep _ _ server)
          | inr a ↦ rw a (unasked (λ n. cc) ep _ a)
        ]

    connect_then_cases :
        (h p : Bytes) (l : Location)
        → ((ep : Endpoint) (proxied : Option CoreRequest)
            → l ≡ at ep
            → P (exchange w c request h ep proxied))
        → P (connect_then w c request h p l)
    unfolding connect_then
    connect_then_cases h p (at ep) server = elim (Bool-cases (w.connects ep)) [
      | inl e ↦ rw e (through_proxy_cases h p ep c.proxy_config refl (λ q. server ep q refl))
      | inr e ↦ rw e (early _)
    ]
    connect_then_cases h p throws server = early _
    connect_then_cases h p (refused r) server = early r

    pub send_request_to_server_cases :
        ((ep : Endpoint) (proxied : Option CoreRequest)
          → locate w c
              (w.parse_uri request.url).host
              (port_or_default w (w.parse_uri request.url).host (w.parse_uri request.url).port)
            ≡ at ep
          → P (exchange w c request (w.parse_uri request.url).host ep proxied))
        → P (send_request_to_server w c request)
    unfolding send_request_to_server
    send_request_to_server_cases server = connect_then_cases _ _ _ server

  -- Loading the trusted certificates throws.
  abbrev pub IsUntrusted : Type 0
  IsUntrusted = elim c.ssl_trust_certificate_path [
    | none ↦ w.use_default_verify ≡ false
    | some path ↦ w.use_certificate_chain_file path ≡ false
  ]

  -- A call of the TLS layer or of the client for the proxy throws: loading the certificates; over
  -- https, setting the name of the host or starting the handshake; with a proxy, asking it.
  abbrev pub SetUpThrows : Type 0
  SetUpThrows =
      IsUntrusted
      ⊎ ((is_https (get_url_scheme (w.parse_uri request.url).scheme) ≡ true)
          × ((w.set_host_name (w.parse_uri request.url).host ≡ false)
              ⊎ ((ep : Endpoint) × (w.async_handshake ep ≡ false))))
      ⊎ ((c.proxy_config ≢ none)
          × ((ep : Endpoint) × (q : CoreRequest) × (w.async_request ep q ≡ false)))

  -- One completion; the call returns, unless a proxy was asked and nothing was sent; and nothing
  -- is sent with certificates that could not be loaded. Or an exception of the set-up leaves the
  -- call, with no completion and nothing sent.
  abbrev pub CompletesOnce : Trace → Type 0
  CompletesOnce t =
      ((length t.completions ≡ 1)
        × ((t.ending ≡ returned) ⊎ ((t.ending ≡ stuck) × (t.proxied ≢ none) × (t.sent ≡ none)))
        × ((t.sent ≡ none) ⊎ ¬ IsUntrusted))
      ⊎ ((t.ending ≡ threw) × (t.completions ≡ []) × (t.sent ≡ none) × SetUpThrows)

  trusts-cases : ((trusts w c ≡ true) × ¬ IsUntrusted) ⊎ ((trusts w c ≡ false) × IsUntrusted)
  unfolding trusts
  trusts-cases = elim c.ssl_trust_certificate_path [
    | none ↦ ground arith
    | some path ↦ ground arith
  ]

  abbrev fails_to_start : Endpoint → Bool
  fails_to_start ep =
      is_https (get_url_scheme (w.parse_uri request.url).scheme)
      && not (w.set_host_name (w.parse_uri request.url).host && w.async_handshake ep)

  fails_to_start-cases :
      (ep : Endpoint)
      → fails_to_start ep ≡ true
      → (is_https (get_url_scheme (w.parse_uri request.url).scheme) ≡ true)
        × ((w.set_host_name (w.parse_uri request.url).host ≡ false)
            ⊎ ((ep : Endpoint) × (w.async_handshake ep ≡ false)))
  fails_to_start-cases ep h = elim (Bool-cases (w.async_handshake ep)) [
    | inl a ↦ (ground arith, inl (ground arith))
    | inr a ↦ (ground arith, inr (ep, a))
  ]

  exchange-CompletesOnce :
      (ep : Endpoint) (proxied : Option CoreRequest)
      → c.ssl_verify_callback ≡ false
      → CompletesOnce (exchange w c request (w.parse_uri request.url).host ep proxied)
  unfolding exchange after_handshake thrown
  exchange-CompletesOnce ep proxied e = elim trusts-cases [
    | inl (t, u) ↦
        rw (t, e)
          (elim (Bool-cases (fails_to_start ep)) [
            | inl h ↦ rw h (inr (refl, refl, refl, inr (inl (fails_to_start-cases ep h))))
            | inr h ↦ rw h (inl (ground arith, ground arith, inr u))
          ])
    | inr (t, u) ↦ rw t (inr (refl, refl, refl, inl u))
  ]

  -- Without an `ssl_verify_callback`, whatever the network answers, a request is completed exactly
  -- once; the call returns, unless a proxy was asked and nothing was sent to the server; and
  -- nothing is sent with certificates that could not be loaded. That does not hold in one case:
  -- where a call of the TLS layer or of the client for the proxy throws (loading the trusted
  -- certificates, setting the name of the host, starting the handshake, asking the proxy), it
  -- leaves the call, the request is never completed, and nothing was sent to the server.
  pub send_request_to_server-CompletesOnce :
      c.ssl_verify_callback ≡ false → CompletesOnce (send_request_to_server w c request)
  unfolding completed refused_by_proxy thrown
  send_request_to_server-CompletesOnce e =
      send_request_to_server_cases CompletesOnce (λ r. inl (refl, inl refl, inl refl))
        (λ q r. inl (refl, inr (refl, (λ k. cc), refl), inl refl))
        (λ n ep q x. inr (refl, refl, refl, inr (inr (n, (ep, q, x)))))
        (λ ep proxied _. exchange-CompletesOnce ep proxied e)

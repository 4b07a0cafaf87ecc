-- ===== src/Net/Transport/Send/Precedence.antt =====
-- The headers built in `send_request_to_server` of
-- src/cpprealm/internal/networking/network_transport.cpp: which value each has.
use realm_cpp.Prelude.{◌≡◌, [], not, ◌&&◌, Option, none, some, if◌then◌else◌, length, arith}
use realm_cpp.Prelude.Bytes.{Bytes, codes, is_empty}
use realm_cpp.Prelude.Numbers.{to_string}
use realm_cpp.Net.Headers.{
  Headers, find, find-assign, assign, assign_all, find-emplace_all, first_of_two,
}
use realm_cpp.Net.Transport.{Request, Configuration, World}
use realm_cpp.Net.Transport.Send.{build_headers}

-- The custom headers, or none.
abbrev pub custom : Configuration → Headers
custom c = elim c.custom_http_headers [ none ↦ [] | some h ↦ h ]

module _ (w : World) (c : Configuration) (request : Request) (host : Bytes) where
  -- The value of a header by precedence: the transport's own, then the request's, then the first
  -- custom one.
  abbrev pub ranked : Bytes → Option Bytes
  ranked j =
      if w.keys.same (codes "Content-Length") j && not (is_empty request.body)
      then some (to_string (length request.body))
      else if w.keys.same (codes "User-Agent") j
      then some (codes "Realm C++ SDK")
      else if w.keys.same (codes "Host") j
      then some host
      else first_of_two (find w.keys j (assign_all w.keys request.headers []))
          (find w.keys j (custom c))

  -- Every header of the request that is sent has the value of the transport, if it sets one; else
  -- that of the caller's request; else the first custom one. None is lost, and none is added.
  pub find-build_headers : (j : Bytes) → find w.keys j (build_headers w c request host) ≡ ranked j
  unfolding build_headers find
  find-build_headers j =
      let sent = assign_all w.keys request.headers [] in
      let hosted = assign w.keys (codes "Host") host sent in
      let own = assign w.keys (codes "User-Agent") (codes "Realm C++ SDK") hosted in
      let sized = assign w.keys (codes "Content-Length") (to_string (length request.body)) own in
      ground (
        arith,
        find-emplace_all w.keys j (custom c) own,
        find-emplace_all w.keys j (custom c) sized,
        find-assign w.keys (codes "Content-Length") j (to_string (length request.body)) own,
        find-assign w.keys (codes "User-Agent") j (codes "Realm C++ SDK") hosted,
        find-assign w.keys (codes "Host") j host sent,
      )

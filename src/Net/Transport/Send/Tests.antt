-- ===== src/Net/Transport/Send/Tests.antt =====
-- A small network, and the theorems about requests at concrete inputs.
use realm_cpp.Prelude.{◌≡◌, refl, [], ◌∷◌, true, false, none, some}
use realm_cpp.Prelude.Bytes.{codes, bytes_eq}
use realm_cpp.Net.Headers.{exact, find}
use realm_cpp.Net.Ipv4.{is_valid_ipv4, read_segments, take_segment, getline, valid_segments}
use realm_cpp.Net.Transport.{get, Request, Configuration, World}
use realm_cpp.Net.Transport.Send.{send_request_to_server, build_headers}
use realm_cpp.Net.Transport.Send.Completion.{CompletesOnce, send_request_to_server-CompletesOnce}
use realm_cpp.Net.Transport.Send.Routes.{Sends, IsAuthentic, send_request_to_server-IsAuthentic}
use realm_cpp.Net.Transport.Send.Precedence.{find-build_headers}

-- Every URL is https://db.example:8443/x, every name resolves, and the server answers 200.
abbrev one_server : World
one_server = record {
  keys = exact;
  parse_uri = λ u. record {
    scheme = codes "https:";
    host = codes "db.example";
    port = codes "8443";
    path = codes "/x";
    query = [];
  };
  make_address = λ a. 0;
  message = λ e. [];
  resolves = λ h s. true;
  connects = λ e. true;
  async_request = λ e r. true;
  use_certificate_chain_file = λ path. false;
  use_default_verify = true;
  set_host_name = λ h. true;
  async_handshake = λ e. true;
  base64_encode = λ b. b;
  operation_aborted = 89;
  status_ok = 200;
  proxy_reply = λ e r. (0, record { status = 407; headers = []; body = none });
  handshake = λ e h v. 0;
  reply = λ e r. record { status = 200; headers = []; body = some (codes "ok") };
}

abbrev direct : Configuration
direct = record {
  custom_http_headers = some ((codes "Host", codes "other") ∷ (codes "X", codes "1") ∷ []);
  proxy_config = none;
  client_validate_ssl = true;
  ssl_trust_certificate_path = none;
  ssl_verify_callback = false;
}

abbrev verifying : Configuration
verifying = record direct { ssl_verify_callback = true }

abbrev ping : Request
ping = record {
  method = get;
  url = codes "https://db.example:8443/x";
  timeout_ms = 0;
  headers = (codes "Accept", codes "json") ∷ [];
  body = codes "hello";
}

named_host : is_valid_ipv4 (codes "db.example") ≡ false
unfolding is_valid_ipv4 read_segments take_segment getline valid_segments
named_host = refl

send_request_to_server-CompletesOnce_example :
    CompletesOnce one_server direct ping (send_request_to_server one_server direct ping)
send_request_to_server-CompletesOnce_example =
    send_request_to_server-CompletesOnce one_server direct ping refl

send_request_to_server-IsAuthentic_example :
    Sends (IsAuthentic one_server direct ping) (send_request_to_server one_server direct ping)
send_request_to_server-IsAuthentic_example =
    send_request_to_server-IsAuthentic one_server direct ping

find-build_headers_example :
    find exact (codes "Host") (build_headers one_server direct ping (codes "db.example"))
    ≡ some (codes "db.example")
unfolding bytes_eq find
find-build_headers_example =
    find-build_headers one_server direct ping (codes "db.example") (codes "Host")

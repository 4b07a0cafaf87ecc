-- ===== src/Net/Shim/Tests.antt =====
-- The shim with a network that always answers 200.
use realm_cpp.Prelude.{◌≡◌, refl, ◌⊎◌, [], ◌∷◌, true, false, none, some}
use realm_cpp.Prelude.Bytes.{codes}
use realm_cpp.Net.Headers.{exact}
use realm_cpp.Net.Transport.{get, Response, Configuration, World, threw}
use realm_cpp.Net.Transport.Send.{send_request_to_server}
use realm_cpp.Net.Shim.{AppRequest, to_request, to_core_response, allocated, freed, shim_request}
use realm_cpp.Net.Shim.Once.{shim_request-freed}

abbrev one_server : World
one_server = record {
  keys = exact;
  parse_uri = λ u. record {
    scheme = codes "https:";
    host = codes "db.example";
    port = codes "8443";
    path = codes "/x";
    query = [];
  };
  make_address = λ a. 0;
  message = λ e. [];
  resolves = λ h s. true;
  connects = λ e. true;
  async_request = λ e r. true;
  use_certificate_chain_file = λ path. false;
  use_default_verify = true;
  set_host_name = λ h. true;
  async_handshake = λ e. true;
  base64_encode = λ b. b;
  operation_aborted = 89;
  status_ok = 200;
  proxy_reply = λ e r. (0, record { status = 407; headers = []; body = none });
  handshake = λ e h v. 0;
  reply = λ e r. record { status = 200; headers = []; body = some (codes "ok") };
}

abbrev direct : Configuration
direct = record {
  custom_http_headers = none;
  proxy_config = none;
  client_validate_ssl = true;
  ssl_trust_certificate_path = none;
  ssl_verify_callback = false;
}

abbrev login : AppRequest
login = record {
  app_method = get;
  app_url = codes "https://db.example:8443/x";
  app_timeout_ms = 0;
  app_headers = [];
  app_body = codes "hello";
}

shim_request-freed_example :
    ((r : Response) × ((send_request_to_server one_server direct (to_request login)).completions
        ≡ r ∷ [])
      × (shim_request one_server direct login ≡ some (freed, to_core_response r ∷ [])))
    ⊎ (((send_request_to_server one_server direct (to_request login)).ending ≡ threw)
        × (shim_request one_server direct login ≡ some (allocated, [])))
shim_request-freed_example = shim_request-freed one_server direct login refl

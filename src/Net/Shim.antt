-- ===== src/Net/Shim.antt =====
-- core_http_transport_shim of src/cpprealm/internal/networking/shims.cpp, which hands the requests of
-- realm-core to an HTTP client of the SDK, with the conversions of
-- src/cpprealm/internal/networking/utils.cpp.
--
-- realm-core's completion block is taken out of its UniqueFunction, and every call of the lambda
-- that the client is given makes a UniqueFunction of it again, which frees it when the call ends.
-- The default transport sets no `client_error_code`.
pub mod Once
mod Tests
use realm_cpp.Prelude.{ℕ, List, [], ◌∷◌, Option, none, some}
use realm_cpp.Prelude.Bytes.{Bytes}
use realm_cpp.Net.Headers.{Headers}
use realm_cpp.Net.Transport.{HttpMethod, Request, Response, Configuration, World}
use realm_cpp.Net.Transport.Send.{send_request_to_server}

-- `app::Request` and `app::Response`
pub record AppRequest : Type 0 where
  pub app_method : HttpMethod
  pub app_url : Bytes
  pub app_timeout_ms : ℕ
  pub app_headers : Headers
  pub app_body : Bytes

pub record AppResponse : Type 0 where
  pub app_http_status_code : Option ℕ
  pub app_custom_status_code : Option ℕ
  pub app_headers : Headers
  pub app_body : Bytes
  pub app_client_error_code : Option ℕ

pub to_request : AppRequest → Request
to_request core_request = record {
  method = core_request.app_method;
  url = core_request.app_url;
  timeout_ms = core_request.app_timeout_ms;
  headers = core_request.app_headers;
  body = core_request.app_body;
}

pub to_core_response : Response → AppResponse
to_core_response req = record {
  app_http_status_code = req.http_status_code;
  app_custom_status_code = req.custom_status_code;
  app_headers = req.headers;
  app_body = req.body;
  app_client_error_code = none;
}

-- The memory of the completion block.
pub data Block : Type 0 where
  allocated freed : Block

-- The lambda; `none` is the use of a block that has been freed.
pub run_lambda : Response → Block → Option (Block × AppResponse)
unfolding to_core_response
run_lambda response allocated = some (freed, to_core_response response)
run_lambda response freed = none

pub run_lambdas : List Response → Block → Option (Block × List AppResponse)
unfolding run_lambda
run_lambdas [] b = some (b, [])
run_lambdas (r ∷ rs) b = elim (run_lambda r b) [
  | none ↦ none
  | some out ↦ elim (run_lambdas rs out.0) [
    | none ↦ none
    | some rest ↦ some (rest.0, out.1 ∷ rest.1)
  ]
]

-- send_request_to_server of the shim, with the default transport as its client.
pub shim_request : World → Configuration → AppRequest → Option (Block × List AppResponse)
unfolding run_lambdas to_request
shim_request w c request =
    run_lambdas (send_request_to_server w c (to_request request)).completions allocated

-- ===== src/Http.antt =====
-- src/statsig_compat/network/network_client.hpp, and the constants of
-- src/statsig/internal/constants.h. The HTTP library is not under the repository: what it returns for
-- a request is an argument of the functions that post.
use cpp_client_sdk.Dict.{Dict, find}
use cpp_client_sdk.Prelude.{
  ℕ, String, Bool, true, ◌&&◌, Option, none, some, [], ◌∷◌, value_or, ℤ, pos, negsuc, ltb_ℤ, leb_ℤ,
}
use cpp_client_sdk.Text.{concat, str_eq}

pub record HttpResponse : Type 0 where
  pub text : String
  pub status : ℤ
  pub sdk_region : String
  pub error : Option String

pub record HttpRequest : Type 0 where
  pub api : String
  pub path : String
  pub headers : Dict String
  pub body : String

-- 200 to 299.
abbrev pub is_success_status : ℤ → Bool
is_success_status status = leb_ℤ (pos 200) status && ltb_ℤ status (pos 300)

-- GetDefaultPlatformHeaders.
abbrev pub default_platform_headers : Dict String
default_platform_headers = ("Accept-Encoding", "gzip") ∷ []

-- What httplib returns: a response with its headers, or an error with its text (`none` where the
-- error code is Success).
pub data HttplibResult : Type 0 where
  http_reply : String → ℤ → Dict String → HttplibResult
  http_failure : Option String → HttplibResult

-- NetworkClient::Post, from the library's result to the response handed to the callback.
unfoldable pub to_http_response : HttplibResult → HttpResponse
unfolding find
to_http_response (http_reply body status headers) = record {
  text = body;
  status = status;
  sdk_region = value_or (find "x-statsig-region" headers) "";
  error = none;
}
to_http_response (http_failure err) = record {
  text = "";
  status = negsuc 0;
  sdk_region = "";
  error =
      some
        (elim err [ none ↦ "httplib::Error::Unknown" | some text ↦ concat "httplib::Error" text ]);
}

abbrev pub sdk_type : String
sdk_type = "cpp-client"

abbrev pub sdk_version : String
sdk_version = "0.0.10"

abbrev pub endpoint_initialize : String
endpoint_initialize = "/v1/initialize"

abbrev pub endpoint_log_event : String
endpoint_log_event = "/v1/rgstr"

abbrev pub default_api : String
default_api = "https://statsigapi.net"

abbrev pub initialize_retry_count : ℕ
initialize_retry_count = 3

abbrev pub log_event_retry_count : ℕ
log_event_retry_count = 2

-- kBadNetworkErr and kShutdownTimeoutExtra.
abbrev pub bad_network_err : String
bad_network_err = "NetworkError_"

abbrev pub shutdown_timeout_extra : String
shutdown_timeout_extra = "ShutdownTimeout"

-- What NetworkClient::Post asks the library for.
pub record HttplibRequest : Type 0 where
  pub host : String
  pub follow_location : Bool
  pub compress : Bool
  pub path : String
  pub headers : Dict String
  pub body : String
  pub content_type : String

unfoldable pub to_httplib_request : HttpRequest → HttplibRequest
to_httplib_request request = record {
  host = request.api;
  follow_location = true;
  compress = str_eq request.path endpoint_log_event;
  path = request.path;
  headers = request.headers;
  body = request.body;
  content_type = "application/json";
}

-- ===== src/Network.antt =====
-- src/statsig/internal/network_service.hpp. A post is synchronous: what the server answers to the
-- n-th attempt, and when, is an argument. The service outlives its own calls, which hold it.
pub mod Retry
pub mod Requests
pub mod Wire
use cpp_client_sdk.Details.{DataAdapterResult}
use cpp_client_sdk.Diagnostics.{
  network_start, network_end, process_start, process_end, Diagnostics, mark,
}
use cpp_client_sdk.Dict.{Dict, emplace}
use cpp_client_sdk.Evaluation.{InitializeResponse, empty_response}
use cpp_client_sdk.Event.{StatsigEventInternal}
use cpp_client_sdk.Http.{
  HttpResponse, HttpRequest, is_success_status, default_platform_headers, sdk_type, sdk_version,
  endpoint_initialize, endpoint_log_event, default_api, initialize_retry_count,
  log_event_retry_count, bad_network_err,
}
use cpp_client_sdk.Json.InitializeResponse.{deserialize_response}
use cpp_client_sdk.Json.Requests.{
  deserialize_log_event_response, InitializeRequestArgs, serialize_initialize_args,
  serialize_log_event_args,
}
use cpp_client_sdk.JsonLib.{JsonLib, ◌>>=◌}
use cpp_client_sdk.Prelude.{
  ℕ, zero, suc, ◌+◌, String, Bool, false, ◌||◌, not, Option, none, some, List, [], ◌∷◌, leb, ◌==◌,
  if◌then◌else◌, value_or, ℤ, pos, negsuc, ltb_ℤ, eqb_ℤ,
}
use cpp_client_sdk.Result.{StatsigResultCode, code_ok, network_failure_bad_status_code, code_eq}
use cpp_client_sdk.Text.{concat, to_string_ℤ, str_eq}
use cpp_client_sdk.User.{StatsigUser, StatsigOptions, MapOrder, get_full_user_hash}

-- retryable_codes_.
pub is_retryable : ℤ → Bool
is_retryable (negsuc n) = false
is_retryable (pos s) =
    s == 408 || s == 500 || s == 502 || s == 503 || s == 504 || s == 522 || s == 524 || s == 599

-- NetworkResult<T>: a result with the raw text of the response.
pub record NetworkResult {ℓ} (A : Type ℓ) : Type ℓ where
  pub code : StatsigResultCode
  pub value : Option A
  pub extra : Option (Dict String)
  pub raw : String

abbrev pub has_success_code : Option HttpResponse → Bool
has_success_code none = false
has_success_code (some r) = is_success_status r.status

unfoldable pub get_status_code_err : Option HttpResponse → Option (Dict String)
unfolding to_string_ℤ
get_status_code_err none = none
get_status_code_err (some r) =
    if ltb_ℤ r.status (pos 500)
    then none
    else some ((bad_network_err, concat bad_network_err (to_string_ℤ r.status)) ∷ [])

-- One attempt, seen from the client: the times that its two markers read, and the response.
pub record Exchange : Type 0 where
  pub started : ℤ
  pub finished : ℤ
  pub answer : HttpResponse

-- What PostWithRetry leaves behind when it calls back.
module _ ⦃J : JsonLib⦄ where
  pub record Posted : Type 0 where
    pub diagnostics : Diagnostics
    pub attempt : ℕ
    pub answer : HttpResponse

module _ ⦃J : JsonLib⦄ (respond : ℕ → Exchange) where
  mark_if : Bool → Diagnostics → J.Ordered → Diagnostics
  mark_if is_initialize d marker = if is_initialize then mark d marker else d

  -- One attempt: its start marker, the post, its end marker.
  pub attempt_once : Diagnostics → Bool → ℕ → Diagnostics
  unfolding mark_if
  attempt_once d is_initialize attempt =
      let x = respond attempt in
      let started = mark_if is_initialize d (network_start x.started (pos attempt)) in
      mark_if is_initialize started (
        network_end x.finished (pos attempt) x.answer.status x.answer.text x.answer.sdk_region
          x.answer.error)

  -- The recursion counts attempts up to `max_attempts`; `none` means that the fuel ran out.
  pub post_with_retry : ℕ → Diagnostics → String → ℕ → ℕ → Option Posted
  unfolding attempt_once is_retryable
  post_with_retry zero d endpoint max_attempts attempt = none
  post_with_retry (suc fuel) d endpoint max_attempts attempt =
      let d' = attempt_once d (str_eq endpoint endpoint_initialize) attempt in
      let answer = (respond attempt).answer in
      let done : Option Posted =
        some (record { diagnostics = d'; attempt = attempt; answer = answer }) in
      let again = post_with_retry fuel d' endpoint max_attempts (attempt + 1) in
      if has_success_code (some answer)
      then done
      else if not (is_retryable answer.status) || leb max_attempts attempt
      then done
      else again

-- The headers of a request; a header that the platform gives stays.
unfoldable pub get_headers : String → ℤ → String → Dict String
unfolding emplace
get_headers sdk_key now session_id = emplace "STATSIG-SDK-VERSION" sdk_version (
    emplace "STATSIG-SDK-TYPE" sdk_type (
      emplace "STATSIG-SERVER-SESSION-ID" session_id (
        emplace "STATSIG-CLIENT-TIME" (to_string_ℤ now)
          (emplace "STATSIG-API-KEY" sdk_key default_platform_headers))))

-- NetworkService::Post, up to what NetworkClient::Post asks for.
unfoldable pub post_request : StatsigOptions → String → ℤ → String → String → String → HttpRequest
unfolding get_headers
post_request options sdk_key now session_id endpoint body = record {
  api = value_or options.api default_api;
  path = endpoint;
  headers = get_headers sdk_key now session_id;
  body = body;
}

pub get_statsig_metadata : String → String → Dict String
get_statsig_metadata session_id stable_id =
    ("sdkType", sdk_type)
    ∷ ("sdkVersion", sdk_version)
    ∷ ("sessionID", session_id)
    ∷ ("stableID", stable_id)
    ∷ []

module _ ⦃J : JsonLib⦄ where
  unfoldable pub deserialize_cache_value_if_valid_for_204 :
      ⦃o : MapOrder⦄ → StatsigUser → Option DataAdapterResult → Option InitializeResponse
  deserialize_cache_value_if_valid_for_204 current_user none = none
  deserialize_cache_value_if_valid_for_204 current_user (some cached_result) =
      if str_eq (get_full_user_hash current_user) cached_result.full_user_hash
      then (deserialize_response cached_result.values_str).value
      else none

  -- The body that FetchValues posts.
  unfoldable pub initialize_args :
      ⦃o : MapOrder⦄ → StatsigUser → Option DataAdapterResult → Dict String → InitializeRequestArgs
  unfolding deserialize_cache_value_if_valid_for_204
  initialize_args user current metadata =
      let valid = deserialize_cache_value_if_valid_for_204 user current in
      record {
        hash = "djb2";
        user = user;
        statsig_metadata = metadata;
        since_time = elim valid [ none ↦ pos 0 | some v ↦ if v.has_updates then v.time else pos 0 ];
      }

  -- HandleFetchValuesResponse, with the times that its markers read.
  unfoldable pub handle_fetch_values_response :
      Diagnostics → ℤ → ℤ → Option HttpResponse → Diagnostics × NetworkResult InitializeResponse
  unfolding get_status_code_err mark
  handle_fetch_values_response d now later none = (
    d,
    record {
      code = network_failure_bad_status_code;
      value = none;
      extra = get_status_code_err none;
      raw = "";
    },
  )
  handle_fetch_values_response d now later (some answer) =
      let d' = mark d (process_start now) in
      let data_ = deserialize_response answer.text in
      if not (has_success_code (some answer))
      then (
        d,
        record {
          code = network_failure_bad_status_code;
          value = none;
          extra = get_status_code_err (some answer);
          raw = "";
        },
      )
      else if eqb_ℤ answer.status (pos 204)
      then (d', record { code = code_ok; value = some empty_response; extra = none; raw = "" })
      else if not (code_eq data_.code code_ok)
      then (
        mark d' (process_end later false),
        record { code = data_.code; value = none; extra = none; raw = "" },
      )
      else (d', record { code = code_ok; value = data_.value; extra = none; raw = answer.text })

  -- FetchValues: the diagnostics, and what the callback is given; the server answers the n-th post of
  -- a body by `respond body n`. Where the arguments do not serialize, also where the serializer throws,
  -- which Capture catches, nothing is posted and the callback is not called. What Capture reports of
  -- the exception is the matter of ErrorBoundary.capture, on a boundary of the service's own.
  pub fetch_values :
      ⦃o : MapOrder⦄
      → (String → ℕ → Exchange)
      → ℤ
      → ℤ
      → Dict String
      → StatsigUser
      → Option DataAdapterResult
      → Diagnostics
      → Option (Diagnostics × Option (NetworkResult InitializeResponse))
  unfolding handle_fetch_values_response initialize_args serialize_initialize_args
  fetch_values respond now later metadata user current d =
      elim (serialize_initialize_args (initialize_args user current metadata) >>= λ serialized.
      serialized.value) [
        | none ↦ some (d, none)
        | some body ↦
            post_with_retry (respond body) (initialize_retry_count + 1) d endpoint_initialize
              initialize_retry_count 1
            >>= λ p.
                let (d', result) =
                  handle_fetch_values_response p.diagnostics now later (some p.answer) in
                some (d', some result)
      ]

  -- The callback of SendEvents: `value` is there exactly when the status is a success.
  unfoldable pub send_events_result : Option HttpResponse → NetworkResult Bool
  unfolding get_status_code_err deserialize_log_event_response
  send_events_result answer =
      let res = deserialize_log_event_response (elim answer [ none ↦ "" | some r ↦ r.text ]) in
      if not (has_success_code answer)
      then record {
        code = network_failure_bad_status_code;
        value = none;
        extra = get_status_code_err answer;
        raw = "";
      }
      else record {
        code = res.code;
        value = some (elim res.value [ none ↦ false | some v ↦ v.success ]);
        extra = none;
        raw = "";
      }

  -- SendEvents: what the callback is given. `none` where the callback is not called: the arguments do
  -- not serialize, or the serializer throws, which nothing on the thread of the caller catches.
  pub send_events :
      (String → ℕ → Exchange)
      → Dict String
      → List StatsigEventInternal
      → Diagnostics
      → Option (NetworkResult Bool)
  unfolding send_events_result serialize_log_event_args
  send_events respond metadata events d = serialize_log_event_args events metadata >>= λ serialized.
      serialized.value >>= λ body.
      post_with_retry (respond body) (log_event_retry_count + 1) d endpoint_log_event
        log_event_retry_count 1
      >>= λ p. some (send_events_result (some p.answer))

-- ===== src/Network/Wire.antt =====
-- NetworkService::Post and NetworkClient::Post over a network, and what becomes of a connection that
-- fails. `wire n` is what the HTTP library gives for the request of the n-th attempt, `now` the clock.
use cpp_client_sdk.Diagnostics.{Diagnostics}
use cpp_client_sdk.Dict.{find, emplace}
use cpp_client_sdk.Http.{
  HttplibResult, http_failure, to_http_response, endpoint_log_event, HttplibRequest,
  to_httplib_request,
}
use cpp_client_sdk.JsonLib.{JsonLib}
use cpp_client_sdk.Network.{Exchange, Posted, post_with_retry, get_headers, post_request}
use cpp_client_sdk.Network.Retry.{last_posted, asks_retry-negsuc, post_with_retry_stop}
use cpp_client_sdk.Prelude.{ℕ, suc, ◌+◌, ◌*◌, String, ◌≡◌, refl, ap, inl, Option, some, ℤ, negsuc}
use cpp_client_sdk.Text.{str_eq}
use cpp_client_sdk.User.{StatsigOptions}

module _ (wire : ℕ → HttplibRequest → HttplibResult) (now : ℕ → ℤ) (options : StatsigOptions)
    (sdk_key session_id endpoint body : String) where
  -- The request of an attempt.
  pub request_of : ℕ → HttplibRequest
  unfolding to_httplib_request post_request
  request_of n =
      to_httplib_request (post_request options sdk_key (now (3 * n + 1)) session_id endpoint body)

  -- The attempt as the client sees it: its start, its request and its end read the clock.
  exchange_over : ℕ → Exchange
  unfolding request_of to_http_response
  exchange_over n = record {
    started = now (3 * n);
    finished = now (3 * n + 2);
    answer = to_http_response (wire n (request_of n));
  }

  -- Every attempt sends the body to the endpoint with the SDK key, whatever came before; only the
  -- events are compressed.
  request_of-sends :
      (n : ℕ)
      → ((request_of n).body ≡ body)
        × ((request_of n).path ≡ endpoint)
        × (find "STATSIG-API-KEY" (request_of n).headers ≡ some sdk_key)
        × ((request_of n).compress ≡ str_eq endpoint endpoint_log_event)
  unfolding request_of get_headers find emplace
  request_of-sends n = (refl, refl, refl, refl)

  exchange_over-http_failure :
      (n : ℕ) (err : Option String)
      → wire n (request_of n) ≡ http_failure err
      → (exchange_over n).answer.status ≡ negsuc 0
  unfolding exchange_over to_http_response
  exchange_over-http_failure n err h = ap (λ r. (to_http_response r).status) h

  module _ ⦃J : JsonLib⦄ where
    -- A connection that fails is not tried again: whichever error the library gives for the first
    -- attempt, the post ends with it, however many attempts are allowed, and the caller gets a
    -- response with the status -1.
    post_with_retry-http_failure :
        (fuel : ℕ) (d : Diagnostics) (max_attempts : ℕ) (err : Option String)
        → wire 1 (request_of 1) ≡ http_failure err
        → (p : Posted) × (post_with_retry exchange_over (suc fuel) d endpoint max_attempts 1
            ≡ some p)
          × (p.attempt ≡ 1)
          × (p.answer.status ≡ negsuc 0)
    post_with_retry-http_failure fuel d max_attempts err h =
        let status = exchange_over-http_failure 1 err h in
        (
          last_posted exchange_over d endpoint 1,
          post_with_retry_stop exchange_over fuel d endpoint max_attempts 1
              (inl (asks_retry-negsuc exchange_over 1 0 status)),
          refl,
          status,
        )

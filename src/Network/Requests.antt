-- ===== src/Network/Requests.antt =====
-- What a fetch tells its caller, and what a failed request means to the error boundary.
use cpp_client_sdk.Details.{DataAdapterResult}
use cpp_client_sdk.Diagnostics.{Diagnostics}
use cpp_client_sdk.Dict.{Dict}
use cpp_client_sdk.ErrorBoundary.{error_from_result_code}
use cpp_client_sdk.ErrorBoundary.Reports.{reportable}
use cpp_client_sdk.Evaluation.{InitializeResponse}
use cpp_client_sdk.Event.{StatsigEventInternal}
use cpp_client_sdk.Http.{
  HttpResponse, endpoint_initialize, endpoint_log_event, initialize_retry_count,
  log_event_retry_count, bad_network_err,
}
use cpp_client_sdk.Json.InitializeResponse.{deserialize_response, deserialize_response_cases}
use cpp_client_sdk.Json.Requests.{serialize_initialize_args, serialize_log_event_args}
use cpp_client_sdk.JsonLib.{JsonLib, ◌>>=◌}
use cpp_client_sdk.Network.{
  has_success_code, get_status_code_err, Exchange, Posted, post_with_retry,
  deserialize_cache_value_if_valid_for_204, initialize_args, handle_fetch_values_response,
  fetch_values, send_events_result, send_events,
}
use cpp_client_sdk.Network.Retry.{EndsAt, post_with_retry-EndsAt}
use cpp_client_sdk.Prelude.{
  ℕ, ◌+◌, ◌≤◌, String, ◌≡◌, refl, sym, ap, ◌∙◌, ◌≢◌, ◌⊎◌, inl, inr, Bool, true, false, not, Option,
  none, some, List, [], ◌∷◌, arith, if◌then◌else◌, Bool-cases, has_value, ℤ, pos, ltb_ℤ,
}
use cpp_client_sdk.Result.{
  json_failure_initialize_response, network_failure_bad_status_code, StatsigResult, succeed, fail,
}
use cpp_client_sdk.Text.{concat, to_string_ℤ, str_eq, eq_iff}
use cpp_client_sdk.User.{StatsigUser, MapOrder, get_full_user_hash}

module _ ⦃J : JsonLib⦄ where
  -- A fetch whose request the JSON library can print calls back, after one to three attempts, with what
  -- HandleFetchValuesResponse makes of the response of the last attempt.
  pub fetch_values_total :
      ⦃o : MapOrder⦄ (respond : String → ℕ → Exchange) (now later : ℤ) (metadata : Dict String)
      (user : StatsigUser) (current : Option DataAdapterResult) (d : Diagnostics) (body : String)
      → serialize_initialize_args (initialize_args user current metadata) ≡ some (succeed body)
      → (p : Posted) × (fetch_values respond now later metadata user current d ≡ (
          let (d', result) = handle_fetch_values_response p.diagnostics now later (some p.answer) in
          some (d', some result)))
        × (1 ≤ p.attempt)
        × (p.attempt ≤ 3)
        × (p.answer ≡ (respond body p.attempt).answer)
  unfolding fetch_values
  fetch_values_total respond now later metadata user current d body printed =
      let (p, posted, last, ends) =
        post_with_retry-EndsAt (respond body) (initialize_retry_count + 1) d endpoint_initialize
          initialize_retry_count 1 (omega arith) (omega arith) in
      (p, rw (printed, fetch_values, posted) refl, ends.from, omega (arith, ends.within), last)

  -- A batch that serializes is posted once or twice, the second time exactly if the first answer asks
  -- for it, and the callback is given what SendEvents makes of the last answer.
  pub send_events_total :
      (respond : String → ℕ → Exchange) (metadata : Dict String)
      (events : List StatsigEventInternal) (d : Diagnostics) (body : String)
      → serialize_log_event_args events metadata ≡ some (succeed body)
      → (n : ℕ) × EndsAt (respond body) 1 2 n
        × (send_events respond metadata events d
            ≡ some (send_events_result (some (respond body n).answer)))
  unfolding send_events
  send_events_total respond metadata events d body h =
      let (p, posted, last, ends) =
        post_with_retry-EndsAt (respond body) (log_event_retry_count + 1) d endpoint_log_event
          log_event_retry_count 1 (omega arith) (omega arith) in
      (
        p.attempt,
        ends,
        ap
              (λ o. o >>= λ s. s.value >>= λ b.
                post_with_retry (respond b) (log_event_retry_count + 1) d endpoint_log_event
                  log_event_retry_count 1
                >>= λ p. some (send_events_result (some p.answer)))
              h
            ∙ ap (λ o. o >>= λ p. some (send_events_result (some p.answer))) posted
            ∙ ap (λ a. some (send_events_result (some a))) last,
      )

  -- The value is there for a success, whatever the body says.
  pub send_events_result-value :
      (answer : HttpResponse)
      → has_value (send_events_result (some answer)).value ≡ has_success_code (some answer)
  unfolding send_events_result
  send_events_result-value answer = elim (Bool-cases (has_success_code (some answer))) [
    | inl good ↦ ground (arith, good)
    | inr bad ↦ ground (arith, bad)
  ]

  -- A fetch whose request cannot be printed posts nothing and does not call back.
  pub fetch_values_unprintable :
      ⦃o : MapOrder⦄ (respond : String → ℕ → Exchange) (now later : ℤ) (metadata : Dict String)
      (user : StatsigUser) (current : Option DataAdapterResult) (d : Diagnostics)
      → serialize_initialize_args (initialize_args user current metadata) ≡ none
      → fetch_values respond now later metadata user current d ≡ some (d, none)
  unfolding fetch_values
  fetch_values_unprintable respond now later metadata user current d unprinted =
      rw (unprinted, fetch_values) refl

  -- A cached result counts only for the user whose full hash it carries.
  valid_for_204_cases :
      ⦃o : MapOrder⦄ (user : StatsigUser) (r : DataAdapterResult)
      → (deserialize_cache_value_if_valid_for_204 user (some r) ≡ none)
        ⊎ ((v : InitializeResponse) × (r.full_user_hash ≡ get_full_user_hash user)
            × (deserialize_response r.values_str ≡ succeed v)
            × (deserialize_cache_value_if_valid_for_204 user (some r) ≡ some v))
  unfolding deserialize_cache_value_if_valid_for_204
  valid_for_204_cases user r =
      go (str_eq (get_full_user_hash user) r.full_user_hash)
        (deserialize_response_cases r.values_str)
        (λ e. sym ((eq_iff (get_full_user_hash user) r.full_user_hash).0 e))
    where
      go :
          (same : Bool)
          → (deserialize_response r.values_str ≡ fail json_failure_initialize_response)
            ⊎ ((v : InitializeResponse) × (deserialize_response r.values_str ≡ succeed v))
          → (same ≡ true → r.full_user_hash ≡ get_full_user_hash user)
          → ((if same then (deserialize_response r.values_str).value else none) ≡ none)
            ⊎ ((v : InitializeResponse) × (r.full_user_hash ≡ get_full_user_hash user)
                × (deserialize_response r.values_str ≡ succeed v)
                × ((if same then (deserialize_response r.values_str).value else none) ≡ some v))
      go false c h = inl refl
      go true (inl e) h = inl (ap (λ (t : StatsigResult InitializeResponse). t.value) e)
      go true (inr (v, e)) h =
          inr (v, h refl, e, ap (λ (t : StatsigResult InitializeResponse). t.value) e)

  abbrev since : Option InitializeResponse → ℤ
  since none = pos 0
  since (some v) = if v.has_updates then v.time else pos 0

  -- The request asks for what changed since a time other than 0 only if the cached result is of a user
  -- with the same full hash, it parses, and its values are a full update; the time is then theirs.
  pub initialize_args-since_time :
      ⦃o : MapOrder⦄ (user : StatsigUser) (r : DataAdapterResult) (metadata : Dict String)
      → (initialize_args user (some r) metadata).since_time ≢ pos 0
      → (v : InitializeResponse) × (r.full_user_hash ≡ get_full_user_hash user)
        × (deserialize_response r.values_str ≡ succeed v)
        × (v.has_updates ≡ true)
        × ((initialize_args user (some r) metadata).since_time ≡ v.time)
  unfolding initialize_args
  initialize_args-since_time user r metadata h = elim (valid_for_204_cases user r) [
    | inl e ↦ absurd (h (ap since e))
    | inr (v, same, parsed, e) ↦ elim (Bool-cases v.has_updates) [
      | inl full ↦ (v, same, parsed, full, ap since e ∙ rw full refl)
      | inr old ↦ absurd (h (ap since e ∙ rw old refl))
    ]
  ]

-- A failed request is reported to the error boundary exactly for a status of 500 or more, under the
-- text NetworkError_ and the status; a status below, as 4xx or the -1 of a failed connection, is
-- not, and only has the name of its code.
get_status_code_err-reportable :
    (r : HttpResponse)
    → let extra = get_status_code_err (some r) in
      let is_low = ltb_ℤ r.status (pos 500) in
      (reportable network_failure_bad_status_code extra ≡ not is_low)
      × (error_from_result_code network_failure_bad_status_code extra ≡ (
          if is_low
          then "NetworkFailureBadStatusCode"
          else concat "NetworkError_" (to_string_ℤ r.status)))
unfolding get_status_code_err reportable error_from_result_code
get_status_code_err-reportable r =
    go (ltb_ℤ r.status (pos 500)) (concat "NetworkError_" (to_string_ℤ r.status))
  where
    go :
        (is_low : Bool) (text : String)
        → let extra : Option (Dict String) =
            if is_low then none else some ((bad_network_err, text) ∷ []) in
          (reportable network_failure_bad_status_code extra ≡ not is_low)
          × (error_from_result_code network_failure_bad_status_code extra
              ≡ (if is_low then "NetworkFailureBadStatusCode" else text))
    go true text = (refl, refl)
    go false text = (refl, refl)

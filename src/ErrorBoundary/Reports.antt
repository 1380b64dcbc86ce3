-- ===== src/ErrorBoundary/Reports.antt =====
-- Which results are reported, and how often.
use cpp_client_sdk.Dict.{Dict, opt_map_get_or_null}
use cpp_client_sdk.ErrorBoundary.{
  ErrorBoundary, error_from_result_code, log_error, handle_bad_result, TaskOutcome, returned, threw,
  capture,
}
use cpp_client_sdk.Http.{HttpRequest, bad_network_err, shutdown_timeout_extra}
use cpp_client_sdk.Json.ErrorArgs.{serialize_error_args}
use cpp_client_sdk.JsonLib.{JsonLib}
use cpp_client_sdk.Prelude.{
  ℕ, String, ◌≡◌, refl, ◌≢◌, Bool, true, false, ◌&&◌, Option, none, some, List, [], ◌∷◌, arith,
  if◌then◌else◌, has_value,
}
use cpp_client_sdk.Result.{
  StatsigResultCode, code_ok, unexpected_error, invalid_sdk_key, network_failure_bad_status_code,
  client_uninitialized, shutdown_failure_dangling_threads, shared_pointer_lost, succeed,
}

-- The codes that count as bad results, with what they need in `extra`.
unfoldable pub reportable : StatsigResultCode → Option (Dict String) → Bool
unfolding opt_map_get_or_null
reportable code_ok extra = false
reportable invalid_sdk_key extra = false
reportable client_uninitialized extra = false
reportable shared_pointer_lost extra = false
reportable shutdown_failure_dangling_threads extra =
    has_value (opt_map_get_or_null extra shutdown_timeout_extra)
reportable network_failure_bad_status_code extra =
    has_value (opt_map_get_or_null extra bad_network_err)
reportable _ extra = true

-- Every error of the list is different.
abbrev pub Unseen : String → List String → Type 0
Unseen e [] = Unit
Unseen e (s ∷ ss) = (s ≢ e) × Unseen e ss

abbrev pub IsDistinct : List String → Type 0
IsDistinct [] = Unit
IsDistinct (s ∷ ss) = Unseen s ss × IsDistinct ss

module _ ⦃J : JsonLib⦄ (eb_api : String) (trace : List String) where
  -- A result that is not reportable changes nothing and answers false. A reportable one answers
  -- true; its error text is the NetworkError text of `extra` or else the code's name, and it is
  -- logged: reported and remembered if it was not seen before, and otherwise left.
  handle_bad_result-reportable :
      (eb : ErrorBoundary) (tag : String) (code : StatsigResultCode) (extra : Option (Dict String))
      → handle_bad_result eb_api trace eb tag code extra ≡ (
          if reportable code extra
          then (let logged =
                log_error eb_api trace eb tag (error_from_result_code code extra) extra in
              (true, logged.0, logged.1))
          else (false, eb, none))
  unfolding handle_bad_result reportable
  handle_bad_result-reportable eb tag shutdown_failure_dangling_threads extra = ground arith
  handle_bad_result-reportable eb tag network_failure_bad_status_code extra = ground arith
  handle_bad_result-reportable eb tag code_ok extra = refl
  handle_bad_result-reportable eb tag _ extra = refl

  -- A history of bad results, each with its tag, code and extra; the requests in order.
  pub handle_all :
      ErrorBoundary
      → List (String × StatsigResultCode × Option (Dict String))
      → ErrorBoundary × List HttpRequest
  handle_all eb [] = (eb, [])
  handle_all eb ((tag, code, extra) ∷ rest) =
      let (bad, eb', request) = handle_bad_result eb_api trace eb tag code extra in
      let (last, requests) = handle_all eb' rest in
      (last, (elim request [ none ↦ requests | some r ↦ r ∷ requests ]))

  -- The JSON library can print what is reported of a call.
  abbrev pub CanReport : String × StatsigResultCode × Option (Dict String) → Type 0
  CanReport (tag, code, extra) =
      (text : String) × (serialize_error_args (record {
        tag = tag;
        exception = error_from_result_code code extra;
        info = trace;
        extra = extra;
      })
        ≡ some (succeed text))

  abbrev request_count : Option HttpRequest → ℕ
  request_count none = 0
  request_count (some r) = 1

  -- Capture returns the code of its task, or UnexpectedError if the task threw, and calls the recover
  -- function exactly when there is one and the task threw or returned a code that is reportable with
  -- no extra data.
  capture-recovered :
      (eb : ErrorBoundary) (tag : String) (outcome : TaskOutcome) (has_recover : Bool)
      → let c = capture eb_api trace eb tag outcome has_recover in
        (c.code ≡ (elim outcome [ threw w ↦ unexpected_error | returned code ↦ code ]))
        × (c.recovered ≡ (
            if has_recover
              && (elim outcome [ threw w ↦ true | returned code ↦ reportable code none ])
            then some c.code
            else none))
  unfolding capture
  capture-recovered eb tag (threw w) r = ground arith
  capture-recovered eb tag (returned code) r =
      ground (arith, handle_bad_result-reportable eb tag code none)

  -- A task that returns Ok is not reported.
  pub capture_ok :
      (eb : ErrorBoundary) (tag : String)
      → capture eb_api trace eb tag (returned code_ok) false
        ≡ record { code = code_ok; boundary = eb; report = none; recovered = none }
  unfolding capture
  capture_ok eb tag = refl

  -- Nor is a task that returns ShutdownFailureDanglingThreads: Capture has no extra data for it.
  pub capture_dangling :
      (eb : ErrorBoundary) (tag : String)
      → capture eb_api trace eb tag (returned shutdown_failure_dangling_threads) false ≡ record {
        code = shutdown_failure_dangling_threads;
        boundary = eb;
        report = none;
        recovered = none;
      }
  unfolding capture
  capture_dangling eb tag = refl

-- ===== src/ErrorBoundary.antt =====
-- src/statsig/internal/error_boundary.hpp: what becomes of a bad result and of an exception. The
-- stack trace that LogError takes is an argument, and the request that it hands to the background is a
-- result; GetStackTrace makes the trace from what the C library gives.
pub mod Reports
use cpp_client_sdk.Dict.{Dict, opt_map_get_or_null}
use cpp_client_sdk.Http.{
  HttpRequest, sdk_type, sdk_version, bad_network_err, shutdown_timeout_extra,
}
use cpp_client_sdk.Json.ErrorArgs.{serialize_error_args}
use cpp_client_sdk.JsonLib.{JsonLib, ◌>>=◌}
use cpp_client_sdk.Prelude.{
  ℕ, zero, suc, ◌≤◌, String, ◌≡◌, refl, inl, inr, Bool, true, false, ◌&&◌, ◌||◌, not, Option, none,
  some, List, [], ◌∷◌, ◌++◌, arith, if◌then◌else◌, Option-cases, has_value, length, length-append,
}
use cpp_client_sdk.Result.{
  StatsigResultCode, code_ok, unexpected_error, invalid_sdk_key, network_failure_bad_status_code,
  client_uninitialized, shutdown_failure_dangling_threads, shared_pointer_lost, code_eq,
  result_code_to_string,
}
use cpp_client_sdk.Text.{str_eq}

pub record ErrorBoundary : Type 0 where
  pub sdk_key : String
  pub seen : List String

-- ErrorBoundary(sdk_key).
abbrev pub new_boundary : String → ErrorBoundary
new_boundary key = record { sdk_key = key; seen = [] }

-- `seen_.find(error) != seen_.end()`.
pub is_seen : String → List String → Bool
is_seen e [] = false
is_seen e (s ∷ ss) = str_eq s e || is_seen e ss

unfoldable pub error_from_result_code : StatsigResultCode → Option (Dict String) → String
unfolding opt_map_get_or_null result_code_to_string
error_from_result_code code extra = elim (opt_map_get_or_null extra bad_network_err) [
  | some custom ↦ custom
  | none ↦ result_code_to_string code
]

-- trace.emplace_back(symbols[i]), for the frames before `n`.
emplace_symbols : (ℕ → String) → ℕ → List String
emplace_symbols symbols zero = []
emplace_symbols symbols (suc n) = emplace_symbols symbols n ++ symbols n ∷ []

-- GetStackTrace: `backtrace` says how many frames there are, up to a maximum, and `symbols` gives
-- their texts or a null pointer; on another system than Unix the trace is empty.
pub get_stack_trace : Bool → (ℕ → ℕ) → (ℕ → Option (ℕ → String)) → List String
unfolding emplace_symbols
get_stack_trace is_unix backtrace symbols =
    let stack_size = backtrace 128 in
    let frames : List String = elim (symbols stack_size) [
      | none ↦ []
      | some texts ↦ emplace_symbols texts stack_size
    ] in
    if is_unix then frames else []

length-emplace_symbols : (symbols : ℕ → String) (n : ℕ) → length (emplace_symbols symbols n) ≡ n
unfolding emplace_symbols
length-emplace_symbols symbols zero = refl
length-emplace_symbols symbols (suc n) = omega (
  arith,
  length-append (emplace_symbols symbols n) (symbols n ∷ []),
  length-emplace_symbols symbols n,
)

-- A trace has no more texts than the library was asked for.
get_stack_trace-bound :
    (is_unix : Bool) (backtrace : ℕ → ℕ) (symbols : ℕ → Option (ℕ → String))
    → ((max : ℕ) → backtrace max ≤ max)
    → length (get_stack_trace is_unix backtrace symbols) ≤ 128
unfolding get_stack_trace
get_stack_trace-bound is_unix backtrace symbols within =
    elim (Option-cases (symbols (backtrace 128))) [
      | inl e ↦ rw e (ground arith)
      | inr (texts, e) ↦
          rw e (ground (arith, within 128, length-emplace_symbols texts (backtrace 128)))
    ]

module _ ⦃J : JsonLib⦄ (eb_api : String) (trace : List String) where
  -- The request of LogError; an exception of the serializer is caught, and nothing is sent.
  error_request : ErrorBoundary → String → String → Option (Dict String) → Option HttpRequest
  unfolding serialize_error_args
  error_request eb tag error extra =
      serialize_error_args (record { tag = tag; exception = error; info = trace; extra = extra })
      >>= λ serialized.
          if not (code_eq serialized.code code_ok)
          then none
          else serialized.value >>= λ body. some (record {
            api = eb_api;
            path = "/v1/sdk_exception";
            headers =
                ("STATSIG-API-KEY", eb.sdk_key)
                ∷ ("STATSIG-SDK-TYPE", sdk_type)
                ∷ ("STATSIG-SDK-VERSION", sdk_version)
                ∷ [];
            body = body;
          })

  -- An error is reported the first time it is seen.
  pub log_error :
      ErrorBoundary → String → String → Option (Dict String) → ErrorBoundary × Option HttpRequest
  unfolding error_request is_seen
  log_error eb tag error extra =
      if is_seen error eb.seen
      then (eb, none)
      else (record eb { seen = error ∷ eb.seen }, error_request eb tag error extra)

  abbrev is_ignored : StatsigResultCode → Bool
  is_ignored code =
      code_eq code code_ok
      || code_eq code client_uninitialized
      || code_eq code invalid_sdk_key
      || code_eq code shared_pointer_lost

  pub handle_bad_result :
      ErrorBoundary
      → String
      → StatsigResultCode
      → Option (Dict String)
      → Bool × ErrorBoundary × Option HttpRequest
  unfolding log_error error_from_result_code opt_map_get_or_null
  handle_bad_result eb tag code extra =
      if is_ignored code
      then (false, eb, none)
      else if code_eq code shutdown_failure_dangling_threads
          && not (has_value (opt_map_get_or_null extra shutdown_timeout_extra))
      then (false, eb, none)
      else if code_eq code network_failure_bad_status_code
          && not (has_value (opt_map_get_or_null extra bad_network_err))
      then (false, eb, none)
      else let (eb', request) = log_error eb tag (error_from_result_code code extra) extra in
        (true, eb', request)

-- How a task ends.
pub data TaskOutcome : Type 0 where
  returned : StatsigResultCode → TaskOutcome
  threw : String → TaskOutcome

-- What Capture does after its task: the code that it returns, the boundary, the report, and the code
-- that it hands to the recover function, if it calls one.
pub record Captured : Type 0 where
  pub code : StatsigResultCode
  pub boundary : ErrorBoundary
  pub report : Option HttpRequest
  pub recovered : Option StatsigResultCode

module _ ⦃J : JsonLib⦄ (eb_api : String) (trace : List String) where
  -- `eb` is the boundary as the task left it.
  pub capture : ErrorBoundary → String → TaskOutcome → Bool → Captured
  unfolding handle_bad_result log_error
  capture eb tag (threw what) has_recover =
      let (eb', request) = log_error eb_api trace eb tag what none in
      record {
        code = unexpected_error;
        boundary = eb';
        report = request;
        recovered = if has_recover then some unexpected_error else none;
      }
  capture eb tag (returned code) has_recover =
      let (bad, eb', request) = handle_bad_result eb_api trace eb tag code none in
      record {
        code = code;
        boundary = eb';
        report = request;
        recovered = if bad && has_recover then some code else none;
      }

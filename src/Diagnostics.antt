-- ===== src/Diagnostics.antt =====
-- src/statsig/internal/diagnostics.hpp and diagnostic_markers.hpp: the timing markers of an
-- initialization, sent as one event. Mark, SetUser and AppendEvent hold the mutex throughout, so each
-- is one step; a vector that is moved from is empty. `now` is what Time::now() returns.
pub mod Bounds
use cpp_client_sdk.Dict.{Dict}
use cpp_client_sdk.Evaluation.{EvaluationDetails}
use cpp_client_sdk.Event.{StatsigEventInternal}
use cpp_client_sdk.Http.{is_success_status}
use cpp_client_sdk.JsonLib.{JsonLib}
use cpp_client_sdk.Prelude.{
  ℕ, String, Bool, Option, none, some, List, [], ◌∷◌, ◌++◌, ltb, if◌then◌else◌, length, ℤ, pos,
  ltb_ℤ,
}
use cpp_client_sdk.Result.{StatsigResultCode, code_ok, code_eq, result_code_to_string}
use cpp_client_sdk.Text.{str_length, substr, str_eq}
use cpp_client_sdk.User.{StatsigUser, empty_user}

-- constants::kMaxDiagnosticsMarkers.
abbrev pub max_diagnostics_markers : ℕ
max_diagnostics_markers = 30

module _ ⦃J : JsonLib⦄ where
  open J use {
    Value, Ordered, of_string, of_int, of_bool, of_array, of_map, ordered_empty, ordered_set,
    of_ordered,
  }

  -- markers::Base and AddValue.
  base_marker : ℤ → String → String → Option String → Ordered
  base_marker now action key step =
      let j =
        ordered_set
          (ordered_set (ordered_set ordered_empty "action" (of_string action)) "key"
            (of_string key))
          "timestamp" (of_int now) in
      elim step [ none ↦ j | some s ↦ ordered_set j "step" (of_string s) ]

  -- Snippet: the first 100 bytes.
  pub snippet : String → String
  snippet str = if ltb 100 (str_length str) then substr str 100 else str

  -- {"name": text, "message": text}.
  error_data : String → Value
  error_data text = of_map (("name", of_string text) ∷ ("message", of_string text) ∷ [])

  pub overall_start : ℤ → Ordered
  unfolding base_marker
  overall_start now = base_marker now "start" "overall" none

  pub overall_end : ℤ → StatsigResultCode → EvaluationDetails → Ordered
  unfolding base_marker error_data
  overall_end now code details =
      let is_ok = code_eq code code_ok in
      let reason : String × Value = ("reason", of_string details.reason) in
      let times : Dict Value =
        ("lcut", of_int details.lcut) ∷ ("receivedAt", of_int details.received_at) ∷ [] in
      let eval : Dict Value =
        if str_eq details.reason "NoValues" then reason ∷ [] else reason ∷ times in
      let j =
        ordered_set (ordered_set (base_marker now "end" "overall" none) "success" (of_bool is_ok))
          "evaluationDetails" (of_map eval) in
      if is_ok then j else ordered_set j "error" (error_data (result_code_to_string code))

  network_base : ℤ → String → ℤ → String → Ordered
  network_base now action attempt key =
      ordered_set (base_marker now action key (some "network_request")) "attempt" (of_int attempt)

  pub network_start : ℤ → ℤ → Ordered
  unfolding network_base
  network_start now attempt = network_base now "start" attempt "initialize"

  pub network_end : ℤ → ℤ → ℤ → String → String → Option String → Ordered
  unfolding network_base error_data snippet
  network_end now attempt status response_text sdk_region error =
      let is_success = is_success_status status in
      let start =
        ordered_set (network_base now "end" attempt "initialize") "success" (of_bool is_success) in
      let with_code =
        if ltb_ℤ (pos 0) status then ordered_set start "statusCode" (of_int status) else start in
      let with_region =
        if str_eq sdk_region ""
        then with_code
        else ordered_set with_code "sdkRegion" (of_string sdk_region) in
      elim error [
        | some err ↦ ordered_set with_region "error" (error_data err)
        | none ↦
            if is_success
            then with_region
            else ordered_set with_region "error" (error_data (snippet response_text))
      ]

  pub process_start : ℤ → Ordered
  unfolding base_marker
  process_start now = base_marker now "start" "initialize" (some "process")

  pub process_end : ℤ → Bool → Ordered
  unfolding base_marker
  process_end now is_successful =
      ordered_set (base_marker now "end" "initialize" (some "process")) "success"
        (of_bool is_successful)

  pub record Diagnostics : Type 0 where
    pub markers : List Value
    pub user : StatsigUser

  abbrev pub new_diagnostics : Diagnostics
  new_diagnostics = record { markers = []; user = empty_user }

  unfoldable pub set_user : Diagnostics → StatsigUser → Diagnostics
  set_user d user = record d { user = user }

  unfoldable pub mark : Diagnostics → Ordered → Diagnostics
  mark d marker =
      if ltb max_diagnostics_markers (length d.markers)
      then d
      else record d { markers = d.markers ++ of_ordered marker ∷ [] }

  unfoldable pub diagnostics_event : ℤ → Diagnostics → StatsigEventInternal
  diagnostics_event now d = record {
    event_name = "statsig::diagnostics";
    time = now;
    user = d.user;
    string_value = none;
    double_value = none;
    metadata = some (("markers", of_array d.markers) ∷ ("context", of_string "initialize") ∷ []);
    secondary_exposures = none;
  }

  unfoldable pub append_event :
      ℤ → Diagnostics → List StatsigEventInternal → Diagnostics × List StatsigEventInternal
  append_event now d events = elim d.markers [
    | [] ↦ (d, events)
    | m ∷ ms ↦ (record d { markers = [] }, events ++ diagnostics_event now d ∷ [])
  ]

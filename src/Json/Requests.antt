-- ===== src/Json/Requests.antt =====
-- What the program sends and keeps besides users: initialize_request_args_json.hpp,
-- statsig_event_json.hpp, log_event_request_args_json.hpp, log_event_response_json.hpp,
-- retryable_event_payload_json.hpp and data_adapter_result_json.hpp of
-- src/statsig_compat/json_serialization.
pub mod RoundTrip
pub mod Payloads
use cpp_client_sdk.Details.{
  ValueSource, uninitialized, loading, no_values, cache, network, network_not_modified, bootstrap,
  out_of_range, DataAdapterResult,
}
use cpp_client_sdk.Dict.{Dict}
use cpp_client_sdk.Event.{StatsigEventInternal, RetryableEventPayload}
use cpp_client_sdk.Json.ErrorArgs.{json_of_strings}
use cpp_client_sdk.Json.User.{user_to_json, user_from_json}
use cpp_client_sdk.JsonLib.{JsonLib, ◌>>=◌, traverse, value_or_initial, get_string_maps}
use cpp_client_sdk.Prelude.{
  zero, suc, String, Bool, Option, none, some, List, [], ◌∷◌, map, if◌then◌else◌, ℤ, pos,
}
use cpp_client_sdk.Result.{
  code_ok, json_failure_data_adapter_result, json_failure_log_event_request_args,
  json_failure_retryable_event_payload, StatsigResult, succeed, fail,
}
use cpp_client_sdk.User.{StatsigUser, empty_user}

-- LogEventResponse.
pub record LogEventResponse : Type 0 where
  pub success : Bool

-- The result of log_event_response::Deserialize is Ok with no value, whatever the input.
unfoldable pub deserialize_log_event_response : String → StatsigResult LogEventResponse
deserialize_log_event_response input = record { code = code_ok; value = none; extra = none }

-- InitializeRequestArgs.
pub record InitializeRequestArgs : Type 0 where
  pub hash : String
  pub user : StatsigUser
  pub statsig_metadata : Dict String
  pub since_time : ℤ

-- The integer of a ValueSource and back.
unfoldable pub source_to_int : ValueSource → ℤ
source_to_int uninitialized = pos 0
source_to_int loading = pos 1
source_to_int no_values = pos 2
source_to_int cache = pos 3
source_to_int network = pos 4
source_to_int network_not_modified = pos 5
source_to_int bootstrap = pos 6
source_to_int (out_of_range n) = n

unfoldable pub source_of_int : ℤ → ValueSource
source_of_int (pos zero) = uninitialized
source_of_int (pos (suc zero)) = loading
source_of_int (pos (suc (suc zero))) = no_values
source_of_int (pos (suc (suc (suc zero)))) = cache
source_of_int (pos (suc (suc (suc (suc zero))))) = network
source_of_int (pos (suc (suc (suc (suc (suc zero)))))) = network_not_modified
source_of_int (pos (suc (suc (suc (suc (suc (suc zero))))))) = bootstrap
source_of_int n = out_of_range n

module _ ⦃J : JsonLib⦄ where
  open J use {
    Value, Double, null, of_string, of_int, of_double, of_array, of_map, set_key, is_object,
    is_array, is_string, is_number, contains, get_at, get_string, get_int, get_double, get_array,
    get_map, parse, dump,
  }

  unfoldable pub serialize_initialize_args : InitializeRequestArgs → Option (StatsigResult String)
  unfolding user_to_json
  serialize_initialize_args args =
      dump (
        of_map (
          ("hash", of_string args.hash)
          ∷ ("user", user_to_json args.user)
          ∷ ("statsigMetadata", json_of_strings args.statsig_metadata)
          ∷ ("sinceTime", of_int args.since_time)
          ∷ []))
      >>= λ text. some (succeed text)

  unfoldable pub event_to_json : StatsigEventInternal → Value
  unfolding user_to_json
  event_to_json event =
      let j = of_map (
        ("eventName", of_string event.event_name)
        ∷ ("time", of_int event.time)
        ∷ ("user", user_to_json event.user)
        ∷ []) in
      let with_metadata : Value = elim event.metadata [
        | none ↦ j
        | some m ↦ set_key j "metadata" (of_map m)
      ] in
      let with_exposures : Value = elim event.secondary_exposures [
        | none ↦ with_metadata
        | some es ↦ set_key with_metadata "secondaryExposures" (of_array (map json_of_strings es))
      ] in
      elim event.string_value [
        | some s ↦ set_key with_exposures "value" (of_string s)
        | none ↦ elim event.double_value [
          | some d ↦ set_key with_exposures "value" (of_double d)
          | none ↦ with_exposures
        ]
      ]

  -- `json.value(key, null_json)`: the value under the key, or null.
  pub value_or_null : Value → String → Option Value
  unfolding value_or_initial
  value_or_null j key = value_or_initial j key some null

  -- The members of an event that may be missing; one of another type counts as missing.
  pub user_member : Value → Option StatsigUser
  unfolding value_or_null user_from_json
  user_member j =
      value_or_null j "user" >>= λ v. if is_object v then user_from_json v else some empty_user

  pub metadata_member : Value → Option (Option (Dict Value))
  unfolding value_or_null
  metadata_member j = value_or_null j "metadata" >>= λ v.
      if is_object v then (get_map v >>= λ m. some (some m)) else some none

  pub exposures_member : Value → Option (Option (List (Dict String)))
  unfolding value_or_null get_string_maps
  exposures_member j = value_or_null j "secondary_exposures" >>= λ v.
      if is_array v then (get_string_maps v >>= λ es. some (some es)) else some none

  pub value_member : Value → Option (Option String × Option Double)
  unfolding value_or_null
  value_member j = value_or_null j "value" >>= λ v.
      if is_string v
      then (get_string v >>= λ s. some (some s, none))
      else if is_number v
      then (get_double v >>= λ d. some (none, some d))
      else some (none, none)

  unfoldable pub event_from_json : Value → Option StatsigEventInternal
  unfolding user_member metadata_member exposures_member value_member
  event_from_json j = do
    name_json ← get_at j "eventName"
    event_name ← get_string name_json
    time_json ← get_at j "time"
    time ← get_int time_json
    user ← user_member j
    metadata ← metadata_member j
    exposures ← exposures_member j
    value ← value_member j
    some (record {
      event_name = event_name;
      time = time;
      user = user;
      string_value = value.0;
      double_value = value.1;
      metadata = metadata;
      secondary_exposures = exposures;
    })

  -- LogEventRequestArgs is a list of events and the metadata.
  unfoldable pub serialize_log_event_args :
      List StatsigEventInternal → Dict String → Option (StatsigResult String)
  unfolding event_to_json
  serialize_log_event_args events [] = some (fail json_failure_log_event_request_args)
  serialize_log_event_args events (e ∷ es) =
      dump (
        of_map (
          ("events", of_array (map event_to_json events))
          ∷ ("statsigMetadata", json_of_strings (e ∷ es))
          ∷ []))
      >>= λ text. some (succeed text)

  unfoldable pub payload_to_json : RetryableEventPayload → Value
  unfolding event_to_json
  payload_to_json p =
      of_map
        (("attempts", of_int p.attempts) ∷ ("events", of_array (map event_to_json p.events)) ∷ [])

  pub payload_from_json : Value → Option RetryableEventPayload
  unfolding event_from_json traverse
  payload_from_json j = do
    attempts_json ← get_at j "attempts"
    attempts ← get_int attempts_json
    events_json ← get_at j "events"
    event_values ← get_array events_json
    events ← traverse event_from_json event_values
    some (record { attempts = attempts; events = events })

  unfoldable pub serialize_payloads : List RetryableEventPayload → Option (StatsigResult String)
  unfolding payload_to_json
  serialize_payloads failures =
      dump (of_array (map payload_to_json failures)) >>= λ text. some (succeed text)

  pub payloads_from_json : Value → Option (List RetryableEventPayload)
  unfolding payload_from_json traverse
  payloads_from_json j = get_array j >>= traverse payload_from_json

  unfoldable pub deserialize_payloads : String → StatsigResult (List RetryableEventPayload)
  unfolding payloads_from_json
  deserialize_payloads input = elim (parse input >>= payloads_from_json) [
    | none ↦ fail json_failure_retryable_event_payload
    | some failures ↦ succeed failures
  ]

  unfoldable pub data_adapter_result_to_json : DataAdapterResult → Value
  unfolding source_to_int
  data_adapter_result_to_json res = of_map (
      ("source", of_int (source_to_int res.source))
      ∷ ("data", of_string res.values_str)
      ∷ ("receivedAt", of_int res.received_at)
      ∷ ("fullUserHash", of_string res.full_user_hash)
      ∷ [])

  unfoldable pub serialize_data_adapter_result : DataAdapterResult → Option (StatsigResult String)
  unfolding data_adapter_result_to_json
  serialize_data_adapter_result res =
      dump (data_adapter_result_to_json res) >>= λ text. some (succeed text)

  unfoldable pub data_adapter_result_from_json : Value → Option DataAdapterResult
  unfolding source_of_int
  data_adapter_result_from_json j = do
    hash_json ← get_at j "fullUserHash"
    full_user_hash ← get_string hash_json
    received_json ← get_at j "receivedAt"
    received_at ← get_int received_json
    source_json ← get_at j "source"
    source ← get_int source_json
    data_json ← get_at j "data"
    values_str ← get_string data_json
    some (record {
      source = source_of_int source;
      values_str = values_str;
      received_at = received_at;
      full_user_hash = full_user_hash;
    })

  unfoldable pub deserialize_data_adapter_result : String → StatsigResult DataAdapterResult
  unfolding data_adapter_result_from_json
  deserialize_data_adapter_result input = elim (parse input >>= data_adapter_result_from_json) [
    | none ↦ fail json_failure_data_adapter_result
    | some res ↦ succeed res
  ]

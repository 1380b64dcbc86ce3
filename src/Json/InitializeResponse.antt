-- ===== src/Json/InitializeResponse.antt =====
-- src/statsig_compat/json_serialization/initialize_response_json.hpp.
use cpp_client_sdk.Evaluation.{
  GateEvaluation, ConfigEvaluation, LayerEvaluation, InitializeResponse,
}
use cpp_client_sdk.JsonLib.{JsonLib, ◌>>=◌, assign_entries, get_strings, get_string_maps}
use cpp_client_sdk.Prelude.{
  String, ◌≡◌, ap, ◌⊎◌, inl, inr, false, Option, none, some, [], if◌then◌else◌, Option-cases,
}
use cpp_client_sdk.Result.{json_failure_initialize_response, StatsigResult, succeed, fail}

module _ ⦃J : JsonLib⦄ where
  open J use {
    Value, ordered_null, to_ordered, contains, get_at, index, get_string, get_int, get_bool,
    get_map, parse,
  }

  -- `if (j.contains(key)) field = j[key].get<std::string>()`.
  unfoldable pub optional_string : Value → String → Option (Option String)
  optional_string j key =
      if contains j key then (do v ← index j key; s ← get_string v; some (some s)) else some none

  unfoldable pub gate_from_json : Value → Option GateEvaluation
  unfolding optional_string get_string_maps
  gate_from_json j = do
    name_json ← get_at j "name"
    name ← get_string name_json
    rule_json ← get_at j "rule_id"
    rule_id ← get_string rule_json
    exposures_json ← get_at j "secondary_exposures"
    exposures ← get_string_maps exposures_json
    value_json ← get_at j "value"
    value ← get_bool value_json
    id_type ← optional_string j "id_type"
    some (record {
      name = name;
      rule_id = rule_id;
      value = value;
      secondary_exposures = exposures;
      id_type = id_type;
    })

  unfoldable pub config_from_json : Value → Option ConfigEvaluation
  unfolding optional_string get_string_maps
  config_from_json j = do
    name_json ← get_at j "name"
    name ← get_string name_json
    rule_json ← get_at j "rule_id"
    rule_id ← get_string rule_json
    exposures_json ← get_at j "secondary_exposures"
    exposures ← get_string_maps exposures_json
    value ← index j "value"
    group_name ← optional_string j "group_name"
    some (record {
      name = name;
      rule_id = rule_id;
      value = to_ordered value;
      secondary_exposures = exposures;
      id_type = "";
      group_name = group_name;
      is_device_based = false;
      is_user_in_experiment = false;
      is_experiment_active = false;
    })

  unfoldable pub layer_from_json : Value → Option LayerEvaluation
  unfolding optional_string get_strings get_string_maps
  layer_from_json j = do
    name_json ← get_at j "name"
    name ← get_string name_json
    rule_json ← get_at j "rule_id"
    rule_id ← get_string rule_json
    exposures_json ← get_at j "secondary_exposures"
    exposures ← get_string_maps exposures_json
    value ← index j "value"
    explicit_json ← get_at j "explicit_parameters"
    explicit ← get_strings explicit_json
    undelegated_json ← get_at j "undelegated_secondary_exposures"
    undelegated ← get_string_maps undelegated_json
    group_name ← optional_string j "group_name"
    allocated ← optional_string j "allocated_experiment_name"
    some (record {
      config = record {
        name = name;
        rule_id = rule_id;
        value = to_ordered value;
        secondary_exposures = exposures;
        id_type = "";
        group_name = group_name;
        is_device_based = false;
        is_user_in_experiment = false;
        is_experiment_active = false;
      };
      allocated_experiment_name = allocated;
      explicit_parameters = explicit;
      undelegated_secondary_exposures = undelegated;
    })

  unfoldable pub response_from_json : Value → Option InitializeResponse
  unfolding assign_entries gate_from_json config_from_json layer_from_json
  response_from_json j = do
    time_json ← get_at j "time"
    time ← get_int time_json
    updates_json ← get_at j "has_updates"
    has_updates ← get_bool updates_json
    gates_json ← index j "feature_gates"
    gates ← get_map gates_json
    feature_gates ← assign_entries gate_from_json gates []
    configs_json ← index j "dynamic_configs"
    configs ← get_map configs_json
    dynamic_configs ← assign_entries config_from_json configs []
    layers_json ← index j "layer_configs"
    layers ← get_map layers_json
    layer_configs ← assign_entries layer_from_json layers []
    some (record {
      time = time;
      has_updates = has_updates;
      feature_gates = feature_gates;
      dynamic_configs = dynamic_configs;
      layer_configs = layer_configs;
    })

  -- try { return {Ok, response}; } catch (std::exception &) { return {JsonFailure...}; }
  outcome : Option InitializeResponse → StatsigResult InitializeResponse
  outcome none = fail json_failure_initialize_response
  outcome (some response) = succeed response

  -- An exception of the parse or of a conversion becomes the failure code.
  unfoldable pub deserialize_response : String → StatsigResult InitializeResponse
  unfolding response_from_json outcome
  deserialize_response input = outcome (parse input >>= response_from_json)

  -- The result of parsing a response is a value under the code Ok, or the failure code alone.
  pub deserialize_response_cases :
      (input : String)
      → (deserialize_response input ≡ fail json_failure_initialize_response)
        ⊎ ((r : InitializeResponse) × (deserialize_response input ≡ succeed r))
  unfolding deserialize_response
  deserialize_response_cases input = elim (Option-cases (parse input >>= response_from_json)) [
    | inl e ↦ inl (ap outcome e)
    | inr (r, e) ↦ inr (r, ap outcome e)
  ]

-- ===== src/Event.antt =====
-- src/statsig/statsig_event.h and src/statsig/internal/statsig_event_internal.hpp: logged events and
-- exposures. `now` is what Time::now() returns.
pub mod Exposures
use cpp_client_sdk.Dict.{Dict, assign}
use cpp_client_sdk.Evaluation.{
  SecondaryExposure, GateEvaluation, EvaluationDetails, DetailedEvaluation, ConfigEvaluation,
  LayerEvaluation,
}
use cpp_client_sdk.JsonLib.{JsonLib}
use cpp_client_sdk.Prelude.{
  String, Bool, false, ◌||◌, Option, none, some, List, [], ◌∷◌, if◌then◌else◌, value_or, ℤ,
}
use cpp_client_sdk.Text.{str_eq}
use cpp_client_sdk.User.{StatsigUser}

module _ ⦃J : JsonLib⦄ where
  open J use {Value, Double, of_string, of_int}

  pub record StatsigEvent : Type 0 where
    pub event_name : String
    pub time : Option ℤ
    pub string_value : Option String
    pub double_value : Option Double
    pub metadata : Option (Dict String)

  pub record StatsigEventInternal : Type 0 where
    pub event_name : String
    pub time : ℤ
    pub user : StatsigUser
    pub string_value : Option String
    pub double_value : Option Double
    pub metadata : Option (Dict Value)
    pub secondary_exposures : Option (List SecondaryExposure)

  -- `attempts` is an int of the code, which counts up to 4 in what the SDK writes itself; its overflow
  -- for a count that a file holds is not modelled.
  pub record RetryableEventPayload : Type 0 where
    pub attempts : ℤ
    pub events : List StatsigEventInternal

  -- `result[pair.first] = pair.second` for each pair, as in StringMapToJsonValueMap.
  unfoldable pub string_map_to_json : Dict String → Dict Value → Dict Value
  unfolding assign
  string_map_to_json [] result = result
  string_map_to_json ((k, v) ∷ m) result = string_map_to_json m (assign k (of_string v) result)

  unfoldable pub internalize_event : ℤ → StatsigEvent → StatsigUser → StatsigEventInternal
  unfolding string_map_to_json
  internalize_event now event user = record {
    event_name = event.event_name;
    time = value_or event.time now;
    user = user;
    string_value = event.string_value;
    double_value = event.double_value;
    metadata = elim event.metadata [ none ↦ none | some m ↦ some (string_map_to_json m []) ];
    secondary_exposures = none;
  }

  -- `exposures` is the optional last parameter, `own` the exposures of the evaluation, empty if there
  -- is none.
  unfoldable pub make_exposure_event :
      ℤ
      → String
      → StatsigUser
      → List SecondaryExposure
      → EvaluationDetails
      → Dict Value
      → Option (List SecondaryExposure)
      → StatsigEventInternal
  unfolding assign
  make_exposure_event now event_name user own details metadata exposures = record {
    event_name = event_name;
    time = now;
    user = user;
    string_value = none;
    double_value = none;
    metadata = some (
        assign "receivedAt" (of_int details.received_at) (
          assign "lcut" (of_int details.lcut)
            (assign "reason" (of_string details.reason) metadata)));
    secondary_exposures = some (value_or exposures own);
  }

  abbrev bool_text : Bool → String
  bool_text b = if b then "true" else "false"

  unfoldable pub make_gate_exposure :
      ℤ → String → StatsigUser → DetailedEvaluation GateEvaluation → StatsigEventInternal
  unfolding make_exposure_event string_map_to_json
  make_gate_exposure now gate_name user detailed =
      let value : Bool = elim detailed.evaluation [ none ↦ false | some e ↦ e.value ] in
      let rule_id : String = elim detailed.evaluation [ none ↦ "" | some e ↦ e.rule_id ] in
      let own : List SecondaryExposure = elim detailed.evaluation [
        | none ↦ []
        | some e ↦ e.secondary_exposures
      ] in
      make_exposure_event now "statsig::gate_exposure" user own detailed.details
        (string_map_to_json
          (("gate", gate_name) ∷ ("gateValue", bool_text value) ∷ ("ruleID", rule_id) ∷ []) [])
        none

  unfoldable pub make_config_exposure :
      ℤ → String → StatsigUser → DetailedEvaluation ConfigEvaluation → StatsigEventInternal
  unfolding make_exposure_event string_map_to_json
  make_config_exposure now config_name user detailed =
      let rule_id : String = elim detailed.evaluation [ none ↦ "" | some e ↦ e.rule_id ] in
      let own : List SecondaryExposure = elim detailed.evaluation [
        | none ↦ []
        | some e ↦ e.secondary_exposures
      ] in
      make_exposure_event now "statsig::config_exposure" user own detailed.details
        (string_map_to_json (("config", config_name) ∷ ("ruleID", rule_id) ∷ []) []) none

  -- std::find over the explicit parameters.
  pub contains_param : List String → String → Bool
  contains_param [] p = false
  contains_param (q ∷ qs) p = str_eq q p || contains_param qs p

  unfoldable pub make_layer_param_exposure :
      ℤ → String → String → StatsigUser → DetailedEvaluation LayerEvaluation → StatsigEventInternal
  unfolding make_exposure_event string_map_to_json
  make_layer_param_exposure now layer_name param_name user detailed =
      let rule_id : String = elim detailed.evaluation [ none ↦ "" | some e ↦ e.rule_id ] in
      let explicit_params : List String = elim detailed.evaluation [
        | none ↦ []
        | some e ↦ e.explicit_parameters
      ] in
      let is_explicit = contains_param explicit_params param_name in
      let undelegated : List SecondaryExposure = elim detailed.evaluation [
        | none ↦ []
        | some e ↦ e.undelegated_secondary_exposures
      ] in
      let own : List SecondaryExposure = elim detailed.evaluation [
        | none ↦ []
        | some e ↦ e.secondary_exposures
      ] in
      let experiment : Option String = elim detailed.evaluation [
        | none ↦ none
        | some e ↦ e.allocated_experiment_name
      ] in
      let allocated = if is_explicit then experiment else none in
      let exposures = if is_explicit then own else undelegated in
      make_exposure_event now "statsig::layer_exposure" user own detailed.details
        (string_map_to_json
          (("config", layer_name)
            ∷ ("ruleID", rule_id)
            ∷ ("parameterName", param_name)
            ∷ ("isExplicitParameter", bool_text is_explicit)
            ∷ ("allocatedExperiment", value_or allocated "")
            ∷ [])
          [])
        (some exposures)

-- ===== src/Store.antt =====
-- src/statsig/internal/evaluation_store.hpp: the values in use and where they came from. Each method
-- holds the store's lock from its first access to its last, so it is one step.
pub mod Lifecycle
pub mod Lookup
use cpp_client_sdk.Details.{
  uninitialized, loading, no_values, get_value_source_string, SourceInfo,
  unrecognized_from_source_info, recognized_from_source_info, DataAdapterResult,
}
use cpp_client_sdk.Dict.{Dict, find, map_contains}
use cpp_client_sdk.Evaluation.{
  GateEvaluation, EvaluationDetails, DetailedEvaluation, ConfigEvaluation, LayerEvaluation,
  InitializeResponse,
}
use cpp_client_sdk.Hashing.{djb2}
use cpp_client_sdk.Json.InitializeResponse.{deserialize_response}
use cpp_client_sdk.JsonLib.{JsonLib}
use cpp_client_sdk.Prelude.{String, Option, none, some, if◌then◌else◌, has_value, pos}
use cpp_client_sdk.Result.{StatsigResultCode, code_ok, code_eq}

module _ ⦃J : JsonLib⦄ where
  pub record EvaluationStore : Type 0 where
    pub values : Option InitializeResponse
    pub source_info : SourceInfo

  -- EvaluationStore().
  abbrev pub new_store : EvaluationStore
  new_store = record {
    values = none;
    source_info = record { source = uninitialized; lcut = pos 0; received_at = pos 0 };
  }

  pub reset : EvaluationStore → EvaluationStore
  reset s = record {
    values = none;
    source_info = record { source = loading; lcut = pos 0; received_at = pos 0 };
  }

  pub finalize : EvaluationStore → EvaluationStore
  finalize s = if has_value s.values then s else record s {
    source_info = record { source = no_values; lcut = pos 0; received_at = pos 0 };
  }

  pub get_source_details : EvaluationStore → EvaluationDetails
  get_source_details s = record {
    reason = get_value_source_string s.source_info.source;
    lcut = s.source_info.lcut;
    received_at = s.source_info.received_at;
  }

  -- The assignments after a parse that returned Ok; `values_->time` is read from the new values.
  store_values : DataAdapterResult → Option InitializeResponse → EvaluationStore → EvaluationStore
  store_values result none s = record s { values = none }
  store_values result (some v) s = record {
    values = some v;
    source_info = record {
      source = result.source;
      lcut = v.time;
      received_at = result.received_at;
    };
  }

  pub set_values_from_data_adapter_result :
      EvaluationStore → Option DataAdapterResult → EvaluationStore × StatsigResultCode
  unfolding store_values
  set_values_from_data_adapter_result s none = (s, code_ok)
  set_values_from_data_adapter_result s (some result) =
      let parsed = deserialize_response result.values_str in
      if code_eq parsed.code code_ok
      then (store_values result parsed.value s, code_ok)
      else (s, parsed.code)

  -- The lookup that GetGate, GetConfig and GetLayer share: a hit needs values that hold the hash.
  lookup_evaluation {ℓ} :
      {A : Type ℓ} → (InitializeResponse → Dict A) → EvaluationStore → String → DetailedEvaluation A
  lookup_evaluation table s name = elim s.values [
    | none ↦ record { evaluation = none; details = unrecognized_from_source_info s.source_info }
    | some v ↦
        if map_contains (table v) (djb2 name)
        then record {
          evaluation = find (djb2 name) (table v);
          details = recognized_from_source_info s.source_info;
        }
        else record { evaluation = none; details = unrecognized_from_source_info s.source_info }
  ]

  pub get_gate : EvaluationStore → String → DetailedEvaluation GateEvaluation
  unfolding lookup_evaluation
  get_gate = lookup_evaluation (λ v. v.feature_gates)

  pub get_config : EvaluationStore → String → DetailedEvaluation ConfigEvaluation
  unfolding lookup_evaluation
  get_config = lookup_evaluation (λ v. v.dynamic_configs)

  pub get_layer : EvaluationStore → String → DetailedEvaluation LayerEvaluation
  unfolding lookup_evaluation
  get_layer = lookup_evaluation (λ v. v.layer_configs)

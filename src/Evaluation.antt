-- ===== src/Evaluation.antt =====
-- src/statsig/internal/initialize_response.hpp, src/statsig/evaluation_details.h,
-- src/statsig/internal/detailed_evaluation.h: the evaluations that a response holds.
use cpp_client_sdk.Dict.{Dict}
use cpp_client_sdk.JsonLib.{JsonLib}
use cpp_client_sdk.Prelude.{String, Bool, false, Option, List, [], ℤ, pos}

abbrev pub SecondaryExposure : Type 0
SecondaryExposure = Dict String

pub record GateEvaluation : Type 0 where
  pub name : String
  pub rule_id : String
  pub value : Bool
  pub secondary_exposures : List SecondaryExposure
  pub id_type : Option String

pub record EvaluationDetails : Type 0 where
  pub reason : String
  pub lcut : ℤ
  pub received_at : ℤ

pub record DetailedEvaluation {ℓ} (A : Type ℓ) : Type ℓ where
  pub evaluation : Option A
  pub details : EvaluationDetails

module _ ⦃J : JsonLib⦄ where
  open J use {Value, Ordered, ordered_null}

  pub record ConfigEvaluation : Type 0 where
    pub name : String
    pub rule_id : String
    pub value : Ordered
    pub secondary_exposures : List SecondaryExposure
    pub id_type : String
    pub group_name : Option String
    pub is_device_based : Bool
    pub is_user_in_experiment : Bool
    pub is_experiment_active : Bool

  pub record LayerEvaluation : Type 0 where
    pub config : ConfigEvaluation
    pub open config use *
    pub allocated_experiment_name : Option String
    pub explicit_parameters : List String
    pub undelegated_secondary_exposures : List SecondaryExposure

  pub record InitializeResponse : Type 0 where
    pub time : ℤ
    pub has_updates : Bool
    pub feature_gates : Dict GateEvaluation
    pub dynamic_configs : Dict ConfigEvaluation
    pub layer_configs : Dict LayerEvaluation

  -- InitializeResponse().
  abbrev pub empty_response : InitializeResponse
  empty_response = record {
    time = pos 0;
    has_updates = false;
    feature_gates = [];
    dynamic_configs = [];
    layer_configs = [];
  }

-- ===== src/Client/Layers.antt =====
-- GetLayer of src/statsig/internal/statsig_client.cpp, and what src/statsig/internal/statsig_types.cpp
-- reads from a layer, a config and an experiment.
use cpp_client_sdk.Client.{StatsigContext, ensure_initialized, captured}
use cpp_client_sdk.Client.Configs.{ConfigSpec}
use cpp_client_sdk.Client.Updates.{captured-ok}
use cpp_client_sdk.Details.{uninitialized_details}
use cpp_client_sdk.Evaluation.{EvaluationDetails, DetailedEvaluation, LayerEvaluation}
use cpp_client_sdk.Event.{make_layer_param_exposure}
use cpp_client_sdk.EventLogger.{EventLogger, enqueue}
use cpp_client_sdk.EventLogger.Batches.{logged_only, all_events, enqueue-logged}
use cpp_client_sdk.JsonLib.{JsonLib}
use cpp_client_sdk.Prelude.{
  String, ◌≡◌, refl, ap, true, false, Option, none, some, List, [], ◌∷◌, ◌++◌, if◌then◌else◌, ℤ,
}
use cpp_client_sdk.Result.{code_ok}
use cpp_client_sdk.Store.{get_layer}
use cpp_client_sdk.User.{StatsigUser}

module _ ⦃J : JsonLib⦄ where
  -- GetSafeJsonObject, and EmptyJsonObject: the values of a config or an experiment.
  pub get_safe_json_object : J.Ordered → J.Ordered
  get_safe_json_object object = if J.ordered_is_null object then J.ordered_empty else object

  pub get_values : ConfigSpec → J.Ordered
  unfolding get_safe_json_object
  get_values spec = get_safe_json_object spec.value

  -- GetJsonValueFromJsonObject.
  pub get_json_value_from_json_object : String → J.Ordered → J.Value
  get_json_value_from_json_object key object =
      if J.ordered_is_object object then J.ordered_index object key else J.null

  -- What the lambda of GetLayer captures besides the weak pointer to the logger.
  pub record LogExposure : Type 0 where
    pub layer_name : String
    pub user : StatsigUser
    pub layer : DetailedEvaluation LayerEvaluation

  -- `log_param_exposure`: the lambda, or an empty std::function.
  pub record Layer : Type 0 where
    pub name : String
    pub rule_id : String
    pub group_name : Option String
    pub details : EvaluationDetails
    pub value : J.Ordered
    pub log_param_exposure : Option LogExposure

  -- Layer(layer_name, Uninitialized()).
  abbrev pub uninitialized_layer : String → Layer
  uninitialized_layer name = record {
    name = name;
    rule_id = "";
    group_name = none;
    details = uninitialized_details;
    value = J.ordered_null;
    log_param_exposure = none;
  }

  -- The lambda on the logger that its weak pointer gives, if that lives.
  pub log_exposure : ℤ → LogExposure → String → Option EventLogger → Option EventLogger
  log_exposure now captured param_name none = none
  log_exposure now captured param_name (some l) = some (
      enqueue now l
        (make_layer_param_exposure now captured.layer_name param_name captured.user captured.layer))

  -- Layer::GetValue: the logger after it and the value; `none` is the exception that the call of an
  -- empty std::function throws.
  pub get_layer_value :
      ℤ → String → Layer → Option EventLogger → Option (Option EventLogger × J.Value)
  unfolding log_exposure get_json_value_from_json_object
  get_layer_value now param_name layer logger = elim layer.log_param_exposure [
    | none ↦ none
    | some captured ↦ some (
      log_exposure now captured param_name logger,
      get_json_value_from_json_object param_name layer.value,
    )
  ]

  -- The layer that the task of GetLayer makes of an evaluation.
  pub evaluated_layer : String → StatsigUser → DetailedEvaluation LayerEvaluation → Layer
  evaluated_layer name user layer = record {
    name = name;
    rule_id = elim layer.evaluation [ none ↦ "" | some e ↦ e.rule_id ];
    group_name = elim layer.evaluation [ none ↦ none | some e ↦ e.group_name ];
    details = layer.details;
    value = elim layer.evaluation [ none ↦ J.ordered_null | some e ↦ e.value ];
    log_param_exposure = some (record { layer_name = name; user = user; layer = layer });
  }

  module _ (eb_api : String) (trace : List String) where
    -- GetLayer, whose task returns Ok.
    pub get_layer_spec : String → Option StatsigContext → Option StatsigContext × Layer
    unfolding captured ensure_initialized evaluated_layer
    get_layer_spec name none = (none, uninitialized_layer name)
    get_layer_spec name (some c) =
        let found = evaluated_layer name c.user (get_layer c.store name) in
        if ensure_initialized (some c)
        then (some (captured eb_api trace c "GetLayer" code_ok), found)
        else (some c, uninitialized_layer name)

    -- A layer of an initialized client logs nothing when it is read from the client, which stays as
    -- it is. Reading a parameter of it later, from any logger that lives by then, logs exactly one
    -- event: the exposure of the parameter for the user and the evaluation of the time when the layer
    -- was read, also if the client has another user by then.
    pub get_layer_spec-get_layer_value :
        (now : ℤ) (name param_name : String) (c : StatsigContext) (l : EventLogger)
        → ensure_initialized (some c) ≡ true
        → (let (client, layer) = get_layer_spec name (some c) in
            let exposure =
              make_layer_param_exposure now name param_name c.user (get_layer c.store name) in
            (client ≡ some c)
            × ((l' : EventLogger) × (get_layer_value now param_name layer (some l)
                  ≡ some (some l', get_json_value_from_json_object param_name layer.value))
                × (logged_only (all_events l') ≡ logged_only (all_events l) ++ (exposure ∷ []))))
    unfolding get_layer_spec evaluated_layer get_layer_value log_exposure logged_only
        make_layer_param_exposure
    get_layer_spec-get_layer_value now name param_name c l ready =
        let exposure =
          make_layer_param_exposure now name param_name c.user (get_layer c.store name) in
        rw ready (
          ap some (captured-ok eb_api trace c "GetLayer"),
          (enqueue now l exposure, refl, enqueue-logged now l exposure),
        )

    -- On a client that is not initialized a layer has no values, and reading a parameter throws.
    get_layer_spec-uninitialized :
        (now : ℤ) (name param_name : String) (client : Option StatsigContext)
        (logger : Option EventLogger)
        → ensure_initialized client ≡ false
        → (get_layer_spec name client ≡ (client, uninitialized_layer name))
          × (get_layer_value now param_name (get_layer_spec name client).1 logger ≡ none)
    unfolding get_layer_spec get_layer_value
    get_layer_spec-uninitialized now name param_name none logger h = (refl, refl)
    get_layer_spec-uninitialized now name param_name (some c) logger h = rw h (refl, refl)

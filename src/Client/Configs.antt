-- ===== src/Client/Configs.antt =====
-- GetDynamicConfig and GetExperiment of src/statsig/internal/statsig_client.cpp.
use cpp_client_sdk.Client.{StatsigContext, captured}
use cpp_client_sdk.Evaluation.{EvaluationDetails, DetailedEvaluation, ConfigEvaluation}
use cpp_client_sdk.Event.{make_config_exposure}
use cpp_client_sdk.EventLogger.{enqueue}
use cpp_client_sdk.EventLogger.Batches.{logged_only, all_events, enqueue-logged}
use cpp_client_sdk.JsonLib.{JsonLib}
use cpp_client_sdk.Prelude.{String, ◌≡◌, refl, ap, ◌∙◌, Option, none, some, List, [], ◌∷◌, ◌++◌, ℤ}
use cpp_client_sdk.Result.{code_ok}
use cpp_client_sdk.Store.{get_config}
use mathlib.Core.List.{append_assoc}

module _ ⦃J : JsonLib⦄ where
  -- DynamicConfig and Experiment, which are EvaluatedSpec<JsonObject>.
  pub record ConfigSpec : Type 0 where
    pub name : String
    pub rule_id : String
    pub group_name : Option String
    pub details : EvaluationDetails
    pub value : J.Ordered

  -- GetCompatGroupName.
  abbrev pub get_compat_group_name : Option ConfigEvaluation → Option String
  get_compat_group_name none = none
  get_compat_group_name (some e) = e.group_name

  -- The spec of an evaluation; a missing one has an empty rule and a null value.
  abbrev pub config_spec : String → Option String → DetailedEvaluation ConfigEvaluation → ConfigSpec
  config_spec name group_name config = record {
    name = name;
    rule_id = elim config.evaluation [ none ↦ "" | some e ↦ e.rule_id ];
    group_name = group_name;
    details = config.details;
    value = elim config.evaluation [ none ↦ J.ordered_null | some e ↦ e.value ];
  }

  module _ (eb_api : String) (trace : List String) where
    -- The exposure that both log for an initialized client, under the tag of the method.
    expose_config : ℤ → String → String → StatsigContext → StatsigContext
    unfolding captured
    expose_config now tag name c =
        let exposure = make_config_exposure now name c.user (get_config c.store name) in
        captured eb_api trace (record c { logger = enqueue now c.logger exposure }) tag code_ok

    get_dynamic_config : ℤ → String → StatsigContext → StatsigContext × ConfigSpec
    unfolding expose_config
    get_dynamic_config now name c =
        let config = get_config c.store name in
        (expose_config now "GetDynamicConfig" name c, config_spec name none config)

    get_experiment : ℤ → String → StatsigContext → StatsigContext × ConfigSpec
    unfolding expose_config
    get_experiment now name c =
        let config = get_config c.store name in
        (
          expose_config now "GetExperiment" name c,
          config_spec name (get_compat_group_name config.evaluation) config,
        )

    expose_config-logged :
        (now : ℤ) (tag name : String) (c : StatsigContext)
        → logged_only (all_events (expose_config now tag name c).logger)
          ≡ logged_only (all_events c.logger)
            ++ make_config_exposure now name c.user (get_config c.store name) ∷ []
    unfolding expose_config captured logged_only make_config_exposure
    expose_config-logged now tag name c =
        enqueue-logged now c.logger (make_config_exposure now name c.user (get_config c.store name))

    -- Reading an experiment and then a config of an initialized client logs exactly their two
    -- exposures, in this order and as the store evaluates them for the client's user: the first read
    -- changes neither the store nor the user.
    get_experiment-get_dynamic_config :
        (now later : ℤ) (experiment config : String) (c : StatsigContext)
        → let first = (get_experiment now experiment c).0 in
          let second = (get_dynamic_config later config first).0 in
          (logged_only (all_events second.logger)
            ≡ logged_only (all_events c.logger)
              ++ make_config_exposure now experiment c.user (get_config c.store experiment)
                ∷ make_config_exposure later config c.user (get_config c.store config)
                ∷ [])
          × ((get_dynamic_config later config first).1 ≡ (get_dynamic_config later config c).1)
          × (second.store ≡ c.store)
    unfolding get_experiment get_dynamic_config expose_config captured
    get_experiment-get_dynamic_config now later experiment config c =
        let first = expose_config now "GetExperiment" experiment c in
        let before = logged_only (all_events c.logger) in
        let one = make_config_exposure now experiment c.user (get_config c.store experiment) in
        let two = make_config_exposure later config c.user (get_config c.store config) in
        (
          expose_config-logged later "GetDynamicConfig" config first
              ∙ ap (λ t. t ++ two ∷ []) (expose_config-logged now "GetExperiment" experiment c)
              ∙ append_assoc before (one ∷ []) (two ∷ []),
          refl,
          refl,
        )

-- ===== src/Event/Exposures.antt =====
-- What an exposure event tells the server.
use cpp_client_sdk.Dict.{find}
use cpp_client_sdk.Evaluation.{
  GateEvaluation, EvaluationDetails, DetailedEvaluation, LayerEvaluation,
}
use cpp_client_sdk.Event.{
  StatsigEventInternal, make_gate_exposure, contains_param, make_layer_param_exposure,
}
use cpp_client_sdk.JsonLib.{JsonLib, ◌>>=◌}
use cpp_client_sdk.Prelude.{String, ◌≡◌, Option, none, some, [], arith, if◌then◌else◌, value_or, ℤ}
use cpp_client_sdk.User.{StatsigUser}

module _ ⦃J : JsonLib⦄ where
  open J use {Value, of_string, of_int}

  abbrev pub meta : StatsigEventInternal → String → Option Value
  meta e key = e.metadata >>= find key

  -- A gate exposure carries the gate's name, its value and rule (false and empty where the gate is
  -- unknown), the details under which it was evaluated, and the evaluation's secondary exposures.
  make_gate_exposure-meta :
      (now : ℤ) (name : String) (user : StatsigUser) (d : DetailedEvaluation GateEvaluation)
      → let e = make_gate_exposure now name user d in
        (meta e "gate" ≡ some (of_string name))
        × (meta e "gateValue"
            ≡ some (
                of_string (elim d.evaluation [
                  | none ↦ "false"
                  | some g ↦ if g.value then "true" else "false"
                ])))
        × (meta e "ruleID"
            ≡ some (of_string (elim d.evaluation [ none ↦ "" | some g ↦ g.rule_id ])))
        × (meta e "reason" ≡ some (of_string d.details.reason))
        × (meta e "lcut" ≡ some (of_int d.details.lcut))
        × (meta e "receivedAt" ≡ some (of_int d.details.received_at))
        × (e.secondary_exposures
            ≡ some (elim d.evaluation [ none ↦ [] | some g ↦ g.secondary_exposures ]))
  unfolding make_gate_exposure find
  make_gate_exposure-meta now name user d = ground arith

  -- A parameter of a layer that its allocated experiment sets explicitly is reported with that
  -- experiment and the layer's exposures; any other parameter with no experiment and the undelegated
  -- exposures only.
  make_layer_param_exposure-meta :
      (now : ℤ) (name param : String) (user : StatsigUser) (l : LayerEvaluation)
      (details : EvaluationDetails)
      → let e =
          make_layer_param_exposure now name param user
            (record { evaluation = some l; details = details }) in
        let explicit = contains_param l.explicit_parameters param in
        (meta e "isExplicitParameter" ≡ some (of_string (if explicit then "true" else "false")))
        × (meta e "allocatedExperiment"
            ≡ some (of_string (if explicit then value_or l.allocated_experiment_name "" else "")))
        × (e.secondary_exposures
            ≡ some (if explicit then l.secondary_exposures else l.undelegated_secondary_exposures))
        × (meta e "parameterName" ≡ some (of_string param))
        × (meta e "reason" ≡ some (of_string details.reason))
  unfolding make_layer_param_exposure find
  make_layer_param_exposure-meta now name param user l details = ground arith

-- ===== src/Tests/Events.antt =====
-- Tests of the event logger, the diagnostics and the exposures.
use cpp_client_sdk.Diagnostics.{new_diagnostics}
use cpp_client_sdk.Diagnostics.Bounds.{mark_all, mark_all-new}
use cpp_client_sdk.Evaluation.{GateEvaluation, EvaluationDetails}
use cpp_client_sdk.Event.{StatsigEventInternal}
use cpp_client_sdk.EventLogger.{new_logger}
use cpp_client_sdk.EventLogger.Batches.{
  run, LoggerCall, enqueues, shuts_down, marks, enqueued, logged_only, all_events, run-logged_only,
}
use cpp_client_sdk.Prelude.{String, ◌≡◌, true, none, List, [], ◌∷◌, map, take, ℤ, pos}
use cpp_client_sdk.Tests.Toy.{Toy, toy_text, toy_json, sample_user}

abbrev sample_event : String → StatsigEventInternal
sample_event name = record {
  event_name = name;
  time = pos 1;
  user = sample_user;
  string_value = none;
  double_value = none;
  metadata = none;
  secondary_exposures = none;
}

abbrev sample_markers : List Toy
sample_markers = toy_text "m" ∷ toy_text "n" ∷ []

abbrev sample_calls : List (ℤ × LoggerCall)
sample_calls =
    (pos 1, enqueues (sample_event "a"))
    ∷ (pos 2, marks (toy_text "m"))
    ∷ (pos 3, enqueues (sample_event "b"))
    ∷ (pos 4, enqueues (sample_event "c"))
    ∷ (pos 5, shuts_down)
    ∷ []

run-logged_only_example :
    logged_only (all_events (run (new_logger (pos 1) new_diagnostics) sample_calls))
    ≡ logged_only (enqueued sample_calls)
run-logged_only_example = run-logged_only (pos 1) new_diagnostics sample_calls

mark_all-new_example :
    (mark_all new_diagnostics sample_markers).markers ≡ take 31 (map (λ m. m) sample_markers)
mark_all-new_example = mark_all-new sample_markers

abbrev sample_details : EvaluationDetails
sample_details = record { reason = "Network:Recognized"; lcut = pos 7; received_at = pos 9 }

abbrev sample_gate : GateEvaluation
sample_gate = record {
  name = "a_gate";
  rule_id = "a_rule";
  value = true;
  secondary_exposures = (("gate", "a_holdout") ∷ []) ∷ [];
  id_type = none;
}

-- ===== src/Tests/Clients.antt =====
-- Tests of the client's updates and checks.
use cpp_client_sdk.Adapter.{get_data_sync}
use cpp_client_sdk.Client.{
  StatsigContext, prefetch_task, ensure_initialized, update_user_sync, check_gate,
}
use cpp_client_sdk.Client.Checks.{check_gate_passes, check_gate_finds, check_gate_exposes}
use cpp_client_sdk.Client.Session.{new_context, initialize_sync, initialize_sync_cases}
use cpp_client_sdk.Client.Updates.{update_user_sync-store}
use cpp_client_sdk.Details.{network}
use cpp_client_sdk.Dict.{find}
use cpp_client_sdk.Evaluation.{GateEvaluation, InitializeResponse, empty_response}
use cpp_client_sdk.Event.{make_gate_exposure}
use cpp_client_sdk.EventLogger.Batches.{logged_only, all_events}
use cpp_client_sdk.Hashing.{djb2}
use cpp_client_sdk.Prelude.{
  String, ◌≡◌, refl, ◌≢◌, ◌⊎◌, true, none, some, [], ◌∷◌, ◌++◌, if◌then◌else◌, pos,
}
use cpp_client_sdk.Result.{code_ok, invalid_sdk_key, code_eq}
use cpp_client_sdk.Store.{get_gate}
use cpp_client_sdk.Store.Lifecycle.{answer_of}
use cpp_client_sdk.Tests.Toy.{toy_json, insertion_order, sample_user, sample_context}
use cpp_client_sdk.User.{StatsigUser, normalize_user}
use text.Mathlib.TextPositions.{eq_refl}

abbrev pub other_user : StatsigUser
other_user = record sample_user { user_id = some "another_user" }

update_user_sync-store_example :
    let found = (get_data_sync sample_context.data_adapter other_user).1 in
    let updated = update_user_sync "https://statsigapi.net" [] other_user sample_context in
    (updated.0.store ≡ answer_of (if code_eq found.code code_ok then found.value else none))
    × (updated.0.user ≡ other_user)
    × (updated.1 ≡ found.code)
    × (updated.2 ≡ prefetch_task found.value)
unfolding normalize_user
update_user_sync-store_example =
    update_user_sync-store "https://statsigapi.net" [] other_user sample_context

abbrev sample_gate : GateEvaluation
sample_gate = record {
  name = "a_gate";
  rule_id = "a_rule";
  value = true;
  secondary_exposures = [];
  id_type = none;
}

abbrev ready_values : InitializeResponse
ready_values = record empty_response { feature_gates = (djb2 "a_gate", sample_gate) ∷ [] }

abbrev ready_context : StatsigContext
ready_context = record sample_context {
  store = record {
    values = some ready_values;
    source_info = record { source = network; lcut = pos 7; received_at = pos 9 };
  };
}

sample_gate_found : find (djb2 "a_gate") ((djb2 "a_gate", sample_gate) ∷ []) ≡ some sample_gate
unfolding find
sample_gate_found = rw (eq_refl (djb2 "a_gate")) refl

ready_context_initialized : ensure_initialized (some ready_context) ≡ true
unfolding ensure_initialized
ready_context_initialized = refl

check_gate_passes_example :
    (c : StatsigContext) × (v : InitializeResponse) × (e : GateEvaluation) × (some ready_context
      ≡ some c)
    × (c.sdk_key ≢ "")
    × (c.store.values ≡ some v)
    × (find (djb2 "a_gate") v.feature_gates ≡ some e)
    × (e.value ≡ true)
check_gate_passes_example =
    check_gate_passes "https://statsigapi.net" [] (pos 1) "a_gate" (some ready_context) (
      check_gate_finds "https://statsigapi.net" [] (pos 1) "a_gate" ready_context ready_values
        sample_gate ready_context_initialized refl sample_gate_found)

check_gate_exposes_example :
    (c : StatsigContext) × ((check_gate "https://statsigapi.net" []
        (pos 1)
        "a_gate"
        (some ready_context)).0
      ≡ some c)
    × (logged_only (all_events c.logger)
        ≡ logged_only (all_events ready_context.logger)
          ++ make_gate_exposure (pos 1) "a_gate" sample_user (get_gate ready_context.store "a_gate")
            ∷ [])
    × (c.store ≡ ready_context.store)
    × (c.reports ≡ [])
check_gate_exposes_example =
    check_gate_exposes "https://statsigapi.net" [] (pos 1) "a_gate" ready_context
      ready_context_initialized

initialize_sync_cases_example :
    let key : String = "client-key" in
    let done =
      initialize_sync "https://statsigapi.net" []
        (pos 1)
        (pos 2)
        (record { is_created = true; files = [] })
        "client-key"
        (some sample_user)
        none
        none in
    let fresh =
      new_context (record { is_created = true; files = [] }) "client-key" (some sample_user) none in
    let current = normalize_user sample_user fresh.options in
    let found = (get_data_sync fresh.data_adapter current).1 in
    ((key ≡ "") × (done ≡ (none, invalid_sdk_key, none)))
    ⊎ ((c : StatsigContext) × (done ≡ (some c, found.code, some (prefetch_task found.value)))
        × (ensure_initialized (some c) ≡ true)
        × (c.user ≡ current)
        × (c.store ≡ answer_of (if code_eq found.code code_ok then found.value else none)))
initialize_sync_cases_example =
    initialize_sync_cases "https://statsigapi.net" [] (pos 1) (pos 2)
      (record { is_created = true; files = [] }) "client-key" (some sample_user) none none

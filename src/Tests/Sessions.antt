-- ===== src/Tests/Sessions.antt =====
-- Tests of asynchronous starts, layers, batches that fail and the cache of a session.
use cpp_client_sdk.Adapter.{get_data_sync}
use cpp_client_sdk.Client.{StatsigContext, update_task, ensure_initialized}
use cpp_client_sdk.Client.Layers.{
  get_json_value_from_json_object, get_layer_value, get_layer_spec, get_layer_spec-get_layer_value,
}
use cpp_client_sdk.Client.Session.{new_context}
use cpp_client_sdk.Client.Start.{initialize_async, finish_initialize, initialize_async_cases}
use cpp_client_sdk.Diagnostics.{new_diagnostics}
use cpp_client_sdk.Event.{make_gate_exposure, make_layer_param_exposure}
use cpp_client_sdk.EventLogger.{EventLogger, enqueue, save_failed_events}
use cpp_client_sdk.EventLogger.Background.{
  start_tasks, create_tasks, flush_at, run_tasks, create_tasks_inert,
}
use cpp_client_sdk.EventLogger.Batches.{logged_only, all_events}
use cpp_client_sdk.EventLogger.Retry.{Network, send_batch, retry_failed_events, send_batch_saves}
use cpp_client_sdk.Files.{CacheDirectory}
use cpp_client_sdk.Json.Requests.{serialize_log_event_args}
use cpp_client_sdk.Network.{has_success_code}
use cpp_client_sdk.Network.Retry.{EndsAt}
use cpp_client_sdk.Prelude.{
  ℕ, String, ◌≡◌, refl, ◌⊎◌, true, none, some, [], ◌∷◌, ◌++◌, ◌==◌, if◌then◌else◌, pos,
}
use cpp_client_sdk.Result.{code_ok, invalid_sdk_key, code_eq, succeed}
use cpp_client_sdk.Store.{get_gate, get_layer}
use cpp_client_sdk.Store.Lifecycle.{put_values}
use cpp_client_sdk.Tests.Toy.{toy_json, insertion_order, sample_user, sample_result, sample_context}
use cpp_client_sdk.User.{default_options, normalize_user}

sample_context_initialized : ensure_initialized (some sample_context) ≡ true
unfolding ensure_initialized
sample_context_initialized = refl

get_layer_spec-get_layer_value_example :
    (let (client, layer) =
        get_layer_spec "https://statsigapi.net" [] "a_layer" (some sample_context) in
      let exposure =
        make_layer_param_exposure
          (pos 5)
          "a_layer"
          "a_param"
          sample_user
          (get_layer sample_context.store "a_layer") in
      (client ≡ some sample_context)
      × ((l' : EventLogger) × (get_layer_value (pos 5) "a_param" layer (some sample_context.logger)
            ≡ some (some l', get_json_value_from_json_object "a_param" layer.value))
          × (logged_only (all_events l')
              ≡ logged_only (all_events sample_context.logger) ++ (exposure ∷ []))))
get_layer_spec-get_layer_value_example =
    get_layer_spec-get_layer_value "https://statsigapi.net" [] (pos 5) "a_layer" "a_param"
      sample_context sample_context.logger sample_context_initialized

abbrev start_directory : CacheDirectory
start_directory = record { is_created = true; files = [] }

initialize_async_cases_example :
    let key : String = "client-key" in
    let started =
      initialize_async "https://statsigapi.net" []
        (pos 1)
        start_directory
        "client-key"
        (some sample_user)
        none
        none in
    let fresh = new_context start_directory "client-key" (some sample_user) none in
    let current = normalize_user sample_user fresh.options in
    let found = (get_data_sync fresh.data_adapter current).1 in
    let cached = put_values (if code_eq found.code code_ok then found.value else none) none in
    ((key ≡ "") × (started ≡ (none, some invalid_sdk_key, none)))
    ⊎ ((c : StatsigContext) × (started ≡ (some c, none, some (update_task current found.value)))
        × (c.store.values ≡ cached)
        × ((finish_initialize "https://statsigapi.net" []
              (pos 2)
              current
              (succeed sample_result)
              c).1
            ≡ code_ok)
        × ((finish_initialize "https://statsigapi.net" []
              (pos 2)
              current
              (succeed sample_result)
              c).0.store.values
            ≡ put_values (some sample_result) cached))
initialize_async_cases_example =
    initialize_async_cases "https://statsigapi.net" [] (pos 1) (pos 2) start_directory "client-key"
      (some sample_user) none none (succeed sample_result)

-- A server that answers each post with an error.
abbrev failing_network : Network
failing_network = record {
  respond = λ body n. record {
    started = pos 1;
    finished = pos 2;
    answer = record { text = ""; status = pos 503; sdk_region = ""; error = none };
  };
  metadata = ("sdkType", "cpp-client") ∷ [];
  diagnostics = new_diagnostics;
}

abbrev batch_text : String
batch_text = "json"

batch_serialized : serialize_log_event_args [] failing_network.metadata ≡ some (succeed batch_text)
unfolding serialize_log_event_args
batch_serialized = refl

send_batch_saves_example :
    (n : ℕ) × EndsAt (failing_network.respond batch_text) 1 2 n
    × (send_batch (some failing_network) start_directory "client-key" [] ≡ (
        if has_success_code (some (failing_network.respond batch_text n).answer)
        then (start_directory, none)
        else save_failed_events start_directory "client-key" [] (pos 1)))
send_batch_saves_example =
    send_batch_saves failing_network start_directory "client-key" [] batch_text batch_serialized

-- A queue with an event, and a file of failed batches.
abbrev waiting_context : StatsigContext
waiting_context = record sample_context {
  logger =
      enqueue (pos 1) sample_context.logger
        (make_gate_exposure (pos 1) "a_gate" sample_user (get_gate sample_context.store "a_gate"));
}

abbrev failed_directory : CacheDirectory
failed_directory = record {
  is_created = true;
  files =
      (
        "statsig.failed_events.1",
        record { content = "[]"; last_write_time = pos 1; is_regular_file = true },
      )
      ∷ [];
}

create_tasks_inert_example :
    let (tasks, o) = create_tasks 3 default_options in
    let times = pos 10 ∷ pos 20 ∷ [] in
    let net = some failing_network in
    let l = waiting_context.logger in
    (run_tasks (λ n. n == 3) net "client-key" times tasks l failed_directory
      ≡ (l, failed_directory, []))
    × (run_tasks
          (λ n. n == 3)
          net
          "client-key"
          times
          (start_tasks o default_options)
          l
          failed_directory
        ≡ (let retried = retry_failed_events true net failed_directory "client-key" in
            (flush_at true times l, retried.0, retried.1 ++ [])))
create_tasks_inert_example =
    create_tasks_inert (λ n. n == 3) 3 (some failing_network) "client-key" (pos 10 ∷ pos 20 ∷ [])
      default_options waiting_context.logger failed_directory refl

-- ===== src/Tests/Tasks.antt =====
-- Tests of the background task of an asynchronous update.
use cpp_client_sdk.Adapter.{get_cache_key, get_data_sync}
use cpp_client_sdk.Adapter.Answers.{get_data_sync_hit}
use cpp_client_sdk.Adapter.Memory.{find-here}
use cpp_client_sdk.Client.{StatsigContext, BackgroundTask, update_user_sync, update_user_async}
use cpp_client_sdk.Client.Session.{new_context, initialize_sync}
use cpp_client_sdk.Client.Tasks.{Fetching, run_task}
use cpp_client_sdk.Client.Tasks.Answers.{CanRequest, run_task_calls_back}
use cpp_client_sdk.Client.Tasks.NextSession.{cached_store, run_task-initialize_sync}
use cpp_client_sdk.Client.Tasks.Prefetch.{prefetch-initialize_sync}
use cpp_client_sdk.Client.Tasks.Shown.{run_task_keeps, run_task_confirms}
use cpp_client_sdk.Client.Tasks.Values.{fetched_result, fetched_store, CanKeep}
use cpp_client_sdk.Details.{network_not_modified, DataAdapterResult}
use cpp_client_sdk.Dict.{find, assign}
use cpp_client_sdk.Evaluation.{InitializeResponse}
use cpp_client_sdk.Http.{HttpResponse}
use cpp_client_sdk.Json.InitializeResponse.{deserialize_response}
use cpp_client_sdk.Json.Requests.{
  serialize_initialize_args, data_adapter_result_to_json, serialize_data_adapter_result,
}
use cpp_client_sdk.JsonLib.{JsonLib, ◌>>=◌, traverse}
use cpp_client_sdk.JsonLib.Laws.{JsonLaws, IsPrintable}
use cpp_client_sdk.Prelude.{
  String, ◌≡◌, refl, ap, ◌≢◌, true, false, Option, none, some, [], ◌∷◌, arith, if◌then◌else◌,
  has_value, ℤ, pos,
}
use cpp_client_sdk.Result.{
  StatsigResultCode, code_ok, network_failure_bad_status_code, code_eq, succeed,
}
use cpp_client_sdk.Store.Lifecycle.{put_values}
use cpp_client_sdk.Tests.Clients.{other_user}
use cpp_client_sdk.Tests.Requests.{sample_values, sample_parse}
use cpp_client_sdk.Tests.Toy.{
  toy_members-toy_of_map, sample_response, sample_text, toy_json, insertion_order, sample_user,
  sample_result, sample_context,
}
use cpp_client_sdk.Text.{str_eq}
use cpp_client_sdk.User.{StatsigUser, default_options, normalize_user}

abbrev session_user : StatsigUser
session_user = normalize_user sample_user default_options

abbrev session_result : DataAdapterResult
session_result = fetched_result ⦃o = insertion_order⦄ sample_text (pos 3) session_user

-- A library that reads the sample response, and any other text as the JSON of the result.
abbrev session_json : JsonLib
session_json = record toy_json {
  parse = λ text.
      if str_eq text sample_text
      then some sample_response
      else some (data_adapter_result_to_json ⦃J = toy_json⦄ session_result);
}

session_laws : JsonLaws session_json
session_laws = record {
  get_at-of_map = λ k m d. ap (λ o. o >>= find k) (toy_members-toy_of_map m);
  get_string-of_string = λ s. refl;
  get_int-of_int = λ n h. refl;
}

abbrev session_values : InitializeResponse ⦃J = session_json⦄
session_values = record {
  time = pos 7;
  has_updates = true;
  feature_gates =
      (
        "a_gate",
        record {
          name = "a_gate";
          rule_id = "a_rule";
          value = true;
          secondary_exposures = [];
          id_type = none;
        },
      )
      ∷ [];
  dynamic_configs = [];
  layer_configs = [];
}

session_parse : deserialize_response ⦃J = session_json⦄ sample_text ≡ succeed session_values
unfolding deserialize_response find traverse assign
session_parse = refl

session_result-IsPrintable : IsPrintable session_json (
    data_adapter_result_to_json ⦃J = session_json⦄
      (fetched_result ⦃o = insertion_order⦄ sample_text (pos 3) session_user))
unfolding data_adapter_result_to_json
session_result-IsPrintable = refl

abbrev pub session_response : HttpResponse
session_response = record { text = sample_text; status = pos 200; sdk_region = ""; error = none }

abbrev pub always : HttpResponse → Fetching
always r = record {
  respond = λ body n. record { started = pos 1; finished = pos 2; answer = r };
  now = pos 2;
  later = pos 2;
  received_at = pos 3;
  written_at = pos 4;
  delivered_at = pos 5;
  metadata = [];
}

abbrev session_context : StatsigContext ⦃J = session_json⦄
session_context =
    new_context ⦃J = session_json⦄ (record { is_created = true; files = [] }) "client-key"
      (some sample_user) none

key_given : ◌≢◌ {A = String} "client-key" ""
key_given e = let differ : false ≡ true = ap (λ s. str_eq s "") e in cc

-- The library of the tests prints whatever it is given.
session_CanRequest :
    (f : Fetching) (user : StatsigUser) → CanRequest ⦃J = session_json⦄ ⦃o = insertion_order⦄ f user
unfolding serialize_initialize_args
session_CanRequest f user cached = ("json", refl)

toy_CanRequest : (f : Fetching) (user : StatsigUser) → CanRequest f user
unfolding serialize_initialize_args
toy_CanRequest f user cached = ("json", refl)

toy_CanKeep : (received_at : ℤ) (user : StatsigUser) → CanKeep received_at user
unfolding serialize_data_adapter_result
toy_CanKeep received_at user text v parsed = ("json", refl)

run_task-initialize_sync_example :
    let (updated, task) =
      update_user_async ⦃J = session_json⦄ "https://statsigapi.net" [] sample_user
        session_context in
    (c' : StatsigContext ⦃J = session_json⦄) × (next : StatsigContext ⦃J = session_json⦄)
    × (left : BackgroundTask ⦃J = session_json⦄) × (run_task ⦃J = session_json⦄
          "https://statsigapi.net" [] ⦃o = insertion_order⦄
          (always session_response)
          true
          true
          task
          updated
        ≡ some (c', some code_ok))
    × (c'.store ≡ fetched_store ⦃J = session_json⦄ session_values (pos 3))
    × (initialize_sync ⦃J = session_json⦄ "https://statsigapi.net" []
          (pos 6)
          (pos 7)
          c'.data_adapter.directory
          "client-key"
          (some sample_user)
          (some default_options)
          none
        ≡ (some next, code_ok, some left))
    × (next.store ≡ cached_store ⦃J = session_json⦄ session_values (pos 3))
    × (next.user ≡ session_user)
unfolding new_context
run_task-initialize_sync_example =
    run_task-initialize_sync ⦃J = session_json⦄ "https://statsigapi.net" [] ⦃o = insertion_order⦄
      session_laws (always session_response) sample_user session_context session_response
      session_values (pos 6) (pos 7) none refl key_given
      (session_CanRequest (always session_response) _) (λ body n. refl) refl refl session_parse refl
      (omega arith, omega arith) session_result-IsPrintable

abbrev unavailable_response : HttpResponse
unavailable_response = record { text = ""; status = pos 503; sdk_region = ""; error = none }

run_task_keeps_example :
    let (updated, task) = update_user_async "https://statsigapi.net" [] other_user sample_context in
    let cached = (get_data_sync sample_context.data_adapter other_user).1 in
    (c' : StatsigContext) × (run_task "https://statsigapi.net" []
        (always unavailable_response)
        true
        true
        task
        updated
      ≡ some (c', some network_failure_bad_status_code))
    × (c'.store.values
        ≡ put_values (if code_eq cached.code code_ok then cached.value else none) none)
    × (c'.user ≡ other_user)
unfolding normalize_user
run_task_keeps_example =
    run_task_keeps "https://statsigapi.net" [] (always unavailable_response) other_user
      sample_context unavailable_response refl (toy_CanRequest (always unavailable_response) _)
      (λ body n. refl) refl

-- The context is gone when the answer comes.
run_task_calls_back_example :
    let (updated, task) = update_user_async "https://statsigapi.net" [] other_user sample_context in
    (c' : StatsigContext) × (code : Option StatsigResultCode) × (run_task "https://statsigapi.net"
        []
        (always session_response)
        true
        false
        task
        updated
      ≡ some (c', code))
    × (has_value code ≡ false)
    × (c'.user ≡ other_user)
unfolding normalize_user
run_task_calls_back_example =
    run_task_calls_back "https://statsigapi.net" [] (always session_response) true false other_user
      sample_context refl (toy_CanRequest (always session_response) _) (toy_CanKeep (pos 3) _)

prefetch-initialize_sync_example :
    let (updated, _, task) =
      update_user_sync ⦃J = session_json⦄ "https://statsigapi.net" [] sample_user session_context in
    (c' : StatsigContext ⦃J = session_json⦄) × (next : StatsigContext ⦃J = session_json⦄)
    × (left : BackgroundTask ⦃J = session_json⦄) × (run_task ⦃J = session_json⦄
          "https://statsigapi.net" [] ⦃o = insertion_order⦄
          (always session_response)
          true
          true
          task
          updated
        ≡ some (c', none))
    × (c'.store ≡ updated.store)
    × (c'.user ≡ updated.user)
    × (initialize_sync ⦃J = session_json⦄ "https://statsigapi.net" []
          (pos 6)
          (pos 7)
          c'.data_adapter.directory
          "client-key"
          (some sample_user)
          (some default_options)
          none
        ≡ (some next, code_ok, some left))
    × (next.store ≡ cached_store ⦃J = session_json⦄ session_values (pos 3))
    × (next.user ≡ session_user)
unfolding new_context
prefetch-initialize_sync_example =
    prefetch-initialize_sync ⦃J = session_json⦄ "https://statsigapi.net" [] ⦃o = insertion_order⦄
      session_laws (always session_response) sample_user session_context session_response
      session_values (pos 6) (pos 7) none refl key_given
      (session_CanRequest (always session_response) _) (λ body n. refl) refl refl session_parse refl
      (omega arith, omega arith) session_result-IsPrintable

-- A context whose adapter has a result for the user in memory.
abbrev warm_context : StatsigContext
warm_context = record sample_context {
  data_adapter = record {
    sdk_key = "client-key";
    in_memory_cache = (get_cache_key "client-key" session_user, sample_result) ∷ [];
    directory = record { is_created = true; files = [] };
  };
}

abbrev no_content : HttpResponse
no_content = record { text = ""; status = pos 204; sdk_region = ""; error = none }

run_task_confirms_example :
    let (updated, task) = update_user_async "https://statsigapi.net" [] sample_user warm_context in
    (c' : StatsigContext) × (run_task "https://statsigapi.net" []
        (always no_content)
        true
        true
        task
        updated
      ≡ some (c', some code_ok))
    × (c'.store ≡ record {
      values = some sample_values;
      source_info = record { source = network_not_modified; lcut = pos 7; received_at = pos 3 };
    })
    × (c'.user ≡ session_user)
run_task_confirms_example =
    run_task_confirms "https://statsigapi.net" [] (always no_content) sample_user warm_context
      no_content sample_result sample_values refl (toy_CanRequest (always no_content) _)
      (ap (λ p. p.1.value)
        (get_data_sync_hit warm_context.data_adapter session_user sample_result
          (find-here (get_cache_key "client-key" session_user) sample_result [])))
      sample_parse (λ body n. refl) refl

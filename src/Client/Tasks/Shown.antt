-- ===== src/Client/Tasks/Shown.antt =====
-- What a client shows once the background task of UpdateUserAsync has run.
use cpp_client_sdk.Adapter.{get_data_sync, latest_result}
use cpp_client_sdk.Adapter.Async.{current_or_read, CanWrite}
use cpp_client_sdk.Client.{
  StatsigContext, load_user, finalize_store, report, update_user_async, finish_update,
}
use cpp_client_sdk.Client.Start.{load_user-values}
use cpp_client_sdk.Client.Tasks.{Fetching, fetch_data, answer_update, run_task}
use cpp_client_sdk.Client.Tasks.Answers.{
  load_user_created, Fetched, CanRequest, fetch_data_answered,
}
use cpp_client_sdk.Client.Tasks.Values.{
  latest_result_fails, confirmed_result, latest_result_confirms,
}
use cpp_client_sdk.Client.Updates.{update_user_async_loads, finish_update-values}
use cpp_client_sdk.Details.{network_not_modified, DataAdapterResult}
use cpp_client_sdk.Diagnostics.{Diagnostics}
use cpp_client_sdk.Evaluation.{InitializeResponse}
use cpp_client_sdk.Http.{HttpResponse}
use cpp_client_sdk.Json.InitializeResponse.{deserialize_response}
use cpp_client_sdk.JsonLib.{JsonLib}
use cpp_client_sdk.Network.{has_success_code, get_status_code_err, handle_fetch_values_response}
use cpp_client_sdk.Prelude.{
  ℕ, String, ◌≡◌, refl, ap, ◌∙◌, true, false, none, some, some-injective, List, if◌then◌else◌, pos,
}
use cpp_client_sdk.Result.{
  code_ok, network_failure_bad_status_code, code_eq, StatsigResult, succeed,
}
use cpp_client_sdk.Store.{EvaluationStore}
use cpp_client_sdk.Store.Lifecycle.{finalize_set, put_values}
use cpp_client_sdk.User.{StatsigUser, MapOrder, normalize_user}
use cpp_client_sdk.User.Keys.{are_users_equal_self}

module _ ⦃J : JsonLib⦄ (eb_api : String) (trace : List String) where
  -- The task of an update, once its fetch has given a result.
  run_fetched :
      ⦃o : MapOrder⦄ (f : Fetching) (user : StatsigUser) (c c' : StatsigContext)
      (latest : StatsigResult DataAdapterResult)
      → let (loaded, found) = load_user user c in
        fetch_data f loaded.user found.value loaded ≡ some (c', some latest)
        → let (updated, task) = update_user_async eb_api trace user c in
          let (finished, code) = finish_update eb_api trace loaded.user latest c' in
          run_task eb_api trace f true true task updated ≡ some (finished, some code)
  unfolding run_task answer_update
  run_fetched f user c c' latest ran =
      ap (λ u. run_task eb_api trace f true true u.1 u.0)
        (update_user_async_loads eb_api trace user c)
      ∙ rw ran refl

  -- The end of an update from a server that gives every post the same response.
  pub run_answered :
      ⦃o : MapOrder⦄ (f : Fetching) (user : StatsigUser) (c : StatsigContext) (r : HttpResponse)
      (latest : StatsigResult DataAdapterResult)
      → c.data_adapter.directory.is_created ≡ true
      → CanRequest f (normalize_user user c.options)
      → CanWrite latest
      → ((body : String) (n : ℕ) → (f.respond body n).answer ≡ r)
      → let (loaded, found) = load_user user c in
        ((d : Diagnostics)
          → latest_result f.received_at loaded.user
              (current_or_read loaded.data_adapter loaded.user found.value).1
              (handle_fetch_values_response d f.now f.later (some r)).1
            ≡ latest)
        → let (updated, task) = update_user_async eb_api trace user c in
          (c' : StatsigContext) × (run_task eb_api trace f true true task updated
            ≡ some ((finish_update eb_api trace loaded.user latest c').0, some latest.code))
          × Fetched f loaded.user
              (current_or_read loaded.data_adapter loaded.user found.value).0
              loaded
              c'
              latest
  unfolding finish_update load_user
  run_answered f user c r latest there requests writes server made =
      let (loaded, found) = load_user user c in
      let (c', ran, fetched) =
        fetch_data_answered f loaded.user found.value loaded r latest
          (load_user_created user c there) requests writes server made in
      (c', run_fetched f user c c' latest ran, fetched)

  -- The end of an update on a context that still has the user, with a result that parses.
  pub finish_update_sets :
      ⦃o : MapOrder⦄ (result : DataAdapterResult) (v : InitializeResponse) (initiator : StatsigUser)
      (c : StatsigContext)
      → c.user ≡ initiator
      → deserialize_response result.values_str ≡ succeed v
      → (finish_update eb_api trace initiator (succeed result) c).0.store ≡ record {
        values = some v;
        source_info = record {
          source = result.source;
          lcut = v.time;
          received_at = result.received_at;
        };
      }
  unfolding finish_update finalize_store report
  finish_update_sets result v initiator c own parsed =
      rw (own, are_users_equal_self initiator) (finalize_set c.store result v parsed)

  -- If the cache directory is there, the JSON library can print the request for the user, and the
  -- server answers every post with the same failure, then, on a context that is held throughout, an asynchronous update ends with the values that GetDataSync
  -- found for the new user, if it found any that parse, and the caller's callback is given
  -- NetworkFailureBadStatusCode.
  pub run_task_keeps :
      ⦃o : MapOrder⦄ (f : Fetching) (user : StatsigUser) (c : StatsigContext) (r : HttpResponse)
      → c.data_adapter.directory.is_created ≡ true
      → CanRequest f (normalize_user user c.options)
      → ((body : String) (n : ℕ) → (f.respond body n).answer ≡ r)
      → has_success_code (some r) ≡ false
      → let (updated, task) = update_user_async eb_api trace user c in
        let cached = (get_data_sync c.data_adapter (normalize_user user c.options)).1 in
        (c' : StatsigContext) × (run_task eb_api trace f true true task updated
          ≡ some (c', some network_failure_bad_status_code))
        × (c'.store.values
            ≡ put_values (if code_eq cached.code code_ok then cached.value else none) none)
        × (c'.user ≡ normalize_user user c.options)
  unfolding load_user finish_update report
  run_task_keeps f user c r there requests server bad =
      let loaded = (load_user user c).0 in
      let failure : StatsigResult DataAdapterResult = record {
        code = network_failure_bad_status_code;
        value = none;
        extra = get_status_code_err (some r);
      } in
      let (c', ran, fetched) =
        run_answered f user c r failure there requests (λ q given fresh. absurd cc given) server
          (λ d. latest_result_fails d f.now f.later f.received_at loaded.user _ r bad) in
      (
        (finish_update eb_api trace loaded.user failure c').0,
        ran,
        finish_update-values eb_api trace loaded.user failure c'
            ∙ ap (λ (s : EvaluationStore). s.values) fetched.store_kept
            ∙ load_user-values eb_api trace user c,
        fetched.user_kept,
      )

  -- If the cache directory is there, the JSON library can print the request for the user, GetDataSync
  -- finds for the new user a result that parses, and the server answers every post with 204, then, on a context that is held throughout, an asynchronous
  -- update ends with the values of that result in the store, with the source NetworkNotModified and the
  -- time of the answer, for the new user, and the caller's callback is given Ok.
  pub run_task_confirms :
      ⦃o : MapOrder⦄ (f : Fetching) (user : StatsigUser) (c : StatsigContext) (r : HttpResponse)
      (q : DataAdapterResult) (v : InitializeResponse)
      → c.data_adapter.directory.is_created ≡ true
      → CanRequest f (normalize_user user c.options)
      → (get_data_sync c.data_adapter (normalize_user user c.options)).1.value ≡ some q
      → deserialize_response q.values_str ≡ succeed v
      → ((body : String) (n : ℕ) → (f.respond body n).answer ≡ r)
      → r.status ≡ pos 204
      → let (updated, task) = update_user_async eb_api trace user c in
        (c' : StatsigContext) × (run_task eb_api trace f true true task updated
          ≡ some (c', some code_ok))
        × (c'.store ≡ record {
          values = some v;
          source_info = record {
            source = network_not_modified;
            lcut = v.time;
            received_at = f.received_at;
          };
        })
        × (c'.user ≡ normalize_user user c.options)
  unfolding load_user finish_update report current_or_read
  run_task_confirms f user c r q v there requests found parsed server nothing_new =
      let loaded = (load_user user c).0 in
      let result = confirmed_result q f.received_at loaded.user in
      let unwritten : CanWrite (succeed result) = λ q given fresh.
        absurd cc (ap (λ (x : DataAdapterResult). x.source) (some-injective _ _ given) ∙ fresh) in
      let (c', ran, fetched) =
        run_answered f user c r (succeed result) there requests unwritten server (λ d.
          rw found
            (latest_result_confirms d f.now f.later f.received_at loaded.user q r nothing_new)) in
      (
        (finish_update eb_api trace loaded.user (succeed result) c').0,
        ran,
        finish_update_sets result v loaded.user c' fetched.user_kept parsed,
        fetched.user_kept,
      )

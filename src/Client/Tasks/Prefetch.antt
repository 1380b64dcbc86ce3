-- ===== src/Client/Tasks/Prefetch.antt =====
-- The background task of UpdateUserSync, which fetches for the next session.
use cpp_client_sdk.Adapter.Async.{current_or_read, current_or_read_created}
use cpp_client_sdk.Client.{
  StatsigContext, BackgroundTask, load_user, finalize_store, report, captured, update_user_sync,
}
use cpp_client_sdk.Client.Session.{initialize_sync}
use cpp_client_sdk.Client.Tasks.{Fetching, run_task}
use cpp_client_sdk.Client.Tasks.Answers.{load_user_created, CanRequest, fetch_data_answered}
use cpp_client_sdk.Client.Tasks.NextSession.{
  cached_store, next_shows, IsPrintable-CanWrite, loaded_adapter,
}
use cpp_client_sdk.Client.Tasks.Values.{fetched_result, latest_result_updates}
use cpp_client_sdk.Evaluation.{InitializeResponse}
use cpp_client_sdk.Http.{HttpResponse}
use cpp_client_sdk.Json.InitializeResponse.{deserialize_response}
use cpp_client_sdk.Json.Requests.{data_adapter_result_to_json}
use cpp_client_sdk.JsonLib.{JsonLib}
use cpp_client_sdk.JsonLib.Laws.{IsInt64, JsonLaws, IsPrintable}
use cpp_client_sdk.Network.{has_success_code}
use cpp_client_sdk.Prelude.{
  ℕ, String, ◌≡◌, refl, ◌≢◌, true, false, Option, none, some, List, ℤ, pos, eqb_ℤ,
}
use cpp_client_sdk.Result.{code_ok, succeed}
use cpp_client_sdk.User.{StatsigUser, MapOrder, normalize_user}

module _ ⦃J : JsonLib⦄ (eb_api : String) (trace : List String) where
  -- A synchronous update fetches for the next session: if the cache directory is there, the server
  -- answers every post with a success other than 204 whose text parses to values with updates, the JSON
  -- library can print the request for the user and the result, the time is of 64 bits and the SDK key is not empty, then once its task
  -- has run, on a context that is held throughout, the store and the user are as the update left them, no
  -- callback is called, and a client that InitializeSync makes after it with the same directory, SDK key,
  -- user and options answers Ok and shows the values of the response, with the source Cache.
  pub prefetch-initialize_sync :
      ⦃o : MapOrder⦄ (laws : JsonLaws J) (f : Fetching) (user : StatsigUser) (c : StatsigContext)
      (r : HttpResponse) (v : InitializeResponse) (started finished : ℤ)
      (client : Option StatsigContext)
      → c.data_adapter.directory.is_created ≡ true
      → c.data_adapter.sdk_key ≢ ""
      → CanRequest f (normalize_user user c.options)
      → ((body : String) (n : ℕ) → (f.respond body n).answer ≡ r)
      → has_success_code (some r) ≡ true
      → eqb_ℤ r.status (pos 204) ≡ false
      → deserialize_response r.text ≡ succeed v
      → v.has_updates ≡ true
      → IsInt64 f.received_at
      → IsPrintable J (
          data_adapter_result_to_json
            (fetched_result r.text f.received_at (normalize_user user c.options)))
      → let (updated, _, task) = update_user_sync eb_api trace user c in
        (c' : StatsigContext) × (next : StatsigContext) × (left : BackgroundTask) × (run_task eb_api
            trace f true true task updated
          ≡ some (c', none))
        × (c'.store ≡ updated.store)
        × (c'.user ≡ updated.user)
        × (initialize_sync eb_api trace started finished c'.data_adapter.directory
              c.data_adapter.sdk_key
              (some user)
              (some c.options)
              client
            ≡ (some next, code_ok, some left))
        × (next.store ≡ cached_store v f.received_at)
        × (next.user ≡ normalize_user user c.options)
  unfolding update_user_sync load_user finalize_store report captured run_task
  prefetch-initialize_sync laws f user c r v started finished client there keyed requests server
        good full parsed updates h printable =
      let (loaded, found) = load_user user c in
      let updated = (update_user_sync eb_api trace user c).0 in
      let a = (current_or_read loaded.data_adapter loaded.user found.value).0 in
      let (c', ran, fetched) =
        fetch_data_answered f loaded.user found.value updated r
          (succeed (fetched_result r.text f.received_at loaded.user))
          (load_user_created user c there) requests
          (IsPrintable-CanWrite eb_api trace (fetched_result r.text f.received_at loaded.user)
            printable)
          server
          (λ d.
            latest_result_updates d f.now f.later f.received_at loaded.user _ r v good full parsed
              updates) in
      let (next, left, done, stored, own) =
        next_shows eb_api trace laws f user c.options c.data_adapter.sdk_key a updated c' r.text v
          started finished client
          (current_or_read_created loaded.data_adapter loaded.user found.value
            (load_user_created user c there))
          (loaded_adapter eb_api trace user c) keyed parsed h printable fetched in
      (c', next, left, rw ran refl, fetched.store_kept, fetched.user_kept, done, stored, own)

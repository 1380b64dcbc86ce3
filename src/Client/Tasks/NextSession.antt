-- ===== src/Client/Tasks/NextSession.antt =====
-- From an asynchronous update in one session to InitializeSync of the next.
-- The store with the values of a file.
use cpp_client_sdk.Adapter.{DataAdapter, get_data_sync}
use cpp_client_sdk.Adapter.Async.{
  current_or_read, CanWrite, current_or_read_created, current_or_read_key,
}
use cpp_client_sdk.Adapter.Keeps.{get_data_sync_key}
use cpp_client_sdk.Adapter.Sessions.{next_session, after_write, get_data_sync-deliver_latest}
use cpp_client_sdk.Client.{
  StatsigContext, BackgroundTask, prefetch_task, load_user, report, update_user_async,
  finish_update,
}
use cpp_client_sdk.Client.Session.{new_context, initialize_sync, initialize_sync_cases}
use cpp_client_sdk.Client.Tasks.{Fetching, run_task}
use cpp_client_sdk.Client.Tasks.Answers.{load_user_created, Fetched, CanRequest}
use cpp_client_sdk.Client.Tasks.Shown.{run_answered, finish_update_sets}
use cpp_client_sdk.Client.Tasks.Values.{fetched_result, fetched_store, latest_result_updates}
use cpp_client_sdk.Details.{cache, DataAdapterResult}
use cpp_client_sdk.Evaluation.{InitializeResponse}
use cpp_client_sdk.Files.{CacheDirectory}
use cpp_client_sdk.Http.{HttpResponse}
use cpp_client_sdk.Json.InitializeResponse.{deserialize_response}
use cpp_client_sdk.Json.Requests.{data_adapter_result_to_json, serialize_data_adapter_result}
use cpp_client_sdk.JsonLib.{JsonLib, ◌>>=◌, bind_cases}
use cpp_client_sdk.JsonLib.Laws.{IsInt64, JsonLaws, IsPrintable}
use cpp_client_sdk.Network.{has_success_code}
use cpp_client_sdk.Prelude.{
  ℕ, String, ◌≡◌, refl, sym, ap, ◌∙◌, ◌≢◌, inl, inr, true, false, Option, none, some,
  some-injective, List, if◌then◌else◌, ℤ, pos, eqb_ℤ,
}
use cpp_client_sdk.Result.{code_ok, code_eq, StatsigResult, succeed}
use cpp_client_sdk.Store.{EvaluationStore}
use cpp_client_sdk.Store.Lifecycle.{answer_of}
use cpp_client_sdk.User.{StatsigUser, StatsigOptions, MapOrder, normalize_user}

abbrev pub cached_store : ⦃J : JsonLib⦄ → InitializeResponse → ℤ → EvaluationStore
cached_store v received_at = record {
  values = some v;
  source_info = record { source = cache; lcut = v.time; received_at = received_at };
}

module _ ⦃J : JsonLib⦄ (eb_api : String) (trace : List String) where
  -- What the next session reads for the user, once the result of a fetch was delivered.
  next_reads :
      ⦃o : MapOrder⦄ (laws : JsonLaws J) (f : Fetching) (user : StatsigUser) (a : DataAdapter)
      (c c' : StatsigContext) (text : String)
      → a.directory.is_created ≡ true
      → IsInt64 f.received_at
      → IsPrintable J (data_adapter_result_to_json (fetched_result text f.received_at user))
      → Fetched f user a c c' (succeed (fetched_result text f.received_at user))
      → (get_data_sync (next_session a.sdk_key c'.data_adapter.directory) user).1
        ≡ succeed (record (fetched_result text f.received_at user) { source = cache })
  next_reads laws f user a c c' text there h printable fetched =
      let r = fetched_result text f.received_at user in
      let (delivery, delivered, reads) =
        get_data_sync-deliver_latest laws f.written_at a user r there h printable in
      let same : fetched.delivery ≡ delivery =
        some-injective _ _ (sym fetched.delivered ∙ delivered) in
      ap (λ d. (get_data_sync (next_session a.sdk_key d) user).1)
        (fetched.directory ∙ ap (after_write f.written_at) same)
      ∙ reads

  -- A start for which GetDataSync reads a result that parses.
  next_starts :
      (started finished : ℤ) (directory : CacheDirectory) (sdk_key : String) (user : StatsigUser)
      (options : StatsigOptions) (client : Option StatsigContext) (r : DataAdapterResult)
      (v : InitializeResponse)
      → sdk_key ≢ ""
      → deserialize_response r.values_str ≡ succeed v
      → (get_data_sync (next_session sdk_key directory) (normalize_user user options)).1 ≡ succeed r
      → (next : StatsigContext) × (initialize_sync eb_api trace started finished directory sdk_key
            (some user)
            (some options)
            client
          ≡ (some next, code_ok, some (prefetch_task (some r))))
        × (next.store ≡ record {
          values = some v;
          source_info = record { source = r.source; lcut = v.time; received_at = r.received_at };
        })
        × (next.user ≡ normalize_user user options)
  unfolding new_context
  next_starts started finished directory sdk_key user options client r v keyed parsed read =
      elim (initialize_sync_cases eb_api trace started finished directory sdk_key (some user)
        (some options) client) [
          | inl (empty, _) ↦ absurd (keyed empty)
          | inr (next, done, _, own, stored) ↦ (
            next,
            done
                ∙ ap
                    (λ (t : StatsigResult DataAdapterResult).
                      (some next, t.code, some (prefetch_task t.value)))
                    read,
            stored
                ∙ ap
                    (λ (t : StatsigResult DataAdapterResult).
                      answer_of (if code_eq t.code code_ok then t.value else none))
                    read
                ∙ rw (parsed, answer_of) refl,
            own,
          )
        ]

  -- The start of a session after one in which a fetch for the user was delivered.
  pub next_shows :
      ⦃o : MapOrder⦄ (laws : JsonLaws J) (f : Fetching) (user : StatsigUser)
      (options : StatsigOptions) (sdk_key : String) (a : DataAdapter) (c c' : StatsigContext)
      (text : String) (v : InitializeResponse) (started finished : ℤ)
      (client : Option StatsigContext)
      → let current = normalize_user user options in
        let result = fetched_result text f.received_at current in
        a.directory.is_created ≡ true
        → a.sdk_key ≡ sdk_key
        → sdk_key ≢ ""
        → deserialize_response text ≡ succeed v
        → IsInt64 f.received_at
        → IsPrintable J (data_adapter_result_to_json result)
        → Fetched f current a c c' (succeed result)
        → (next : StatsigContext) × (left : BackgroundTask) × (initialize_sync eb_api trace started
              finished c'.data_adapter.directory sdk_key
              (some user)
              (some options)
              client
            ≡ (some next, code_ok, some left))
          × (next.store ≡ cached_store v f.received_at)
          × (next.user ≡ current)
  next_shows laws f user options sdk_key a c c' text v started finished client there same keyed
        parsed h printable fetched =
      let current = normalize_user user options in
      let result = record (fetched_result text f.received_at current) { source = cache } in
      let read = next_reads laws f current a c c' text there h printable fetched in
      let (next, done, stored, own) =
        next_starts started finished c'.data_adapter.directory sdk_key user options client result v
          keyed parsed
          (ap (λ k. (get_data_sync (next_session k c'.data_adapter.directory) current).1) (sym same)
            ∙ read) in
      (next, prefetch_task (some result), done, stored, own)

  -- A result that can be printed can be written.
  pub IsPrintable-CanWrite :
      (r : DataAdapterResult) → IsPrintable J (data_adapter_result_to_json r) → CanWrite (succeed r)
  unfolding serialize_data_adapter_result
  IsPrintable-CanWrite r printable q given fresh =
      let (text, printed, _) =
        bind_cases (J.dump (data_adapter_result_to_json r)) J.parse _ printable in
      (
        text,
        ap (λ x. serialize_data_adapter_result x) (some-injective _ _ (sym given))
            ∙ ap (λ o. o >>= λ t. some (succeed t)) printed,
      )

  pub loaded_adapter :
      (user : StatsigUser) (c : StatsigContext)
      → let (loaded, found) = load_user user c in
        (current_or_read loaded.data_adapter loaded.user found.value).0.sdk_key
        ≡ c.data_adapter.sdk_key
  unfolding load_user
  loaded_adapter user c =
      let (loaded, found) = load_user user c in
      current_or_read_key loaded.data_adapter loaded.user found.value
      ∙ get_data_sync_key c.data_adapter loaded.user

  -- What one session fetches is what it then shows and what the next one starts with: if the cache
  -- directory is there, the server answers every post with a success other than 204 whose text parses
  -- to values with updates, the JSON library can print the request for the user and the result, the
  -- time is of 64 bits and the SDK key is not empty, then the task of an asynchronous update, on a context that is held throughout, gives the caller's callback Ok and leaves these values
  -- in the store, with the source Network; and a client that InitializeSync makes after it with the same
  -- directory, SDK key, user and options answers Ok and shows them too, with the source Cache.
  pub run_task-initialize_sync :
      ⦃o : MapOrder⦄ (laws : JsonLaws J) (f : Fetching) (user : StatsigUser) (c : StatsigContext)
      (r : HttpResponse) (v : InitializeResponse) (started finished : ℤ)
      (client : Option StatsigContext)
      → c.data_adapter.directory.is_created ≡ true
      → c.data_adapter.sdk_key ≢ ""
      → CanRequest f (normalize_user user c.options)
      → ((body : String) (n : ℕ) → (f.respond body n).answer ≡ r)
      → has_success_code (some r) ≡ true
      → eqb_ℤ r.status (pos 204) ≡ false
      → deserialize_response r.text ≡ succeed v
      → v.has_updates ≡ true
      → IsInt64 f.received_at
      → IsPrintable J (
          data_adapter_result_to_json
            (fetched_result r.text f.received_at (normalize_user user c.options)))
      → let (updated, task) = update_user_async eb_api trace user c in
        (c' : StatsigContext) × (next : StatsigContext) × (left : BackgroundTask) × (run_task eb_api
            trace f true true task updated
          ≡ some (c', some code_ok))
        × (c'.store ≡ fetched_store v f.received_at)
        × (initialize_sync eb_api trace started finished c'.data_adapter.directory
              c.data_adapter.sdk_key
              (some user)
              (some c.options)
              client
            ≡ (some next, code_ok, some left))
        × (next.store ≡ cached_store v f.received_at)
        × (next.user ≡ normalize_user user c.options)
  unfolding load_user finish_update report
  run_task-initialize_sync laws f user c r v started finished client there keyed requests server
        good full parsed updates h printable =
      let (loaded, found) = load_user user c in
      let a = (current_or_read loaded.data_adapter loaded.user found.value).0 in
      let result = fetched_result r.text f.received_at loaded.user in
      let (c', ran, fetched) =
        run_answered eb_api trace f user c r (succeed result) there requests
          (IsPrintable-CanWrite result printable) server
          (λ d.
            latest_result_updates d f.now f.later f.received_at loaded.user _ r v good full parsed
              updates) in
      let (next, left, done, stored, own) =
        next_shows laws f user c.options c.data_adapter.sdk_key a loaded c' r.text v started
          finished client
          (current_or_read_created loaded.data_adapter loaded.user found.value
            (load_user_created user c there))
          (loaded_adapter user c) keyed parsed h printable fetched in
      (
        (finish_update eb_api trace loaded.user (succeed result) c').0,
        next,
        left,
        ran,
        finish_update_sets eb_api trace result v loaded.user c' fetched.user_kept parsed,
        done,
        stored,
        own,
      )

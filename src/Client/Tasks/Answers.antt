-- ===== src/Client/Tasks/Answers.antt =====
-- That the background task of UpdateUserAsync runs to its end, and when its callback is called.
use cpp_client_sdk.Adapter.{DataAdapter, latest_result, Delivery, deliver_latest}
use cpp_client_sdk.Adapter.Async.{current_or_read, CanWrite, get_data_async_answers}
use cpp_client_sdk.Adapter.Keeps.{get_data_sync_created}
use cpp_client_sdk.Adapter.Sessions.{after_write}
use cpp_client_sdk.Client.{
  StatsigContext, update_task, load_user, finalize_store, report, update_user_async, finish_update,
}
use cpp_client_sdk.Client.Tasks.{Fetching, fetch_data, answer_update, run_task}
use cpp_client_sdk.Client.Tasks.Values.{CanKeep, latest_result-CanWrite}
use cpp_client_sdk.Client.Updates.{update_user_async_loads}
use cpp_client_sdk.Details.{DataAdapterResult}
use cpp_client_sdk.Diagnostics.{Diagnostics}
use cpp_client_sdk.Http.{HttpResponse}
use cpp_client_sdk.Json.Requests.{serialize_initialize_args}
use cpp_client_sdk.JsonLib.{JsonLib}
use cpp_client_sdk.Network.{Posted, initialize_args, handle_fetch_values_response}
use cpp_client_sdk.Prelude.{
  ℕ, String, ◌≡◌, refl, sym, ap, ◌∙◌, Bool, true, false, ◌&&◌, Option, none, some, List, arith,
  if◌then◌else◌, has_value,
}
use cpp_client_sdk.Result.{StatsigResultCode, StatsigResult, succeed}
use cpp_client_sdk.User.{StatsigUser, MapOrder, normalize_user}
use mathlib.Core.Path.{subst}

module _ ⦃J : JsonLib⦄ where
  -- A context whose cache directory is there keeps it while a user is loaded.
  pub load_user_created :
      (user : StatsigUser) (c : StatsigContext)
      → c.data_adapter.directory.is_created ≡ true
      → (load_user user c).0.data_adapter.directory.is_created ≡ true
  unfolding load_user
  load_user_created user c there =
      get_data_sync_created c.data_adapter (normalize_user user c.options) there

  -- A fetch for the user from the context ends with the result for the caller, and in the context that
  -- holds what the delivery of the result leaves.
  pub record Fetched (f : Fetching) (user : StatsigUser) (a : DataAdapter) (c c' : StatsigContext)
      (latest : StatsigResult DataAdapterResult) : Type 0 where
    pub delivery : Delivery
    pub delivered : deliver_latest a user latest ≡ some delivery
    pub directory : c'.data_adapter.directory ≡ after_write f.written_at delivery
    pub user_kept : c'.user ≡ c.user
    pub store_kept : c'.store ≡ c.store

  -- The JSON library can print the request for the user, whatever result it is made with.
  abbrev pub CanRequest : ⦃o : MapOrder⦄ → Fetching → StatsigUser → Type 0
  CanRequest f user =
      (cached : Option DataAdapterResult)
      → (body : String) × (serialize_initialize_args (initialize_args user cached f.metadata)
          ≡ some (succeed body))

  pub fetch_data_answers :
      ⦃o : MapOrder⦄ (f : Fetching) (user : StatsigUser) (current : Option DataAdapterResult)
      (c : StatsigContext)
      → c.data_adapter.directory.is_created ≡ true
      → CanRequest f user
      → let (a, cached) = current_or_read c.data_adapter user current in
        ((p : Posted) (body : String)
          → p.answer ≡ (f.respond body p.attempt).answer
          → CanWrite (
              latest_result f.received_at user cached
                (handle_fetch_values_response p.diagnostics f.now f.later (some p.answer)).1))
        → (c' : StatsigContext) × (p : Posted) × (body : String) × (p.answer
            ≡ (f.respond body p.attempt).answer)
          × (let latest =
                latest_result f.received_at user cached
                  (handle_fetch_values_response p.diagnostics f.now f.later (some p.answer)).1 in
              (fetch_data f user current c ≡ some (c', some latest)) × Fetched f user a c c' latest)
  unfolding fetch_data
  fetch_data_answers f user current c there requests writes =
      let (body, printed) = requests (current_or_read c.data_adapter user current).1 in
      let (diagnostics, delivery, p, ran, last, (delivered, answered)) =
        get_data_async_answers f.respond f.now f.later f.received_at f.delivered_at f.metadata user
          current c.data_adapter c.logger.diagnostics body there printed (λ p e. writes p body e) in
      (
        record c {
          logger = record c.logger { diagnostics = diagnostics };
          data_adapter = record delivery.adapter { directory = after_write f.written_at delivery };
        },
        p,
        body,
        last,
        (
          rw (ran, answered) refl,
          record {
            delivery = delivery;
            delivered = delivered;
            directory = refl;
            user_kept = refl;
            store_kept = refl;
          },
        ),
      )

  -- A fetch from a server that gives every post the same response.
  pub fetch_data_answered :
      ⦃o : MapOrder⦄ (f : Fetching) (user : StatsigUser) (current : Option DataAdapterResult)
      (c : StatsigContext) (r : HttpResponse) (latest : StatsigResult DataAdapterResult)
      → c.data_adapter.directory.is_created ≡ true
      → CanRequest f user
      → CanWrite latest
      → ((body : String) (n : ℕ) → (f.respond body n).answer ≡ r)
      → ((d : Diagnostics)
          → latest_result f.received_at user
              (current_or_read c.data_adapter user current).1
              (handle_fetch_values_response d f.now f.later (some r)).1
            ≡ latest)
      → (c' : StatsigContext) × (fetch_data f user current c ≡ some (c', some latest))
        × Fetched f user (current_or_read c.data_adapter user current).0 c c' latest
  fetch_data_answered f user current c r latest there requests writes server made =
      let cached = (current_or_read c.data_adapter user current).1 in
      let is_latest : (p : Posted) (body : String)
          → p.answer ≡ (f.respond body p.attempt).answer
          → latest_result f.received_at user cached
              (handle_fetch_values_response p.diagnostics f.now f.later (some p.answer)).1
            ≡ latest =
        λ p body last.
          ap
            (λ a.
              latest_result f.received_at user cached
                (handle_fetch_values_response p.diagnostics f.now f.later (some a)).1)
            (last ∙ server body p.attempt)
          ∙ made p.diagnostics in
      let (c', p, body, last, (ran, fetched)) =
        fetch_data_answers f user current c there requests
          (λ p body last. subst CanWrite (sym (is_latest p body last)) writes) in
      let same = is_latest p body last in
      (c', ran ∙ ap (λ l. some (c', some l)) same, rw (← same) fetched)

  module _ (eb_api : String) (trace : List String) where
    answer_update_cases :
        ⦃o : MapOrder⦄ (is_held : Bool) (initiator : StatsigUser)
        (result : StatsigResult DataAdapterResult) (c : StatsigContext)
        → let (c', code) = answer_update eb_api trace is_held initiator (some result) c in
          (code ≡ (if is_held then some result.code else none)) × (c'.user ≡ c.user)
    unfolding answer_update finish_update finalize_store report
    answer_update_cases true initiator result c = (refl, refl)
    answer_update_cases false initiator result c = (refl, refl)

    -- The task of an update, wherever it is run.
    run_update :
        ⦃o : MapOrder⦄ (f : Fetching) (is_held stays_held : Bool) (initiator : StatsigUser)
        (current : Option DataAdapterResult) (c : StatsigContext)
        → c.data_adapter.directory.is_created ≡ true
        → CanRequest f initiator
        → CanKeep f.received_at initiator
        → (c' : StatsigContext) × (code : Option StatsigResultCode) × (run_task eb_api trace f
              is_held stays_held
              (update_task initiator current)
              c
            ≡ some (c', code))
          × (has_value code ≡ is_held && stays_held)
          × (c'.user ≡ c.user)
    unfolding run_task
    run_update f false stays_held initiator current c there requests keeps =
        (c, none, refl, refl, refl)
    run_update f true stays_held initiator current c there requests keeps =
        let cached = (current_or_read c.data_adapter initiator current).1 in
        let (c', p, _, _, (ran, kept)) =
          fetch_data_answers f initiator current c there requests (λ p body last.
            latest_result-CanWrite p.diagnostics f.now f.later f.received_at initiator cached
              p.answer keeps) in
        let latest =
          latest_result f.received_at initiator cached
            (handle_fetch_values_response p.diagnostics f.now f.later (some p.answer)).1 in
        let finished = answer_update eb_api trace stays_held initiator (some latest) c' in
        let (code, same) = answer_update_cases stays_held initiator latest c' in
        (
          finished.0,
          finished.1,
          rw ran refl,
          ap has_value code ∙ ground arith,
          same ∙ kept.user_kept,
        )

    -- If the cache directory is there, and the JSON library can print the request for the user and the
    -- result of any response that parses, then the task of an asynchronous update runs to its end,
    -- whatever the server answers, and the caller's callback is called exactly if the context is still
    -- held both when the task begins and when the answer comes.
    pub run_task_calls_back :
        ⦃o : MapOrder⦄ (f : Fetching) (is_held stays_held : Bool) (user : StatsigUser)
        (c : StatsigContext)
        → c.data_adapter.directory.is_created ≡ true
        → CanRequest f (normalize_user user c.options)
        → CanKeep f.received_at (normalize_user user c.options)
        → let (loaded, task) = update_user_async eb_api trace user c in
          (c' : StatsigContext) × (code : Option StatsigResultCode) × (run_task eb_api trace f
              is_held stays_held task loaded
            ≡ some (c', code))
          × (has_value code ≡ is_held && stays_held)
          × (c'.user ≡ normalize_user user c.options)
    unfolding load_user
    run_task_calls_back f is_held stays_held user c there requests keeps =
        let (loaded, result) = load_user user c in
        let (c', code, ran, called, kept) =
          run_update f is_held stays_held loaded.user result.value loaded
            (load_user_created user c there) requests keeps in
        (
          c',
          code,
          ap (λ u. run_task eb_api trace f is_held stays_held u.1 u.0)
                (update_user_async_loads eb_api trace user c)
              ∙ ran,
          called,
          kept,
        )

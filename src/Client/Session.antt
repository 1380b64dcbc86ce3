-- ===== src/Client/Session.antt =====
-- The start and the end of a session: InitializeSync, Flush and Shutdown.
use cpp_client_sdk.Adapter.{new_adapter, attach, get_data_sync}
use cpp_client_sdk.Client.{
  StatsigContext, BackgroundTask, prefetch_task, ensure_initialized, report, captured,
  update_user_sync, add_report,
}
use cpp_client_sdk.Client.Updates.{update_user_sync-store}
use cpp_client_sdk.Diagnostics.{overall_start, overall_end, new_diagnostics, mark}
use cpp_client_sdk.Dict.{Dict}
use cpp_client_sdk.ErrorBoundary.{new_boundary}
use cpp_client_sdk.ErrorBoundary.Reports.{capture_ok, capture_dangling}
use cpp_client_sdk.EventLogger.{get_max_buffer_size, new_logger, flush, shutdown}
use cpp_client_sdk.EventLogger.Batches.{logged_only, flatten, all_events, shutdown_empties}
use cpp_client_sdk.Files.{CacheDirectory}
use cpp_client_sdk.Http.{shutdown_timeout_extra}
use cpp_client_sdk.JsonLib.{JsonLib}
use cpp_client_sdk.Prelude.{
  String, ◌≡◌, refl, ◌⊎◌, inl, inr, Bool, true, false, ◌&&◌, not, Option, none, some, List, [], ◌∷◌,
  arith, if◌then◌else◌, Bool-cases, value_or, ℤ, pos, ltb_ℤ,
}
use cpp_client_sdk.Result.{
  StatsigResultCode, code_ok, invalid_sdk_key, shutdown_failure_dangling_threads, code_eq,
}
use cpp_client_sdk.Store.{new_store, get_source_details}
use cpp_client_sdk.Store.Lifecycle.{answer_of}
use cpp_client_sdk.Text.{to_string_ℤ, str_eq, eq_iff}
use cpp_client_sdk.User.{StatsigUser, empty_user, StatsigOptions, default_options, normalize_user}

-- constants::kShutdownTimeoutErrorThresholdMs.
abbrev shutdown_timeout_error_threshold_ms : ℤ
shutdown_timeout_error_threshold_ms = pos 2000

module _ ⦃J : JsonLib⦄ where
  -- StatsigContext(sdk_key, user, options), with the adapter of the SDK attached.
  unfoldable pub new_context :
      CacheDirectory → String → Option StatsigUser → Option StatsigOptions → StatsigContext
  new_context directory sdk_key user options =
      let actual = value_or options default_options in
      record {
        sdk_key = sdk_key;
        user = value_or user empty_user;
        options = actual;
        err_boundary = new_boundary sdk_key;
        store = new_store;
        logger = new_logger (get_max_buffer_size actual) new_diagnostics;
        data_adapter = attach sdk_key (new_adapter directory);
        reports = [];
      }

  unfoldable pub mark_context : J.Ordered → StatsigContext → StatsigContext
  mark_context marker c = record c {
    logger = record c.logger { diagnostics = mark c.logger.diagnostics marker };
  }

  module _ (eb_api : String) (trace : List String) where
    -- The task of InitializeSync on a new context; `started` and `finished` are when its markers are
    -- made. The user that is passed on is a reference to the user of the context, which is normalized
    -- by the time that SetUser reads it.
    run_initialize : ℤ → ℤ → StatsigContext → StatsigContext × StatsigResultCode × BackgroundTask
    unfolding mark_context
    run_initialize started finished c =
        let (updated, code, task) =
          update_user_sync eb_api trace (normalize_user c.user c.options)
            (mark_context (overall_start started) c) in
        let ended =
          mark_context (overall_end finished code (get_source_details updated.store)) updated in
        (captured eb_api trace ended "InitializeSync" code, code, task)

    -- The client, the code and the task for the background, if there is one.
    pub initialize_sync :
        ℤ
        → ℤ
        → CacheDirectory
        → String
        → Option StatsigUser
        → Option StatsigOptions
        → Option StatsigContext
        → Option StatsigContext × StatsigResultCode × Option BackgroundTask
    unfolding run_initialize new_context
    initialize_sync started finished directory sdk_key user options client =
        let (c, code, task) =
          run_initialize started finished (new_context directory sdk_key user options) in
        if str_eq sdk_key "" then (client, invalid_sdk_key, none) else (some c, code, some task)

    pub flush_client : ℤ → Option StatsigContext → Option StatsigContext
    flush_client now none = none
    flush_client now (some c) =
        let flushed = record c { logger = flush now c.logger } in
        if ensure_initialized (some c)
        then some (captured eb_api trace flushed "Flush" code_ok)
        else some c

    -- Shutdown of an initialized client: the context that is dropped then, and the code. Whether the
    -- threads ended in time, and after how many milliseconds, is an argument.
    pub shutdown_client : ℤ → Bool → ℤ → StatsigContext → StatsigContext × StatsigResultCode
    shutdown_client now thread_shutdown duration c =
        let closed = record c { logger = shutdown now c.logger } in
        let extra : Dict String = (shutdown_timeout_extra, to_string_ℤ duration) ∷ [] in
        let late = not thread_shutdown && ltb_ℤ shutdown_timeout_error_threshold_ms duration in
        let reported =
          report eb_api trace closed "Shutdown" shutdown_failure_dangling_threads (some extra) in
        let code = if thread_shutdown then code_ok else shutdown_failure_dangling_threads in
        (captured eb_api trace (if late then reported else closed) "Shutdown" code, code)

  ensure_initialized_key :
      (c : StatsigContext) (sdk_key : String)
      → c.sdk_key ≡ sdk_key
      → str_eq sdk_key "" ≡ false
      → ensure_initialized (some c) ≡ true
  unfolding ensure_initialized
  ensure_initialized_key c sdk_key same given = rw (same, given) refl

  module _ (eb_api : String) (trace : List String) where
    run_initialize-update :
        (started finished : ℤ) (c : StatsigContext)
        → let done = run_initialize eb_api trace started finished c in
          let current = normalize_user c.user c.options in
          let found = (get_data_sync c.data_adapter current).1 in
          (done.0.store ≡ answer_of (if code_eq found.code code_ok then found.value else none))
          × (done.0.user ≡ current)
          × (done.1 ≡ found.code)
          × (done.2 ≡ prefetch_task found.value)
          × (done.0.sdk_key ≡ c.sdk_key)
    unfolding run_initialize captured update_user_sync normalize_user
    run_initialize-update started finished c =
        let (stored, own, answered, left) =
          update_user_sync-store eb_api trace (normalize_user c.user c.options)
            (mark_context (overall_start started) c) in
        (stored, own, answered, left, refl)

    -- With an empty key initialization answers InvalidSdkKey and leaves the client as it is. With
    -- another key, whatever client there was, it leaves an initialized one for the given user (or
    -- the empty one) in the environment of the options, with the values that the cache directory
    -- holds for the user, and answers the code of that read.
    pub initialize_sync_cases :
        (started finished : ℤ) (directory : CacheDirectory) (sdk_key : String)
        (user : Option StatsigUser) (options : Option StatsigOptions)
        (client : Option StatsigContext)
        → let done =
            initialize_sync eb_api trace started finished directory sdk_key user options client in
          let fresh = new_context directory sdk_key user options in
          let current = normalize_user (value_or user empty_user) fresh.options in
          let found = (get_data_sync fresh.data_adapter current).1 in
          ((sdk_key ≡ "") × (done ≡ (client, invalid_sdk_key, none)))
          ⊎ ((c : StatsigContext) × (done ≡ (some c, found.code, some (prefetch_task found.value)))
              × (ensure_initialized (some c) ≡ true)
              × (c.user ≡ current)
              × (c.store ≡ answer_of (if code_eq found.code code_ok then found.value else none)))
    unfolding initialize_sync
    initialize_sync_cases started finished directory sdk_key user options client =
        let fresh = new_context directory sdk_key user options in
        let c = (run_initialize eb_api trace started finished fresh).0 in
        let (stored, own, answered, left, key) = run_initialize-update started finished fresh in
        elim (Bool-cases (str_eq sdk_key "")) [
          | inl empty ↦ inl ((eq_iff sdk_key "").0 empty, rw empty refl)
          | inr given ↦ inr (
            c,
            rw given (λ i. (some c, answered i, some (left i))),
            ensure_initialized_key c sdk_key key given,
            own,
            stored,
          )
        ]

    pub shutdown_client-logger :
        (now : ℤ) (thread_shutdown : Bool) (duration : ℤ) (c : StatsigContext)
        → (shutdown_client eb_api trace now thread_shutdown duration c).0.logger
          ≡ shutdown now c.logger
    unfolding shutdown_client captured report
    shutdown_client-logger now thread_shutdown duration c =
        go (not thread_shutdown && ltb_ℤ (pos 2000) duration)
      where
        go :
            (late : Bool)
            → (if late
                then report eb_api trace
                    (record c { logger = shutdown now c.logger })
                    "Shutdown"
                    shutdown_failure_dangling_threads
                    (some ((shutdown_timeout_extra, to_string_ℤ duration) ∷ []))
                else record c { logger = shutdown now c.logger }).logger
              ≡ shutdown now c.logger
        go true = refl
        go false = refl

    -- A shutdown empties the queue and loses no event: those that waited are handed to the
    -- background. It answers Ok exactly when the threads ended in time.
    pub shutdown_client_closes :
        (now : ℤ) (thread_shutdown : Bool) (duration : ℤ) (c : StatsigContext)
        → let (closed, code) = shutdown_client eb_api trace now thread_shutdown duration c in
          (closed.logger.events ≡ [])
          × (logged_only (flatten closed.logger.submitted) ≡ logged_only (all_events c.logger))
          × (code_eq code code_ok ≡ thread_shutdown)
    unfolding shutdown_client
    shutdown_client_closes now thread_shutdown duration c =
        rw (shutdown_client-logger now thread_shutdown duration c)
          ((shutdown_empties now c.logger).0, (shutdown_empties now c.logger).1, ground arith)

    -- A shutdown whose threads ended in time, or which took no more than two seconds, reports nothing
    -- to the error boundary.
    shutdown_client_quiet :
        (now : ℤ) (thread_shutdown : Bool) (duration : ℤ) (c : StatsigContext)
        → (thread_shutdown ≡ true) ⊎ (ltb_ℤ (pos 2000) duration ≡ false)
        → let closed = (shutdown_client eb_api trace now thread_shutdown duration c).0 in
          (closed.reports ≡ c.reports) × (closed.err_boundary ≡ c.err_boundary)
    unfolding shutdown_client captured report add_report
    shutdown_client_quiet now true duration c h =
        rw (capture_ok eb_api trace c.err_boundary "Shutdown") (refl, refl)
    shutdown_client_quiet now false duration c (inl h) = absurd cc
    shutdown_client_quiet now false duration c (inr h) =
        rw (h, capture_dangling eb_api trace c.err_boundary "Shutdown") (refl, refl)

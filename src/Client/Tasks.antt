-- ===== src/Client/Tasks.antt =====
-- The lambdas that UpdateUserSync and UpdateUserAsync of src/statsig/internal/statsig_client.cpp hand to
-- the background, run to their end: GetDataAsync, the write of its file, and the inner callback.
pub mod Answers
pub mod Shown
pub mod Values
pub mod NextSession
pub mod Prefetch
use cpp_client_sdk.Adapter.Async.{get_data_async}
use cpp_client_sdk.Adapter.Sessions.{after_write}
use cpp_client_sdk.Client.{
  StatsigContext, BackgroundTask, prefetch_task, update_task, finish_update,
}
use cpp_client_sdk.Details.{DataAdapterResult}
use cpp_client_sdk.Dict.{Dict}
use cpp_client_sdk.JsonLib.{JsonLib, ◌>>=◌}
use cpp_client_sdk.Network.{Exchange}
use cpp_client_sdk.Prelude.{ℕ, String, Bool, Option, none, some, List, if◌then◌else◌, ℤ}
use cpp_client_sdk.Result.{StatsigResultCode, StatsigResult}
use cpp_client_sdk.User.{StatsigUser, MapOrder}

pub record Fetching : Type 0 where
  pub respond : String → ℕ → Exchange
  pub now : ℤ
  pub later : ℤ
  pub received_at : ℤ
  pub written_at : ℤ
  pub delivered_at : ℤ
  pub metadata : Dict String

module _ ⦃J : JsonLib⦄ where
  -- GetDataAsync on the adapter of the context, with the write of the file, and what its callback is
  -- given.
  pub fetch_data :
      ⦃o : MapOrder⦄
      → Fetching
      → StatsigUser
      → Option DataAdapterResult
      → StatsigContext
      → Option (StatsigContext × Option (StatsigResult DataAdapterResult))
  fetch_data f user current c =
      get_data_async f.respond f.now f.later f.received_at f.delivered_at f.metadata user current
        c.data_adapter c.logger.diagnostics
      >>= λ fetched.
          let (diagnostics, delivery) = fetched in
          some (
            record c {
              logger = record c.logger { diagnostics = diagnostics };
              data_adapter = record delivery.adapter {
                directory = after_write f.written_at delivery;
              };
            },
            delivery.answer,
          )

  module _ (eb_api : String) (trace : List String) where
    -- The inner callback of UpdateUserAsync, if it is called and the context is still held: the context,
    -- and the code that the caller's callback is given.
    pub answer_update :
        ⦃o : MapOrder⦄
        → Bool
        → StatsigUser
        → Option (StatsigResult DataAdapterResult)
        → StatsigContext
        → StatsigContext × Option StatsigResultCode
    unfolding finish_update
    answer_update is_held initiator none c = (c, none)
    answer_update is_held initiator (some result) c =
        let (finished, code) = finish_update eb_api trace initiator result c in
        if is_held then (finished, some code) else (c, none)

    -- A background task on a context of which `is_held` says whether some pointer still owns it when
    -- the task begins, and `stays_held` when its callback is called. `none` is a filesystem exception
    -- of the delivery, which ends in the Capture of FetchValues.
    pub run_task :
        ⦃o : MapOrder⦄
        → Fetching
        → Bool
        → Bool
        → BackgroundTask
        → StatsigContext
        → Option (StatsigContext × Option StatsigResultCode)
    unfolding fetch_data answer_update
    run_task f is_held stays_held (prefetch_task current) c =
        let ran = fetch_data f c.user current c >>= λ fetched. some (fetched.0, none) in
        if is_held then ran else some (c, none)
    run_task f is_held stays_held (update_task initiator current) c =
        let ran = fetch_data f initiator current c >>= λ fetched.
        some (answer_update stays_held initiator fetched.1 fetched.0) in
        if is_held then ran else some (c, none)

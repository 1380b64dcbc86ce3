-- ===== src/EventLogger/Background.antt =====
-- What a new logger of src/statsig/internal/event_logger.hpp hands to the background: the retry of failed
-- batches, and the timer and platform callbacks that flush. Each holds the logger by a weak pointer
-- that it copies when it is started.
use cpp_client_sdk.EventLogger.{EventLogger, flush}
use cpp_client_sdk.EventLogger.Batches.{logged_only, all_events, flush_impl-logged}
use cpp_client_sdk.EventLogger.Retry.{Network, retry_failed_events, retry_failed_events-false}
use cpp_client_sdk.Files.{CacheDirectory}
use cpp_client_sdk.JsonLib.{JsonLib}
use cpp_client_sdk.Prelude.{
  ℕ, String, ◌≡◌, refl, ◌∙◌, Bool, true, false, Option, none, some, List, [], ◌∷◌, ◌++◌,
  if◌then◌else◌, value_or, ℤ, pos,
}
use cpp_client_sdk.User.{StatsigOptions}

-- options.logging_interval_ms.value_or(kLoggingIntervalMs).
pub get_logging_interval_ms : StatsigOptions → ℤ
get_logging_interval_ms options = value_or options.logging_interval_ms (pos 10000)

-- What std::enable_shared_from_this keeps in a logger, and a pointer to it: the control block of the
-- shared pointers that own it, if there is one.
pub record SharedFromThis : Type 0 where
  pub weak_this : Option ℕ

abbrev pub WeakLogger : Type 0
WeakLogger = Option ℕ

-- A new object has no control block; a shared pointer that takes it over writes its own.
abbrev pub new_shared_from_this : SharedFromThis
new_shared_from_this = record { weak_this = none }

pub adopt : ℕ → SharedFromThis → SharedFromThis
adopt block o = record o { weak_this = some block }

pub weak_from_this : SharedFromThis → WeakLogger
weak_from_this o = o.weak_this

-- Whether lock() gives the logger, with the control blocks that still own their object.
pub lock : (ℕ → Bool) → WeakLogger → Bool
lock is_owned none = false
lock is_owned (some block) = is_owned block

-- A task of a logger, with its weak pointer.
pub data LoggerTask : Type 0 where
  retries : WeakLogger → LoggerTask
  flushes_every : WeakLogger → ℤ → LoggerTask

-- RetryFailedEvents and StartBackgroundFlusher, as they are called on an object. The platform
-- callbacks are dropped by the helper that they are registered with.
pub start_tasks : SharedFromThis → StatsigOptions → List LoggerTask
unfolding get_logging_interval_ms weak_from_this
start_tasks o options =
    retries (weak_from_this o)
    ∷ flushes_every (weak_from_this o) (get_logging_interval_ms options)
    ∷ []

-- EventLogger::Create: the constructor runs and starts its tasks, and then the shared pointer takes the
-- object over.
pub create_tasks : ℕ → StatsigOptions → List LoggerTask × SharedFromThis
unfolding start_tasks adopt
create_tasks block options = let o = new_shared_from_this in (start_tasks o options, adopt block o)

module _ ⦃J : JsonLib⦄ where
  -- The task of the timer and of the platform callbacks.
  pub background_flush : Bool → ℤ → EventLogger → EventLogger
  background_flush is_alive now l = let flushed = flush now l in if is_alive then flushed else l

  pub flush_at : Bool → List ℤ → EventLogger → EventLogger
  unfolding background_flush
  flush_at is_alive [] l = l
  flush_at is_alive (now ∷ times) l = flush_at is_alive times (background_flush is_alive now l)

  -- The tasks run while the given control blocks own their objects, the timer at the given times: the
  -- logger, the directory and the texts to write.
  pub run_tasks :
      (ℕ → Bool)
      → Option Network
      → String
      → List ℤ
      → List LoggerTask
      → EventLogger
      → CacheDirectory
      → EventLogger × CacheDirectory × List (String × String)
  unfolding flush_at lock
  run_tasks is_owned net sdk_key times [] l d = (l, d, [])
  run_tasks is_owned net sdk_key times (retries weak ∷ ts) l d =
      let (d', writes) = retry_failed_events (lock is_owned weak) net d sdk_key in
      let (l', d'', more) = run_tasks is_owned net sdk_key times ts l d' in
      (l', d'', writes ++ more)
  run_tasks is_owned net sdk_key times (flushes_every weak ms ∷ ts) l d =
      run_tasks is_owned net sdk_key times ts (flush_at (lock is_owned weak) times l) d

  flush_at-false : (times : List ℤ) (l : EventLogger) → flush_at false times l ≡ l
  unfolding flush_at background_flush
  flush_at-false [] l = refl
  flush_at-false (now ∷ times) l = flush_at-false times l

  -- The constructor starts its tasks before a shared pointer owns the logger. So, although the logger
  -- lives, they do nothing, whatever the network, the file of failed batches, the queue and the times
  -- at which the timer calls: no event is flushed, no batch is sent again, and the file stays. The same
  -- calls on the logger once it is owned start tasks that retry the batches of the file and flush.
  pub create_tasks_inert :
      (is_owned : ℕ → Bool) (block : ℕ) (net : Option Network) (sdk_key : String) (times : List ℤ)
      (options : StatsigOptions) (l : EventLogger) (d : CacheDirectory)
      → is_owned block ≡ true
      → let (tasks, o) = create_tasks block options in
        (run_tasks is_owned net sdk_key times tasks l d ≡ (l, d, []))
        × (run_tasks is_owned net sdk_key times (start_tasks o options) l d ≡ (
            let retried = retry_failed_events true net d sdk_key in
            (flush_at true times l, retried.0, retried.1 ++ [])))
  unfolding run_tasks create_tasks start_tasks adopt weak_from_this lock
  create_tasks_inert is_owned block net sdk_key times options l d owned =
      (rw (retry_failed_events-false net d sdk_key, flush_at-false times l) refl, rw owned refl)

  -- On a logger that is owned the timer hands every queued event to the background, in order.
  flush_at-logged :
      (times : List ℤ) (l : EventLogger)
      → logged_only (all_events (flush_at true times l)) ≡ logged_only (all_events l)
  unfolding flush_at background_flush
  flush_at-logged [] l = refl
  flush_at-logged (now ∷ times) l =
      flush_at-logged times (flush now l) ∙ unfold flush in (flush_impl-logged now l)

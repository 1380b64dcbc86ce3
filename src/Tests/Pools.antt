-- ===== src/Tests/Pools.antt =====
-- Tests of the thread pool, the timer, the registry of shared objects and the stable id.
use cpp_client_sdk.Async.{background_timer}
use cpp_client_sdk.Async.Timer.{Spaced, background_timer_total}
use cpp_client_sdk.Dict.{Dict, find}
use cpp_client_sdk.Files.{CacheDirectory, do_write}
use cpp_client_sdk.Prelude.{
  ℕ, ◌*◌, ◌%◌, ◌≤◌, String, ◌≡◌, refl, ◌⊎◌, Bool, true, false, none, some, List, [], ◌∷◌, ◌++◌,
  arith, leb, total, ℤ, pos,
}
use cpp_client_sdk.Shareable.{get_shared, get_instance, finish_gets, overlapping_gets}
use cpp_client_sdk.StableId.{new_stable_id, get_stable_id}
use cpp_client_sdk.StableId.Format.{get_stable_id_kept}
use cpp_client_sdk.Text.{str_eq}
use cpp_client_sdk.ThreadPool.{
  Worker, checking, dozing, asleep, exited, running, ThreadPool, Event, task_pushed, task_began,
  task_finished, pool_restarted, pool_stopped, silent, new_pool, reset_pool, push_task, nobody,
  notify_all, stop, settle_threads, turn, put, Turn, works, Step, turns, restarts, adds, stops,
  notifies, Trace, no_steps, and_then,
}
use cpp_client_sdk.ThreadPool.Drain.{is_ended}
use cpp_client_sdk.ThreadPool.Order.{pushed_by, began_by, finished_by, gather, Trace_order}
use cpp_client_sdk.ThreadPool.Progress.{MayGoOn, shutdown_ends}
use cpp_client_sdk.ThreadPool.Shutdown.{
  is_quiet, TaskStep, goes_on, task_adds, settle_threads_complete,
}

-- A pool of one thread.
abbrev pool_at : Bool → List ℕ → ℕ → List (Worker ℕ) → ThreadPool ℕ
pool_at is_running tasks completed_count workers = record {
  is_running = is_running;
  is_locked = false;
  tasks = tasks;
  completed_count = completed_count;
  threads = 1;
  workers = workers;
}

abbrev work_events : List (Event ℕ)
work_events = task_pushed 7 ∷ task_began 7 ∷ task_finished 7 ∷ []

-- The task 7 is added and run.
work : Trace Step (reset_pool 1 new_pool) work_events (pool_at true [] 0 (checking ∷ []))
unfolding reset_pool push_task turn
work = and_then (adds 7 refl (nobody (refl, tt))) (
    and_then
      (turns (works (pool_at true [] 0 (checking ∷ [])) checking (running 7) [] [] refl refl))
      (and_then
        (turns (works (pool_at true [] 0 (running 7 ∷ [])) (running 7) checking [] [] refl refl))
        no_steps))

-- A pool that is stopped while its worker runs the task 7.
abbrev begun_events : List (Event ℕ)
begun_events = task_pushed 7 ∷ task_began 7 ∷ []

begin : Trace Step (reset_pool 1 new_pool) begun_events (pool_at true [] 0 (running 7 ∷ []))
unfolding reset_pool push_task turn
begin = and_then (adds 7 refl (nobody (refl, tt))) (
    and_then
      (turns (works (pool_at true [] 0 (checking ∷ [])) checking (running 7) [] [] refl refl))
      no_steps)

-- The task adds the task 8; the worker runs it too, and ends.
abbrev close_events : List (Event ℕ)
close_events = task_pushed 8 ∷ task_finished 7 ∷ task_began 8 ∷ task_finished 8 ∷ silent ∷ []

-- A turn of the only worker.
alone :
    {p q : ThreadPool ℕ} {e : Event ℕ} (w v : Worker ℕ)
    → p.workers ≡ w ∷ []
    → turn p w ≡ some (q, e, v)
    → is_quiet e ≡ true
    → TaskStep p e (put q (v ∷ []))
alone {q = q} w v place h quiet = goes_on (turns (works q w v [] [] place h)) quiet

close :
    Trace TaskStep
      (stop (pool_at true [] 0 (running 7 ∷ [])))
      close_events
      (pool_at false [] 1 (exited ∷ []))
unfolding stop turn push_task
close = and_then (task_adds (adds 8 refl (nobody (refl, tt))) (omega arith)) (
    and_then
      (alone {q = pool_at false (8 ∷ []) 0 (running 7 ∷ [])} (running 7) checking refl refl refl)
      (and_then (alone {q = pool_at false [] 0 (checking ∷ [])} checking (running 8) refl refl refl)
        (and_then
          (alone {q = pool_at false [] 0 (running 8 ∷ [])} (running 8) checking refl refl refl)
          (and_then (alone {q = pool_at false [] 1 (checking ∷ [])} checking exited refl refl refl)
            no_steps))))

one_completed : (settle_threads (pool_at false [] 1 (exited ∷ []))).1 ≡ true
unfolding settle_threads
one_completed = refl

settle_threads_complete_example :
    ((pool_at false [] 1 (exited ∷ [])).tasks ≡ [])
    × ((f : ℕ → ℕ)
        → total f (gather finished_by (begun_events ++ close_events))
          ≡ total f (gather pushed_by (begun_events ++ close_events)))
settle_threads_complete_example =
    settle_threads_complete {n = 1} (omega arith) begin (refl, (refl, tt)) refl close one_completed

Trace_order_example : [] ++ gather pushed_by work_events ≡ gather began_by work_events ++ []
unfolding reset_pool
Trace_order_example = Trace_order work

-- A new pool is started, and its worker has a task to run.
started :
    Trace Step new_pool
      (pool_restarted ∷ task_pushed 7 ∷ [])
      (pool_at true (7 ∷ []) 0 (checking ∷ []))
unfolding reset_pool push_task
started = and_then (restarts 1) (and_then (adds 7 refl (nobody (refl, tt))) no_steps)

-- Once stopped it takes the task.
takes :
    Trace Turn
      (notify_all (stop (pool_at true (7 ∷ []) 0 (checking ∷ []))))
      (task_began 7 ∷ [])
      (pool_at false [] 0 (running 7 ∷ []))
unfolding notify_all stop turn
takes =
    and_then (works (pool_at false [] 0 (checking ∷ [])) checking (running 7) [] [] refl refl)
      no_steps

shutdown_ends_example :
    (1 ≤ 4)
    × ((total is_ended (pool_at false [] 0 (running 7 ∷ [])).workers ≡ 1)
        ⊎ MayGoOn (pool_at false [] 0 (running 7 ∷ [])))
shutdown_ends_example = shutdown_ends started refl takes

-- A worker that dozes off while the pool is stopped and notified is not woken: it sleeps, with no turn
-- of its own.
lost_wake_up :
    Trace Step new_pool
      (pool_restarted ∷ silent ∷ pool_stopped ∷ silent ∷ silent ∷ [])
      (pool_at false [] 0 (asleep ∷ []))
unfolding reset_pool turn stop notify_all
lost_wake_up = and_then (restarts 1) (
    and_then
      (turns (
        works (record (pool_at true [] 0 (checking ∷ [])) { is_locked = true }) checking dozing []
          [] refl refl))
      (and_then stops (
        and_then notifies (
          and_then (turns (works (pool_at false [] 0 (dozing ∷ [])) dozing asleep [] [] refl refl))
            no_steps))))

sleeper_has_no_turn : turn (pool_at false [] 0 (asleep ∷ [])) asleep ≡ none
unfolding turn
sleeper_has_no_turn = refl

-- A second shutdown counts the threads of no vector: after a first one that joined all it fails, and
-- after one that was given up before any thread ended it succeeds.
second_shutdown :
    ((settle_threads (settle_threads (pool_at false [] 1 (exited ∷ []))).0).1 ≡ false)
    × ((settle_threads (settle_threads (pool_at false [] 0 (running 7 ∷ []))).0).1 ≡ true)
unfolding settle_threads
second_shutdown = (refl, refl)

-- A clock that moves five milliseconds with each reading, and a flag that is up from the third.
abbrev sample_clock : ℕ → ℤ
sample_clock i = pos (5 * i)

abbrev sample_flag : ℕ → Bool
sample_flag i = leb 3 i

background_timer_total_example :
    (times : List ℤ) × (background_timer sample_flag sample_clock (pos 5) 4 ≡ some times)
    × Spaced sample_flag sample_clock (pos 5) (pos 0) times
background_timer_total_example =
    background_timer_total sample_flag sample_clock (pos 5) 3 (λ j h. ground arith)
      (λ i. omega arith)

abbrev other_shared : Dict ℕ
other_shared = ("a_key", 7) ∷ []

none_shared : get_shared "client-key" other_shared ≡ none
unfolding get_shared find
none_shared = refl

overlapping_gets_example :
    let (got, after) =
      finish_gets "client-key"
        (get_shared "client-key" other_shared)
        ((1 ∷ []) ++ 2 ∷ [])
        other_shared in
    (got ≡ (1 ∷ []) ++ 2 ∷ [])
    × ((other : ℕ) → get_instance "client-key" other after ≡ (2, after))
    × ((key : String)
        → str_eq "client-key" key ≡ false
        → get_shared key after ≡ get_shared key other_shared)
overlapping_gets_example = overlapping_gets "client-key" (1 ∷ []) 2 other_shared none_shared

abbrev sample_draws : ℕ → ℕ
sample_draws i = i % 16

abbrev empty_directory : CacheDirectory
empty_directory = record { is_created = false; files = [] }

get_stable_id_kept_example :
    (let got = get_stable_id "an id" empty_directory new_stable_id in
      (get_stable_id "another" (do_write (pos 4) got.write got.directory) new_stable_id).id
      ≡ got.id)
get_stable_id_kept_example = get_stable_id_kept "an id" "another" (pos 4) empty_directory

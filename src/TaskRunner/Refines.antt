-- ===== src/TaskRunner/Refines.antt =====
-- The pool of src/statsig/internal/task_runner.hpp is that of src/statsig_compat/async/async_helper.hpp
-- without its counter.
use cpp_client_sdk.Prelude.{ℕ, ◌+◌, ◌≡◌, refl, some, List, ◌++◌, arith, total}
use cpp_client_sdk.TaskRunner.{
  TaskRunner, new_runner, add_task, stop_runner, wake_runner, runner_turn, RunnerStep, runner_turns,
  runner_rouses, runner_adds, runner_stops, runner_notifies,
}
use cpp_client_sdk.ThreadPool.{
  Worker, checking, dozing, asleep, exited, running, ThreadPool, Event, push_task, notify_all, stop,
  turn, works, Step, turns, rouses, adds, stops, notifies, Trace, no_steps, and_then,
}
use cpp_client_sdk.ThreadPool.Drain.{carried, is_ended, total-create_threads, Trace_weight}
use cpp_client_sdk.ThreadPool.Order.{pushed_by, began_by, finished_by, gather, Trace_order}

module _ {ℓ} {A : Type ℓ} where
  -- The pool with a counter of ended workers, and a number of threads.
  abbrev pub counted : ℕ → ℕ → TaskRunner A → ThreadPool A
  counted k n p = record {
    is_running = p.is_running;
    is_locked = p.is_locked;
    tasks = p.tasks;
    completed_count = k;
    threads = n;
    workers = p.workers;
  }

  turn_counted :
      (k n : ℕ) (p q : TaskRunner A) (w v : Worker A) (e : Event A)
      → runner_turn p w ≡ some (q, e, v)
      → turn (counted k n p) w ≡ some (counted (k + is_ended v) n q, e, v)
  unfolding turn runner_turn
  turn_counted k n p q checking v e h = ground (arith, h)
  turn_counted k n p q dozing v e h = ground (arith, h)
  turn_counted k n p q asleep v e h = ground (arith, h)
  turn_counted k n p q exited v e h = ground (arith, h)
  turn_counted k n p q (running t) v e h = ground (arith, h)

  Step_counted :
      (k n : ℕ) {p q : TaskRunner A} {e : Event A}
      → RunnerStep p e q
      → (j : ℕ) × Step (counted k n p) e (counted j n q)
  unfolding push_task add_task stop stop_runner notify_all wake_runner
  Step_counted k n {p} (runner_turns q w v xs ys place h) = (
    k + is_ended v,
    turns (works (counted (k + is_ended v) n q) w v xs ys place (turn_counted k n p q w v _ h)),
  )
  Step_counted k n (runner_rouses xs ys place) = (k, rouses xs ys place)
  Step_counted k n (runner_adds t free one) = (k, adds t free one)
  Step_counted k n runner_stops = (k, stops)
  Step_counted k n runner_notifies = (k, notifies)

  -- Every history of this pool is one of the other's, with some count of ended workers.
  pub Trace_counted :
      (k n : ℕ) {p q : TaskRunner A} {es : List (Event A)}
      → Trace RunnerStep p es q
      → (j : ℕ) × Trace Step (counted k n p) es (counted j n q)
  Trace_counted k n no_steps = (k, no_steps)
  Trace_counted k n (and_then s t) =
      let (i, first) = Step_counted k n s in
      let (j, rest) = Trace_counted i n t in (j, and_then first rest)

  -- So this pool, too, starts the tasks in the order in which they were added, each at most once, and
  -- each that was added waits, runs or has been run to its end, under any weight.
  runner_order :
      (n : ℕ) {q : TaskRunner A} {es : List (Event A)}
      → Trace RunnerStep (new_runner n) es q
      → (gather pushed_by es ≡ gather began_by es ++ q.tasks)
        × ((f : A → ℕ)
            → total f (gather pushed_by es)
              ≡ total f q.tasks + total (carried f) q.workers + total f (gather finished_by es))
  runner_order n t =
      let (j, lifted) = Trace_counted 0 n t in
      (
        Trace_order lifted,
        λ f. omega (arith, Trace_weight f lifted, total-create_threads (carried f) n refl),
      )

-- ===== src/TaskRunner.antt =====
-- The ThreadPool of src/statsig/internal/task_runner.hpp, an older pool that no file includes: it starts its
-- threads when it is made, does not count those that ended, and its Shutdown waits for nothing.
pub mod Refines
use cpp_client_sdk.Prelude.{
  ℕ, ◌≡◌, Bool, true, false, Option, none, some, List, [], ◌∷◌, ◌++◌, map, if◌then◌else◌,
}
use cpp_client_sdk.ThreadPool.{
  Worker, checking, dozing, asleep, exited, running, Event, task_pushed, task_began, task_finished,
  pool_stopped, silent, create_threads, NotifyOne, wake,
}

-- `is_locked`: a worker holds the mutex.
pub record TaskRunner {ℓ} (A : Type ℓ) : Type ℓ where
  pub is_running : Bool
  pub is_locked : Bool
  pub tasks : List A
  pub workers : List (Worker A)

module _ {ℓ} {A : Type ℓ} where
  -- ThreadPool(num_threads).
  abbrev pub new_runner : ℕ → TaskRunner A
  new_runner n = record {
    is_running = true;
    is_locked = false;
    tasks = [];
    workers = create_threads n;
  }

  -- The push of Add, under the lock.
  pub add_task : A → TaskRunner A → TaskRunner A
  add_task t p = record p { tasks = p.tasks ++ (t ∷ []) }

  -- The two statements of Shutdown.
  pub stop_runner : TaskRunner A → TaskRunner A
  stop_runner p = record p { is_running = false }

  pub wake_runner : TaskRunner A → TaskRunner A
  wake_runner p = record p { workers = map wake p.workers }

  -- The turn of one worker of CreateThread: what it makes of the pool, what is seen of it, and where
  -- it goes.
  pub runner_turn : TaskRunner A → Worker A → Option (TaskRunner A × Event A × Worker A)
  runner_turn p checking = if p.is_locked then none else elim p.tasks [
    | t ∷ ts ↦ some (record p { tasks = ts }, task_began t, running t)
    | [] ↦
        if p.is_running
        then some (record p { is_locked = true }, silent, dozing)
        else some (p, silent, exited)
  ]
  runner_turn p dozing = some (record p { is_locked = false }, silent, asleep)
  runner_turn p asleep = none
  runner_turn p exited = none
  runner_turn p (running t) = some (p, task_finished t, checking)

  abbrev pub put_workers : TaskRunner A → List (Worker A) → TaskRunner A
  put_workers p ws = record p { workers = ws }

  pub data RunnerStep : TaskRunner A → Event A → TaskRunner A → Type ℓ where
    runner_turns :
        {p : TaskRunner A} {e : Event A} (q : TaskRunner A) (w v : Worker A)
        (xs ys : List (Worker A))
        → p.workers ≡ xs ++ w ∷ ys
        → runner_turn p w ≡ some (q, e, v)
        → RunnerStep p e (put_workers q (xs ++ v ∷ ys))
    runner_rouses :
        {p : TaskRunner A} (xs ys : List (Worker A))
        → p.workers ≡ xs ++ asleep ∷ ys
        → RunnerStep p silent (put_workers p (xs ++ checking ∷ ys))
    runner_adds :
        {p : TaskRunner A} {ws : List (Worker A)} (t : A)
        → p.is_locked ≡ false
        → NotifyOne p.workers ws
        → RunnerStep p (task_pushed t) (put_workers (add_task t p) ws)
    runner_stops : {p : TaskRunner A} → RunnerStep p pool_stopped (stop_runner p)
    runner_notifies : {p : TaskRunner A} → RunnerStep p silent (wake_runner p)

-- ===== src/ThreadPool.antt =====
-- The ThreadPool of src/statsig_compat/async/async_helper.hpp: its workers turn by turn, the calls of
-- its owner, and the histories these make in any interleaving. A task is a value of type `A`; what it
-- does is not part of the pool. The fields that only handles stand in are counted.
pub mod Order
pub mod Drain
pub mod Counter
pub mod Shutdown
pub mod Progress
pub mod Destroyed
use cpp_client_sdk.Prelude.{
  ℕ, zero, suc, ◌+◌, ◌≡◌, Bool, true, false, Option, none, some, List, [], ◌∷◌, ◌++◌, map, leb,
  ◌==◌, if◌then◌else◌, All,
}

-- Where the loop of CreateThread stands. `checking` is about to lock the mutex and test the wait's
-- condition, also after a notification; `dozing` has found nothing to do and still holds the mutex.
pub data Worker {ℓ} (A : Type ℓ) : Type ℓ where
  checking dozing asleep exited : Worker A
  running : A → Worker A

-- `is_locked`: a worker holds the mutex. `threads` is threads.size(), while `workers` are all threads
-- that were created and not joined, also the detached ones.
pub record ThreadPool {ℓ} (A : Type ℓ) : Type ℓ where
  pub is_running : Bool
  pub is_locked : Bool
  pub tasks : List A
  pub completed_count : ℕ
  pub threads : ℕ
  pub workers : List (Worker A)

pub data Event {ℓ} (A : Type ℓ) : Type ℓ where
  task_pushed task_began task_finished : A → Event A
  pool_restarted pool_stopped silent : Event A
  shutdown_answered : Bool → Event A

module _ {ℓ} {A : Type ℓ} where
  abbrev pub new_pool : ThreadPool A
  new_pool = record {
    is_running = false;
    is_locked = false;
    tasks = [];
    completed_count = 0;
    threads = 0;
    workers = [];
  }

  -- CreateThread, as often as asked.
  abbrev pub create_threads : ℕ → List (Worker A)
  create_threads zero = []
  create_threads (suc n) = checking ∷ create_threads n

  unfoldable pub reset_pool : ℕ → ThreadPool A → ThreadPool A
  reset_pool n p = if p.is_running then p else record p {
    is_running = true;
    completed_count = 0;
    threads = n;
    workers = p.workers ++ create_threads n;
  }

  -- The push of Add, under the lock.
  unfoldable pub push_task : A → ThreadPool A → ThreadPool A
  push_task t p = record p { tasks = p.tasks ++ (t ∷ []) }

  -- What notify_one may do: nothing where no worker waits, else wake one that does.
  abbrev pub is_asleep : Worker A → Bool
  is_asleep asleep = true
  is_asleep _ = false

  pub data NotifyOne : List (Worker A) → List (Worker A) → Type ℓ where
    nobody : {ws : List (Worker A)} → All (λ w. is_asleep w ≡ false) ws → NotifyOne ws ws
    somebody : (xs ys : List (Worker A)) → NotifyOne (xs ++ asleep ∷ ys) (xs ++ checking ∷ ys)

  abbrev pub wake : Worker A → Worker A
  wake asleep = checking
  wake w = w

  unfoldable pub notify_all : ThreadPool A → ThreadPool A
  notify_all p = record p { workers = map wake p.workers }

  -- The first statement of Shutdown: the store, which does not take the mutex.
  unfoldable pub stop : ThreadPool A → ThreadPool A
  stop p = record p { is_running = false }

  -- The end of Shutdown, joined or detached: whether the threads count as completed.
  unfoldable pub settle_threads : ThreadPool A → ThreadPool A × Bool
  settle_threads p = (record p { threads = 0 }, p.completed_count == p.threads)

  -- The destructor: it stops the pool as Shutdown does, waits for nothing and detaches the threads.
  unfoldable pub destroy_pool : ThreadPool A → ThreadPool A
  unfolding stop notify_all
  destroy_pool p = record (notify_all (stop p)) { threads = 0 }

  -- The turn of one worker: what it makes of the pool, what is seen of it, and where it goes. `none`
  -- is a worker that cannot go on by itself.
  unfoldable pub turn : ThreadPool A → Worker A → Option (ThreadPool A × Event A × Worker A)
  turn p checking = if p.is_locked then none else elim p.tasks [
    | t ∷ ts ↦ some (record p { tasks = ts }, task_began t, running t)
    | [] ↦
        if p.is_running
        then some (record p { is_locked = true }, silent, dozing)
        else some (record p { completed_count = p.completed_count + 1 }, silent, exited)
  ]
  turn p dozing = some (record p { is_locked = false }, silent, asleep)
  turn p asleep = none
  turn p exited = none
  turn p (running t) = some (p, task_finished t, checking)

  abbrev pub put : ThreadPool A → List (Worker A) → ThreadPool A
  put p ws = record p { workers = ws }

  -- A turn of the worker between `xs` and `ys`.
  pub data Turn : ThreadPool A → Event A → ThreadPool A → Type ℓ where
    works :
        {p : ThreadPool A} {e : Event A} (q : ThreadPool A) (w v : Worker A)
        (xs ys : List (Worker A))
        → p.workers ≡ xs ++ w ∷ ys
        → turn p w ≡ some (q, e, v)
        → Turn p e (put q (xs ++ v ∷ ys))

  -- What may happen next: a worker's turn, a wake-up that nobody caused, or a statement of the owner.
  pub data Step : ThreadPool A → Event A → ThreadPool A → Type ℓ where
    turns : {p q : ThreadPool A} {e : Event A} → Turn p e q → Step p e q
    rouses :
        {p : ThreadPool A} (xs ys : List (Worker A))
        → p.workers ≡ xs ++ asleep ∷ ys
        → Step p silent (put p (xs ++ checking ∷ ys))
    restarts : {p : ThreadPool A} (n : ℕ) → Step p pool_restarted (reset_pool n p)
    adds :
        {p : ThreadPool A} {ws : List (Worker A)} (t : A)
        → p.is_locked ≡ false
        → NotifyOne p.workers ws
        → Step p (task_pushed t) (put (push_task t p) ws)
    stops : {p : ThreadPool A} → Step p pool_stopped (stop p)
    notifies : {p : ThreadPool A} → Step p silent (notify_all p)
    settles :
        {p : ThreadPool A} → Step p (shutdown_answered (settle_threads p).1) (settle_threads p).0

-- The histories that the steps `R` of a state make, as the events that are seen.
pub data Trace {ℓ} {S E : Type ℓ} (R : S → E → S → Type ℓ) : S → List E → S → Type ℓ where
  no_steps : {p : S} → Trace R p [] p
  and_then : {p q r : S} {e : E} {es : List E} → R p e q → Trace R q es r → Trace R p (e ∷ es) r

-- The polling loop of Shutdown: at poll `i` the counter reads `count i`, and if it differs from the
-- number of threads, `elapsed i` milliseconds have passed since the start. The number of polls made.
unfoldable pub poll : ℕ → (ℕ → ℕ) → (ℕ → ℕ) → ℕ → ℕ → ℕ → Option ℕ
poll zero count elapsed threads timeout i = none
poll (suc fuel) count elapsed threads timeout i =
    let rest = poll fuel count elapsed threads timeout (i + 1) in
    if count i == threads then some i else if leb timeout (elapsed i) then some i else rest

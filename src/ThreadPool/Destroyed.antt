-- ===== src/ThreadPool/Destroyed.antt =====
-- What goes on in a ThreadPool of src/statsig_compat/async/async_helper.hpp after its destructor.
use cpp_client_sdk.Prelude.{◌≡◌, refl, ap, ◌∙◌, false, some, List, [], ◌∷◌, ◌++◌, map, arith}
use cpp_client_sdk.ThreadPool.{
  Worker, checking, running, ThreadPool, task_began, task_finished, wake, notify_all, stop,
  destroy_pool, turn, put, Turn, works, Trace, no_steps, and_then,
}
use mathlib.Core.List.{map-append}

module _ {ℓ} {A : Type ℓ} where
  turn_takes :
      (p : ThreadPool A) (u : A) (us : List A)
      → p.is_locked ≡ false
      → p.tasks ≡ u ∷ us
      → turn p checking ≡ some (record p { tasks = us }, task_began u, running u)
  unfolding turn
  turn_takes p u us free waits = ground (arith, free, waits)

  -- A worker that runs a task when the pool is destroyed ends it and goes back to its loop, which locks
  -- the mutex of the pool, and where a task waits it takes it from the queue: both are gone by then.
  destroy_pool_dangles :
      (p : ThreadPool A) (t u : A) (us : List A) (xs ys : List (Worker A))
      → p.workers ≡ xs ++ running t ∷ ys
      → p.is_locked ≡ false
      → p.tasks ≡ u ∷ us
      → (q : ThreadPool A) × Trace Turn (destroy_pool p) (task_finished t ∷ task_began u ∷ []) q
  unfolding destroy_pool stop notify_all turn
  destroy_pool_dangles p t u us xs ys place free waits =
      let gone = destroy_pool p in
      let woken : gone.workers ≡ map wake xs ++ running t ∷ map wake ys =
        ap (map wake) place ∙ map-append wake xs (running t ∷ ys) in
      (
        put (record gone { tasks = us }) (map wake xs ++ running u ∷ map wake ys),
        and_then (works gone (running t) checking (map wake xs) (map wake ys) woken refl) (
            and_then
              (works (record (put gone (map wake xs ++ checking ∷ map wake ys)) { tasks = us })
                checking (running u) (map wake xs) (map wake ys) refl
                (turn_takes (put gone (map wake xs ++ checking ∷ map wake ys)) u us free waits))
              no_steps),
      )

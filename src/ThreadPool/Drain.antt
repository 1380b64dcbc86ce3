-- ===== src/ThreadPool/Drain.antt =====
-- What a shutdown of a ThreadPool waits for: sums over its workers and tasks, kept turn by turn.
use cpp_client_sdk.Prelude.{
  ℕ, zero, suc, ◌+◌, ◌≡◌, refl, ap, ◌∙◌, some, List, [], ◌∷◌, ◌++◌, map, arith, length,
  length-append, total, total-append,
}
use cpp_client_sdk.ThreadPool.{
  Worker, checking, dozing, asleep, exited, running, ThreadPool, Event, create_threads, reset_pool,
  push_task, NotifyOne, nobody, somebody, wake, notify_all, stop, settle_threads, turn, works, Step,
  turns, rouses, restarts, adds, stops, notifies, settles, Trace, no_steps, and_then,
}
use cpp_client_sdk.ThreadPool.Order.{pushed_by, finished_by, gather}

pub length-create_threads {ℓ} : (A : Type ℓ) (n : ℕ) → length (create_threads {A = A} n) ≡ n
length-create_threads A zero = refl
length-create_threads A (suc n) = ap suc (length-create_threads A n)

module _ {ℓ} {A : Type ℓ} where
  -- The weight of the task that a worker runs.
  abbrev pub carried : (A → ℕ) → Worker A → ℕ
  carried f (running t) = f t
  carried f _ = 0

  abbrev pub is_ended : Worker A → ℕ
  is_ended exited = 1
  is_ended _ = 0

  -- What is left to do for a task: all, or the rest where a worker runs it.
  abbrev pub in_hand : (A → ℕ) → ThreadPool A → ℕ
  in_hand f p = total f p.tasks + total (carried f) p.workers

  turn_weight :
      (f : A → ℕ) (p q : ThreadPool A) (w v : Worker A) (e : Event A)
      → turn p w ≡ some (q, e, v)
      → total f p.tasks + carried f w + total f (pushed_by e)
        ≡ total f q.tasks + carried f v + total f (finished_by e)
  unfolding turn
  turn_weight f p q checking v e h = ground arith
  turn_weight f p q dozing v e h = ground arith
  turn_weight f p q asleep v e h = ground arith
  turn_weight f p q exited v e h = ground arith
  turn_weight f p q (running t) v e h = ground arith

  pub total_at :
      (g : Worker A → ℕ) (ws xs : List (Worker A)) (w : Worker A) (ys : List (Worker A))
      → ws ≡ xs ++ w ∷ ys
      → total g ws ≡ total g xs + (g w + total g ys)
  total_at g ws xs w ys place = ap (total g) place ∙ total-append g xs (w ∷ ys)

  -- A sum over the workers after one of them changed.
  pub total-swap :
      (g : Worker A → ℕ) (ws xs : List (Worker A)) (w v : Worker A) (ys : List (Worker A))
      → ws ≡ xs ++ w ∷ ys
      → total g (xs ++ v ∷ ys) + g w ≡ total g ws + g v
  total-swap g ws xs w v ys place =
      omega (arith, total_at g ws xs w ys place, total-append g xs (v ∷ ys))

  pub length-swap :
      (ws xs : List (Worker A)) (w v : Worker A) (ys : List (Worker A))
      → ws ≡ xs ++ w ∷ ys
      → length (xs ++ v ∷ ys) ≡ length ws
  length-swap ws xs w v ys place =
      rw place (omega (arith, length-append xs (w ∷ ys), length-append xs (v ∷ ys)))

  -- Waking changes no sum in which a sleeper weighs what a checking worker does.
  pub total-wake :
      (g : Worker A → ℕ) (ws : List (Worker A))
      → g asleep ≡ g checking
      → total g (map wake ws) ≡ total g ws
  total-wake g [] h = refl
  total-wake g (checking ∷ ws) h = omega (arith, total-wake g ws h)
  total-wake g (dozing ∷ ws) h = omega (arith, total-wake g ws h)
  total-wake g (asleep ∷ ws) h = omega (arith, total-wake g ws h, h)
  total-wake g (exited ∷ ws) h = omega (arith, total-wake g ws h)
  total-wake g (running t ∷ ws) h = omega (arith, total-wake g ws h)

  pub length-wake : (ws : List (Worker A)) → length (map wake ws) ≡ length ws
  length-wake [] = refl
  length-wake (w ∷ ws) = omega (arith, length-wake ws)

  pub NotifyOne-total :
      (g : Worker A → ℕ) {ws vs : List (Worker A)}
      → g asleep ≡ g checking
      → NotifyOne ws vs
      → total g vs ≡ total g ws
  NotifyOne-total g h (nobody busy) = refl
  NotifyOne-total g h (somebody xs ys) = omega (arith, total-swap g _ xs asleep checking ys refl, h)

  pub NotifyOne-length : {ws vs : List (Worker A)} → NotifyOne ws vs → length vs ≡ length ws
  NotifyOne-length (nobody busy) = refl
  NotifyOne-length (somebody xs ys) = length-swap _ xs asleep checking ys refl

  pub total-create_threads :
      (g : Worker A → ℕ) (n : ℕ) → g checking ≡ 0 → total g (create_threads {A = A} n) ≡ 0
  total-create_threads g zero h = refl
  total-create_threads g (suc n) h = omega (arith, total-create_threads g n h, h)

  pub total-gather :
      (f : A → ℕ) (g : Event A → List A) (es ds : List (Event A))
      → total f (gather g (es ++ ds)) ≡ total f (gather g es) + total f (gather g ds)
  total-gather f g [] ds = omega arith
  total-gather f g (e ∷ es) ds = omega (
    arith,
    total-append f (g e) (gather g (es ++ ds)),
    total-append f (g e) (gather g es),
    total-gather f g es ds,
  )

  -- A task that is added is in hand until it is finished, under any weight.
  Step_weight :
      (f : A → ℕ) {p q : ThreadPool A} {e : Event A}
      → Step p e q
      → in_hand f p + total f (pushed_by e) ≡ in_hand f q + total f (finished_by e)
  unfolding reset_pool push_task stop notify_all settle_threads
  Step_weight f {p} (turns (works q w v xs ys place h)) =
      omega (arith, turn_weight f p q w v _ h, total-swap (carried f) p.workers xs w v ys place)
  Step_weight f {p} (rouses xs ys place) =
      omega (arith, total-swap (carried f) p.workers xs asleep checking ys place)
  Step_weight f {p} (restarts n) = ground (
    arith,
    total-append (carried f) p.workers (create_threads n),
    total-create_threads (carried f) n,
  )
  Step_weight f {p} (adds t free one) =
      omega (arith, total-append f p.tasks (t ∷ []), NotifyOne-total (carried f) refl one)
  Step_weight f stops = refl
  Step_weight f {p} notifies = omega (arith, total-wake (carried f) p.workers refl)
  Step_weight f settles = refl

  pub Trace_weight :
      (f : A → ℕ) {p q : ThreadPool A} {es : List (Event A)}
      → Trace Step p es q
      → in_hand f p + total f (gather pushed_by es) ≡ in_hand f q + total f (gather finished_by es)
  Trace_weight f no_steps = refl
  Trace_weight f (and_then {e = e} {es = es} s t) = omega (
    arith,
    Step_weight f s,
    Trace_weight f t,
    total-append f (pushed_by e) (gather pushed_by es),
    total-append f (finished_by e) (gather finished_by es),
  )

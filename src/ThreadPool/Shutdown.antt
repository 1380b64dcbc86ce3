-- ===== src/ThreadPool/Shutdown.antt =====
-- What the answer of a ThreadPool's Shutdown means for the tasks.
use cpp_client_sdk.Prelude.{
  ℕ, ◌+◌, ◌≤◌, ◌<◌, ◌≡◌, refl, ◌⊎◌, inl, inr, Bool, true, false, some, List, [], ◌∷◌, ◌++◌, arith,
  length, All, total,
}
use cpp_client_sdk.ThreadPool.{
  Worker, checking, dozing, asleep, exited, running, ThreadPool, Event, task_pushed, new_pool,
  reset_pool, push_task, notify_all, stop, settle_threads, turn, works, Step, turns, rouses,
  restarts, adds, stops, notifies, settles, Trace, no_steps, and_then,
}
use cpp_client_sdk.ThreadPool.Counter.{
  is_calm, Inv, turn_counter, Step-Inv, Trace-Inv, reset_pool-Inv,
}
use cpp_client_sdk.ThreadPool.Drain.{
  carried, is_ended, in_hand, total-create_threads, total-gather, Trace_weight,
}
use cpp_client_sdk.ThreadPool.Order.{pushed_by, finished_by, gather}

module _ {ℓ} {A : Type ℓ} where
  -- ... and that adds nothing.
  abbrev pub is_quiet : Event A → Bool
  is_quiet (task_pushed t) = false
  is_quiet e = is_calm e

  abbrev is_busy : Worker A → ℕ
  is_busy (running t) = 1
  is_busy _ = 0

  -- A step of such a run in which whatever is added is added by a task that a worker runs.
  pub data TaskStep : ThreadPool A → Event A → ThreadPool A → Type ℓ where
    goes_on : {p q : ThreadPool A} {e : Event A} → Step p e q → is_quiet e ≡ true → TaskStep p e q
    task_adds :
        {p q : ThreadPool A} {t : A}
        → Step p (task_pushed t) q
        → 0 < total is_busy p.workers
        → TaskStep p (task_pushed t) q

  -- While a task waits, some worker has not ended.
  abbrev Served : ℕ → ThreadPool A → Type ℓ
  Served n p = (p.tasks ≡ []) ⊎ (p.completed_count < n)

  busy-ended_le : (ws : List (Worker A)) → total is_busy ws + total is_ended ws ≤ length ws
  busy-ended_le [] = omega arith
  busy-ended_le (w ∷ ws) = ground (arith, busy-ended_le ws)

  is_quiet-is_calm : (e : Event A) → is_quiet e ≡ true → is_calm e ≡ true
  is_quiet-is_calm (task_pushed t) c = refl
  is_quiet-is_calm e c = ground (arith, c)

  Step-Served :
      {n : ℕ} {p q : ThreadPool A} {e : Event A}
      → Step p e q
      → is_quiet e ≡ true
      → Served n p
      → Served n q
  unfolding stop notify_all
  Step-Served {n} {p} (turns (works q w v xs ys place h)) c d =
      let (_, _, _, _, counter, waits) = turn_counter p q w v _ h in served counter waits d
    where
      served :
          (q.completed_count ≡ p.completed_count) ⊎ (q.tasks ≡ [])
          → (p.tasks ≡ [] → q.tasks ≡ [])
          → (p.tasks ≡ []) ⊎ (p.completed_count < n)
          → (q.tasks ≡ []) ⊎ (q.completed_count < n)
      served (inr none_waits) keeps k = inl none_waits
      served (inl same) keeps (inl none_waits) = inl (keeps none_waits)
      served (inl same) keeps (inr some_left) = inr (omega (arith, same, some_left))
  Step-Served (rouses xs ys place) c d = d
  Step-Served (restarts n) c d = ground (arith, c)
  Step-Served (adds t free one) c d = ground (arith, c)
  Step-Served stops c d = d
  Step-Served notifies c d = d
  Step-Served settles c d = ground (arith, c)

  turn-push :
      (p q : ThreadPool A) (w v : Worker A) (t : A) → turn p w ≡ some (q, task_pushed t, v) → ⊥
  unfolding turn
  turn-push p q checking v t h = ground (arith, h)
  turn-push p q dozing v t h = cc
  turn-push p q asleep v t h = cc
  turn-push p q exited v t h = cc
  turn-push p q (running u) v t h = cc

  -- The pool that Add leaves: a worker that runs a task has not ended.
  busy-Served :
      {n : ℕ} {t : A} {p q : ThreadPool A}
      → Step p (task_pushed t) q
      → 0 < total is_busy p.workers
      → Inv n p
      → Served n q
  unfolding push_task
  busy-Served {n} {p} (adds t free one) busy inv =
      inr (omega (arith, busy, busy-ended_le p.workers, inv.counted, inv.created))
  busy-Served {p = p} (turns (works q w v xs ys place h)) busy inv = absurd (turn-push p q w v _ h)

  TaskStep-Inv :
      {n : ℕ} {p q : ThreadPool A} {e : Event A}
      → TaskStep p e q
      → Inv n p × Served n p
      → Inv n q × Served n q
  TaskStep-Inv {e = e} (goes_on s c) (inv, d) =
      (Step-Inv s (is_quiet-is_calm e c) inv, Step-Served s c d)
  TaskStep-Inv (task_adds s busy) (inv, d) = (Step-Inv s refl inv, busy-Served s busy inv)

  Trace_tasks :
      {n : ℕ} {p q : ThreadPool A} {es : List (Event A)}
      → Trace TaskStep p es q
      → Inv n p × Served n p
      → (Inv n q × Served n q) × Trace Step p es q
  Trace_tasks no_steps i = (i, no_steps)
  Trace_tasks (and_then s t) i =
      let (at_end, steps) = Trace_tasks t (TaskStep-Inv s i) in (at_end, and_then (taken s) steps)
    where
      taken : {p q : ThreadPool A} {e : Event A} → TaskStep p e q → Step p e q
      taken (goes_on s c) = s
      taken (task_adds s busy) = s

  is_ended-le : (ws : List (Worker A)) → total is_ended ws ≤ length ws
  is_ended-le [] = omega arith
  is_ended-le (w ∷ ws) = ground (arith, is_ended-le ws)

  -- Where every worker has ended, no task is being run.
  carried_ended :
      (f : A → ℕ) (ws : List (Worker A)) → total is_ended ws ≡ length ws → total (carried f) ws ≡ 0
  carried_ended f [] h = refl
  carried_ended f (w ∷ ws) h = ground (arith, h, is_ended-le ws, carried_ended f ws)

  carried-create_threads : (f : A → ℕ) (n : ℕ) → in_hand f (reset_pool n new_pool) ≡ 0
  unfolding reset_pool
  carried-create_threads f n = omega (arith, total-create_threads (carried f) n refl)

  -- The pool of a Shutdown that answers true: every worker that was created has ended.
  all_ended :
      (n : ℕ) (q : ThreadPool A)
      → Inv n q
      → (settle_threads q).1 ≡ true
      → (q.completed_count ≡ n) × (total is_ended q.workers ≡ length q.workers)
  unfolding settle_threads
  all_ended n q inv h = ground (arith, h, inv.counted, inv.created, inv.handles)

  stop-Served : {n : ℕ} (p : ThreadPool A) → p.completed_count < n → Served n (stop p)
  unfolding stop
  stop-Served p h = inr h

  in_hand-stop : (f : A → ℕ) (p : ThreadPool A) → in_hand f (stop p) ≡ in_hand f p
  unfolding stop
  in_hand-stop f p = refl

  -- If a pool of at least one thread is stopped while it is running, nothing but what tasks add that
  -- are being run is added from then on, and the shutdown answers true, then no task waits and every
  -- task that was ever added has been run to its end exactly once: under any weight the finished tasks
  -- sum up to the added ones.
  pub settle_threads_complete :
      {n : ℕ} {p q : ThreadPool A} {es ds : List (Event A)}
      → 0 < n
      → Trace Step (reset_pool n new_pool) es p
      → All (λ e. is_calm e ≡ true) es
      → p.is_running ≡ true
      → Trace TaskStep (stop p) ds q
      → (settle_threads q).1 ≡ true
      → (q.tasks ≡ [])
        × ((f : A → ℕ)
            → total f (gather finished_by (es ++ ds)) ≡ total f (gather pushed_by (es ++ ds)))
  settle_threads_complete {n} {p} {q} {es} {ds} some_thread before calm runs after h =
      let at_stop = Trace-Inv before calm (reset_pool-Inv n) in
      let none_ended : p.completed_count < n = omega (arith, at_stop.stays runs, some_thread) in
      let ((at_end, served), steps) =
        Trace_tasks after (Step-Inv stops refl at_stop, stop-Served p none_ended) in
      let (done, whole) = all_ended n q at_end h in
      let waits : q.tasks ≡ [] = ground (arith, served, done) in
      (
        waits,
        λ f. ground (
          arith,
          waits,
          Trace_weight f before,
          Trace_weight f steps,
          in_hand-stop f p,
          carried-create_threads f n,
          carried_ended f q.workers whole,
          total-gather f finished_by es ds,
          total-gather f pushed_by es ds,
        ),
      )

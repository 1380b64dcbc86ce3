-- ===== src/ThreadPool/Order.antt =====
-- The order in which a ThreadPool starts the tasks that are added to it.
use cpp_client_sdk.Prelude.{
  ◌≡◌, refl, sym, ap, ◌∙◌, some, List, [], ◌∷◌, ◌++◌, append-nil, append_assoc, arith,
}
use cpp_client_sdk.ThreadPool.{
  Worker, checking, dozing, asleep, exited, running, ThreadPool, Event, task_pushed, task_began,
  task_finished, reset_pool, push_task, notify_all, stop, settle_threads, turn, works, Step, turns,
  rouses, restarts, adds, stops, notifies, settles, Trace, no_steps, and_then,
}

module _ {ℓ} {A : Type ℓ} where
  -- The tasks that an event adds, starts or ends.
  abbrev pub pushed_by : Event A → List A
  pushed_by (task_pushed t) = t ∷ []
  pushed_by _ = []

  abbrev pub began_by : Event A → List A
  began_by (task_began t) = t ∷ []
  began_by _ = []

  abbrev pub finished_by : Event A → List A
  finished_by (task_finished t) = t ∷ []
  finished_by _ = []

  abbrev pub gather : (Event A → List A) → List (Event A) → List A
  gather f [] = []
  gather f (e ∷ es) = f e ++ gather f es

  turn_order :
      (p q : ThreadPool A) (w v : Worker A) (e : Event A)
      → turn p w ≡ some (q, e, v)
      → p.tasks ++ pushed_by e ≡ began_by e ++ q.tasks
  unfolding turn
  turn_order p q checking v e h = ground (arith, append-nil p.tasks)
  turn_order p q dozing v e h = ground (arith, append-nil p.tasks)
  turn_order p q asleep v e h = ground arith
  turn_order p q exited v e h = ground arith
  turn_order p q (running t) v e h = ground (arith, append-nil p.tasks)

  Step_order :
      {p q : ThreadPool A} {e : Event A}
      → Step p e q
      → p.tasks ++ pushed_by e ≡ began_by e ++ q.tasks
  unfolding reset_pool push_task stop notify_all settle_threads
  Step_order (turns (works q w v xs ys place h)) = turn_order _ q w v _ h
  Step_order {p} (restarts n) = ground (arith, append-nil p.tasks)
  Step_order (adds t free one) = refl
  Step_order {p} stops = append-nil p.tasks
  Step_order {p} (rouses xs ys place) = append-nil p.tasks
  Step_order {p} notifies = append-nil p.tasks
  Step_order {p} settles = append-nil p.tasks

  -- In any history the tasks are started in the order in which they were added, each at most once:
  -- those that waited, followed by those added, are those started, followed by those that wait.
  pub Trace_order :
      {p q : ThreadPool A} {es : List (Event A)}
      → Trace Step p es q
      → p.tasks ++ gather pushed_by es ≡ gather began_by es ++ q.tasks
  Trace_order {p} no_steps = append-nil p.tasks
  Trace_order {p} {q} (and_then {q = m} {e = e} {es = es} s t) =
      sym (append_assoc p.tasks (pushed_by e) (gather pushed_by es))
      ∙ ap (λ l. l ++ gather pushed_by es) (Step_order s)
      ∙ append_assoc (began_by e) m.tasks (gather pushed_by es)
      ∙ ap (◌++◌ (began_by e)) (Trace_order t)
      ∙ sym (append_assoc (began_by e) (gather began_by es) q.tasks)

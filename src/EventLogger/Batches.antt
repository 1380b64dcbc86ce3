-- ===== src/EventLogger/Batches.antt =====
-- What becomes of the events that are enqueued.
use cpp_client_sdk.Diagnostics.{Diagnostics, mark, diagnostics_event, append_event}
use cpp_client_sdk.Event.{StatsigEventInternal}
use cpp_client_sdk.EventLogger.{
  size_of_int, EventLogger, new_logger, submit, flush_impl, enqueue, flush, shutdown,
}
use cpp_client_sdk.JsonLib.{JsonLib}
use cpp_client_sdk.Prelude.{
  ◌≤◌, ◌≡◌, refl, sym, ap, ◌∙◌, ◌⊎◌, inl, inr, List, [], ◌∷◌, ◌++◌, append-nil, append_assoc, arith,
  ltb, if◌then◌else◌, Bool-cases, length, ℤ,
}
use cpp_client_sdk.Text.{str_eq}

module _ ⦃J : JsonLib⦄ where
  -- The calls that reach a logger, each at a time; the client's other parts mark its diagnostics.
  pub data LoggerCall : Type 0 where
    enqueues : StatsigEventInternal → LoggerCall
    flushes shuts_down : LoggerCall
    marks : J.Ordered → LoggerCall

  pub step : ℤ → EventLogger → LoggerCall → EventLogger
  step now l (enqueues e) = enqueue now l e
  step now l flushes = flush now l
  step now l shuts_down = shutdown now l
  step now l (marks m) = record l { diagnostics = mark l.diagnostics m }

  pub run : EventLogger → List (ℤ × LoggerCall) → EventLogger
  run l [] = l
  run l ((now, c) ∷ cs) = run (step now l c) cs

  -- The events of the calls, in order.
  pub enqueued : List (ℤ × LoggerCall) → List StatsigEventInternal
  enqueued [] = []
  enqueued ((now, enqueues e) ∷ cs) = e ∷ enqueued cs
  enqueued ((now, flushes) ∷ cs) = enqueued cs
  enqueued ((now, shuts_down) ∷ cs) = enqueued cs
  enqueued ((now, marks m) ∷ cs) = enqueued cs

  -- The events that the diagnostics did not make.
  unfoldable pub logged_only : List StatsigEventInternal → List StatsigEventInternal
  logged_only [] = []
  logged_only (e ∷ es) =
      let rest = logged_only es in
      if str_eq e.event_name "statsig::diagnostics" then rest else e ∷ rest

  pub flatten : List (List StatsigEventInternal) → List StatsigEventInternal
  flatten [] = []
  flatten (b ∷ bs) = b ++ flatten bs

  -- What left in batches and what waits, in order.
  abbrev pub all_events : EventLogger → List StatsigEventInternal
  all_events l = flatten l.submitted ++ l.events

  logged_only-append :
      (xs ys : List StatsigEventInternal)
      → logged_only (xs ++ ys) ≡ logged_only xs ++ logged_only ys
  unfolding logged_only
  logged_only-append [] ys = refl
  logged_only-append (e ∷ xs) ys = ground (arith, logged_only-append xs ys)

  flatten-append :
      (bs : List (List StatsigEventInternal)) (b : List StatsigEventInternal)
      → flatten (bs ++ b ∷ []) ≡ flatten bs ++ b
  unfolding flatten
  flatten-append [] b = append-nil b
  flatten-append (a ∷ bs) b = rw (flatten-append bs b) (sym (append_assoc a (flatten bs) b))

  logged_only-diagnostics_event :
      (now : ℤ) (d : Diagnostics) → logged_only (diagnostics_event now d ∷ []) ≡ []
  unfolding logged_only diagnostics_event
  logged_only-diagnostics_event now d = refl

  append_event-logged :
      (now : ℤ) (d : Diagnostics) (es : List StatsigEventInternal)
      → logged_only (append_event now d es).1 ≡ logged_only es
  unfolding append_event
  append_event-logged now d es = go d.markers
    where
      go :
          (ms : List J.Value)
          → logged_only (append_event now (record d { markers = ms }) es).1 ≡ logged_only es
      go [] = refl
      go (m ∷ ms) =
          logged_only-append es (diagnostics_event now (record d { markers = m ∷ ms }) ∷ [])
          ∙ ap (λ t. logged_only es ++ t)
              (logged_only-diagnostics_event now (record d { markers = m ∷ ms }))
          ∙ append-nil (logged_only es)

  submit-all_events :
      (l : EventLogger) (d : Diagnostics) (es : List StatsigEventInternal)
      → all_events (submit l d es) ≡ flatten l.submitted ++ es
  unfolding submit
  submit-all_events l d [] = refl
  submit-all_events l d (e ∷ es) =
      append-nil (flatten (l.submitted ++ (e ∷ es) ∷ [])) ∙ flatten-append l.submitted (e ∷ es)

  pub flush_impl-logged :
      (now : ℤ) (l : EventLogger)
      → logged_only (all_events (flush_impl now l)) ≡ logged_only (all_events l)
  unfolding flush_impl
  flush_impl-logged now l =
      ap logged_only (
        submit-all_events l (append_event now l.diagnostics l.events).0
          (append_event now l.diagnostics l.events).1)
      ∙ logged_only-append (flatten l.submitted) (append_event now l.diagnostics l.events).1
      ∙ ap (λ t. logged_only (flatten l.submitted) ++ t)
          (append_event-logged now l.diagnostics l.events)
      ∙ sym (logged_only-append (flatten l.submitted) l.events)

  flush_impl_empties :
      (now : ℤ) (l : EventLogger)
      → ((flush_impl now l).events ≡ []) × ((flush_impl now l).max_buffer_size ≡ l.max_buffer_size)
  unfolding flush_impl submit
  flush_impl_empties now l = go (append_event now l.diagnostics l.events)
    where
      go :
          (p : Diagnostics × List StatsigEventInternal)
          → ((submit l p.0 p.1).events ≡ [])
            × ((submit l p.0 p.1).max_buffer_size ≡ l.max_buffer_size)
      go (d, []) = (refl, refl)
      go (d, e ∷ es) = (refl, refl)

  -- What an enqueue comes to: the queue as it was with the event, or the flush of that.
  abbrev queued : EventLogger → StatsigEventInternal → EventLogger
  queued l e = record l { events = l.events ++ e ∷ [] }

  enqueue_cases :
      (now : ℤ) (l : EventLogger) (e : StatsigEventInternal)
      → ((enqueue now l e ≡ queued l e)
          × (length (l.events ++ e ∷ []) ≤ size_of_int l.max_buffer_size))
        ⊎ (enqueue now l e ≡ flush_impl now (queued l e))
  unfolding enqueue
  enqueue_cases now l e =
      elim (Bool-cases (ltb (size_of_int l.max_buffer_size) (length (l.events ++ e ∷ [])))) [
        | inl full ↦ inr (rw full refl)
        | inr room ↦ inl (rw room refl, ground (arith, room))
      ]

  queued-logged :
      (l : EventLogger) (e : StatsigEventInternal)
      → logged_only (all_events (queued l e)) ≡ logged_only (all_events l) ++ logged_only (e ∷ [])
  queued-logged l e =
      ap logged_only (sym (append_assoc (flatten l.submitted) l.events (e ∷ [])))
      ∙ logged_only-append (all_events l) (e ∷ [])

  pub enqueue-logged :
      (now : ℤ) (l : EventLogger) (e : StatsigEventInternal)
      → logged_only (all_events (enqueue now l e))
        ≡ logged_only (all_events l) ++ logged_only (e ∷ [])
  enqueue-logged now l e = elim (enqueue_cases now l e) [
    | inl (kept, room) ↦ ap (λ t. logged_only (all_events t)) kept ∙ queued-logged l e
    | inr flushed ↦
        ap (λ t. logged_only (all_events t)) flushed
        ∙ flush_impl-logged now (queued l e)
        ∙ queued-logged l e
  ]

  run-logged_from :
      (l : EventLogger) (cs : List (ℤ × LoggerCall))
      → logged_only (all_events (run l cs))
        ≡ logged_only (all_events l) ++ logged_only (enqueued cs)
  unfolding run step enqueued flush shutdown logged_only
  run-logged_from l [] = sym (append-nil (logged_only (all_events l)))
  run-logged_from l ((now, enqueues e) ∷ cs) =
      run-logged_from (enqueue now l e) cs
      ∙ ap (λ t. t ++ logged_only (enqueued cs)) (enqueue-logged now l e)
      ∙ append_assoc (logged_only (all_events l)) (logged_only (e ∷ [])) (logged_only (enqueued cs))
      ∙ ap (λ t. logged_only (all_events l) ++ t) (sym (logged_only-append (e ∷ []) (enqueued cs)))
  run-logged_from l ((now, flushes) ∷ cs) =
      run-logged_from (flush_impl now l) cs
      ∙ ap (λ t. t ++ logged_only (enqueued cs)) (flush_impl-logged now l)
  run-logged_from l ((now, shuts_down) ∷ cs) =
      run-logged_from (flush_impl now l) cs
      ∙ ap (λ t. t ++ logged_only (enqueued cs)) (flush_impl-logged now l)
  run-logged_from l ((now, marks m) ∷ cs) =
      run-logged_from (record l { diagnostics = mark l.diagnostics m }) cs

  -- Whatever the calls of a new logger, the batches handed to the background and the queue together
  -- hold every enqueued event exactly once and in order, and besides them only diagnostics events.
  pub run-logged_only :
      (max : ℤ) (d : Diagnostics) (cs : List (ℤ × LoggerCall))
      → logged_only (all_events (run (new_logger max d) cs)) ≡ logged_only (enqueued cs)
  unfolding logged_only enqueued flatten
  run-logged_only max d cs = run-logged_from (new_logger max d) cs

  abbrev IsBounded : ℤ → EventLogger → Type 0
  IsBounded max l = (l.max_buffer_size ≡ max) × (length l.events ≤ size_of_int max)

  flush_impl-IsBounded :
      (max now : ℤ) (l : EventLogger) → l.max_buffer_size ≡ max → IsBounded max (flush_impl now l)
  flush_impl-IsBounded max now l h =
      let (empty, same) = flush_impl_empties now l in (same ∙ h, rw empty (omega arith))

  enqueue-IsBounded :
      (max now : ℤ) (l : EventLogger) (e : StatsigEventInternal)
      → l.max_buffer_size ≡ max
      → IsBounded max (enqueue now l e)
  enqueue-IsBounded max now l e h = elim (enqueue_cases now l e) [
    | inl (kept, room) ↦ rw (kept, sym h) (refl, room)
    | inr flushed ↦ rw flushed (flush_impl-IsBounded max now (queued l e) h)
  ]

  run-IsBounded :
      (max : ℤ) (l : EventLogger) (cs : List (ℤ × LoggerCall))
      → IsBounded max l
      → IsBounded max (run l cs)
  unfolding run step flush shutdown
  run-IsBounded max l [] h = h
  run-IsBounded max l ((now, enqueues e) ∷ cs) h =
      run-IsBounded max (enqueue now l e) cs (enqueue-IsBounded max now l e h.0)
  run-IsBounded max l ((now, flushes) ∷ cs) h =
      run-IsBounded max (flush_impl now l) cs (flush_impl-IsBounded max now l h.0)
  run-IsBounded max l ((now, shuts_down) ∷ cs) h =
      run-IsBounded max (flush_impl now l) cs (flush_impl-IsBounded max now l h.0)
  run-IsBounded max l ((now, marks m) ∷ cs) h =
      run-IsBounded max (record l { diagnostics = mark l.diagnostics m }) cs h

  -- Between calls the queue holds at most as many events as the buffer size, read as a size_t.
  run-bound :
      (max : ℤ) (d : Diagnostics) (cs : List (ℤ × LoggerCall))
      → length (run (new_logger max d) cs).events ≤ size_of_int max
  run-bound max d cs = (run-IsBounded max (new_logger max d) cs (refl, omega arith)).1

  -- A shutdown leaves no event in the queue and loses none.
  pub shutdown_empties :
      (now : ℤ) (l : EventLogger)
      → ((shutdown now l).events ≡ [])
        × (logged_only (flatten (shutdown now l).submitted) ≡ logged_only (all_events l))
  unfolding shutdown
  shutdown_empties now l =
      let empty = (flush_impl_empties now l).0 in
      (
        empty,
        ap logged_only (
              sym (append-nil (flatten (flush_impl now l).submitted))
              ∙ ap (λ t. flatten (flush_impl now l).submitted ++ t) (sym empty))
            ∙ flush_impl-logged now l,
      )

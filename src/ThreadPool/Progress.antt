-- ===== src/ThreadPool/Progress.antt =====
-- Why the workers of a ThreadPool end after a shutdown: the lock, and the turns that are left.
use cpp_client_sdk.Prelude.{
  ℕ, zero, suc, ◌+◌, ◌*◌, ◌≤◌, ◌<◌, ◌≡◌, refl, sym, ap, ◌∙◌, ◌⊎◌, inl, inr, false, some, List, [],
  ◌∷◌, ◌++◌, map, append_assoc, arith, leb, ◌==◌, if◌then◌else◌, Bool-cases, Option-cases, length,
  total, total-append,
}
use cpp_client_sdk.ThreadPool.{
  Worker, checking, dozing, asleep, exited, running, ThreadPool, Event, task_finished, new_pool,
  create_threads, reset_pool, push_task, wake, notify_all, stop, settle_threads, turn, put, Turn,
  works, Step, turns, rouses, restarts, adds, stops, notifies, settles, Trace, no_steps, and_then,
  poll,
}
use cpp_client_sdk.ThreadPool.Drain.{
  is_ended, total_at, total-swap, total-wake, NotifyOne-total, total-create_threads,
}

module _ {ℓ} {A : Type ℓ} where
  abbrev pub is_dozing : Worker A → ℕ
  is_dozing dozing = 1
  is_dozing _ = 0

  abbrev pub is_down : Worker A → ℕ
  is_down dozing = 1
  is_down asleep = 1
  is_down _ = 0

  -- The mutex is held exactly by a dozing worker.
  abbrev Locks : ThreadPool A → Type 0
  Locks p = total is_dozing p.workers ≡ (if p.is_locked then 1 else 0)

  turn-Locks :
      (p q : ThreadPool A) (w v : Worker A) (e : Event A) (others : ℕ)
      → turn p w ≡ some (q, e, v)
      → others + is_dozing w ≡ (if p.is_locked then 1 else 0)
      → others + is_dozing v ≡ (if q.is_locked then 1 else 0)
  unfolding turn
  turn-Locks p q checking v e k h l = ground arith
  turn-Locks p q dozing v e k h l = ground arith
  turn-Locks p q asleep v e k h l = ground arith
  turn-Locks p q exited v e k h l = ground arith
  turn-Locks p q (running t) v e k h l = ground arith

  Step-Locks : {p q : ThreadPool A} {e : Event A} → Step p e q → Locks p → Locks q
  unfolding reset_pool push_task stop notify_all settle_threads
  Step-Locks {p} (turns (works q w v xs ys place h)) l =
      total-append is_dozing xs (v ∷ ys)
      ∙ omega (
        arith,
        turn-Locks p q w v _ (total is_dozing xs + total is_dozing ys) h
            (omega (arith, l, total_at is_dozing p.workers xs w ys place)),
      )
  Step-Locks {p} (rouses xs ys place) l =
      omega (arith, total-swap is_dozing p.workers xs asleep checking ys place) ∙ l
  Step-Locks {p} (restarts n) l = ground (
    arith,
    l,
    total-append is_dozing p.workers (create_threads n),
    total-create_threads is_dozing n refl,
  )
  Step-Locks (adds t free one) l = NotifyOne-total is_dozing refl one ∙ l
  Step-Locks stops l = l
  Step-Locks {p} notifies l = total-wake is_dozing p.workers refl ∙ l
  Step-Locks settles l = l

  Trace-Locks : {p q : ThreadPool A} {es : List (Event A)} → Trace Step p es q → Locks p → Locks q
  Trace-Locks no_steps l = l
  Trace-Locks (and_then s t) l = Trace-Locks t (Step-Locks s l)

  -- The pool after a shutdown that reached every worker.
  pub record IsReady (p : ThreadPool A) : Type ℓ where
    pub stopped_now : p.is_running ≡ false
    pub free : p.is_locked ≡ false
    pub up : total is_down p.workers ≡ 0

  -- The turns that are left: two for a task that waits, and one more for each worker's end.
  abbrev pub effort : Worker A → ℕ
  effort (running t) = 2
  effort exited = 0
  effort _ = 1

  abbrev pub turns_left : ThreadPool A → ℕ
  turns_left p = 2 * length p.tasks + total effort p.workers

  turn-effort :
      (p q : ThreadPool A) (w v : Worker A) (e : Event A)
      → p.is_running ≡ false
      → p.is_locked ≡ false
      → is_down w ≡ 0
      → turn p w ≡ some (q, e, v)
      → (q.is_running ≡ false)
        × (q.is_locked ≡ false)
        × (is_down v ≡ 0)
        × (2 * length p.tasks + effort w ≡ 1 + 2 * length q.tasks + effort v)
  unfolding turn
  turn-effort p q checking v e r l u h = ground arith
  turn-effort p q dozing v e r l u h = ground arith
  turn-effort p q asleep v e r l u h = ground arith
  turn-effort p q exited v e r l u h = ground arith
  turn-effort p q (running t) v e r l u h = ground arith

  Turn-effort :
      {p q : ThreadPool A} {e : Event A}
      → Turn p e q
      → IsReady p
      → IsReady q × (turns_left p ≡ 1 + turns_left q)
  Turn-effort {p} (works q w v xs ys place h) ready =
      let split = total_at is_down p.workers xs w ys place in
      let (stopped_now, free, up, less) =
        turn-effort p q w v _ ready.stopped_now ready.free (omega (arith, split, ready.up)) h in
      (
        record {
          stopped_now = stopped_now;
          free = free;
          up = omega (arith, up, split, ready.up, total-append is_down xs (v ∷ ys));
        },
        omega (arith, less, total-swap effort p.workers xs w v ys place),
      )

  Trace-effort :
      {p q : ThreadPool A} {es : List (Event A)}
      → Trace Turn p es q
      → IsReady p
      → IsReady q × (turns_left p ≡ length es + turns_left q)
  Trace-effort no_steps ready = (ready, omega arith)
  Trace-effort (and_then s t) ready =
      let (ready', one) = Turn-effort s ready in
      let (ready'', more) = Trace-effort t ready' in (ready'', omega (arith, one, more))

  -- A worker of a ready pool that has not ended has a turn.
  TurnOf : (p : ThreadPool A) (w : Worker A) → Type ℓ
  TurnOf p w = (q : ThreadPool A) × (e : Event A) × (v : Worker A) × (turn p w ≡ some (q, e, v))

  turn-checking : (p : ThreadPool A) → p.is_locked ≡ false → TurnOf p checking
  unfolding turn TurnOf
  turn-checking p l = elim (Option-cases (turn p checking)) [
    | inl stuck ↦ absurd (ground arith)
    | inr ((q, e, v), h) ↦ (q, e, v, h)
  ]

  turn-awake :
      (p : ThreadPool A) (w : Worker A)
      → p.is_locked ≡ false
      → is_down w ≡ 0
      → (w ≡ exited) ⊎ TurnOf p w
  unfolding turn TurnOf
  turn-awake p checking l u = inr (turn-checking p l)
  turn-awake p dozing l u = absurd (omega (arith, u))
  turn-awake p asleep l u = absurd (omega (arith, u))
  turn-awake p exited l u = inl refl
  turn-awake p (running t) l u = inr (p, task_finished t, checking, refl)

  -- Some worker has a turn.
  abbrev pub MayGoOn : ThreadPool A → Type ℓ
  MayGoOn p = (e : Event A) × (q : ThreadPool A) × Turn p e q

  go_on :
      (p : ThreadPool A) (xs ws : List (Worker A))
      → p.workers ≡ xs ++ ws
      → p.is_locked ≡ false
      → total is_down ws ≡ 0
      → (total is_ended ws ≡ length ws) ⊎ MayGoOn p
  unfolding TurnOf
  go_on p xs [] place l u = inl refl
  go_on p xs (w ∷ ws) place l u = elim (turn-awake p w l (omega (arith, u))) [
    | inr (q, e, v, h) ↦ inr (e, put q (xs ++ v ∷ ws), works q w v xs ws place h)
    | inl over ↦
        elim (go_on p (xs ++ (w ∷ [])) ws (place ∙ sym (append_assoc xs (w ∷ []) ws)) l
          (omega (arith, u))) [
            | inl rest ↦ inl (omega (arith, ap is_ended over, rest))
            | inr more ↦ inr more
          ]
  ]

  effort-wake_le : (ws : List (Worker A)) → total effort (map wake ws) ≤ 2 * length ws
  effort-wake_le [] = omega arith
  effort-wake_le (w ∷ ws) = ground (arith, effort-wake_le ws)

  is_down-wake : (ws : List (Worker A)) → total is_dozing ws ≡ 0 → total is_down (map wake ws) ≡ 0
  is_down-wake [] h = refl
  is_down-wake (checking ∷ ws) h = omega (arith, is_down-wake ws (omega (arith, h)))
  is_down-wake (dozing ∷ ws) h = absurd (omega (arith, h))
  is_down-wake (asleep ∷ ws) h = omega (arith, is_down-wake ws (omega (arith, h)))
  is_down-wake (exited ∷ ws) h = omega (arith, is_down-wake ws (omega (arith, h)))
  is_down-wake (running t ∷ ws) h = omega (arith, is_down-wake ws (omega (arith, h)))

  shutdown-IsReady :
      (p : ThreadPool A) → Locks p → p.is_locked ≡ false → IsReady (notify_all (stop p))
  unfolding notify_all stop
  shutdown-IsReady p l f = record {
    stopped_now = refl;
    free = f;
    up = is_down-wake p.workers (ground (arith, l, f));
  }

  -- If a shutdown stops and notifies the pool while no worker holds the mutex, then, whatever led
  -- there, the workers make no more turns than two for each task that waits and two for each worker,
  -- and where no worker has a turn left, all have ended.
  pub shutdown_ends :
      {p q : ThreadPool A} {es ds : List (Event A)}
      → Trace Step new_pool es p
      → p.is_locked ≡ false
      → Trace Turn (notify_all (stop p)) ds q
      → (length ds ≤ 2 * (length p.tasks + length p.workers))
        × ((total is_ended q.workers ≡ length q.workers) ⊎ MayGoOn q)
  unfolding notify_all stop
  shutdown_ends {p} {q} before free after =
      let ready = shutdown-IsReady p (Trace-Locks before refl) free in
      let (end, spent) = Trace-effort after ready in
      (omega (arith, spent, effort-wake_le p.workers), go_on q [] q.workers refl end.free end.up)

-- The polling loop of a shutdown ends, since each poll but the last sleeps for a millisecond: after
-- no more polls than the timeout has milliseconds, with all threads completed or the time over.
poll_total :
    (fuel : ℕ) (count elapsed : ℕ → ℕ) (threads timeout i : ℕ)
    → ((j : ℕ) → j ≤ elapsed j)
    → i ≤ timeout
    → timeout < fuel + i
    → (k : ℕ) × (poll fuel count elapsed threads timeout i ≡ some k)
      × (k ≤ timeout)
      × ((count k ≡ threads) ⊎ (timeout ≤ elapsed k))
unfolding poll
poll_total zero count elapsed threads timeout i ticks h f = absurd (omega arith)
poll_total (suc fuel) count elapsed threads timeout i ticks h f =
    elim (Bool-cases (count i == threads)) [
      | inl done ↦ (i, rw done refl, h, inl (ground arith))
      | inr more ↦ elim (Bool-cases (leb timeout (elapsed i))) [
        | inl late ↦ (i, rw (more, late) refl, h, inr (ground arith))
        | inr early ↦
            let below : i < timeout = ground (arith, ticks i, early) in
            let (k, e, b, c) =
              poll_total fuel count elapsed threads timeout (i + 1) ticks (omega arith)
                (omega arith) in
            (k, rw (more, early) e, b, c)
      ]
    ]

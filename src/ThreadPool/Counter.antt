-- ===== src/ThreadPool/Counter.antt =====
-- What the counter of a ThreadPool counts between a reset and the end of a shutdown.
use cpp_client_sdk.Prelude.{
  ℕ, ◌+◌, ◌≡◌, refl, sym, ◌∙◌, ◌⊎◌, Bool, true, false, some, List, [], arith, length, All, total,
}
use cpp_client_sdk.ThreadPool.{
  Worker, checking, dozing, asleep, exited, running, ThreadPool, Event, pool_restarted,
  shutdown_answered, new_pool, reset_pool, push_task, notify_all, stop, turn, works, Step, turns,
  rouses, restarts, adds, stops, notifies, settles, Trace, no_steps, and_then,
}
use cpp_client_sdk.ThreadPool.Drain.{
  length-create_threads, is_ended, total-swap, length-swap, total-wake, length-wake,
  NotifyOne-total, NotifyOne-length, total-create_threads,
}

module _ {ℓ} {A : Type ℓ} where
  -- An event that is part of one run of the threads, from a reset to the answer of a shutdown.
  abbrev pub is_calm : Event A → Bool
  is_calm pool_restarted = false
  is_calm (shutdown_answered b) = false
  is_calm _ = true

  -- The counter counts the workers that ended, of the `n` that were created; none ends while the
  -- pool is running.
  pub record Inv (n : ℕ) (p : ThreadPool A) : Type ℓ where
    pub counted : p.completed_count ≡ total is_ended p.workers
    pub created : length p.workers ≡ n
    pub handles : p.threads ≡ n
    pub stays : p.is_running ≡ true → p.completed_count ≡ 0

  -- What a turn does to the counter: the worker ends, while the pool is stopped and nothing waits, or
  -- the counter stays.
  pub turn_counter :
      (p q : ThreadPool A) (w v : Worker A) (e : Event A)
      → turn p w ≡ some (q, e, v)
      → (q.completed_count + is_ended w ≡ p.completed_count + is_ended v)
        × (q.threads ≡ p.threads)
        × (q.is_running ≡ p.is_running)
        × (p.is_running ≡ true → q.completed_count ≡ p.completed_count)
        × ((q.completed_count ≡ p.completed_count) ⊎ (q.tasks ≡ []))
        × (p.tasks ≡ [] → q.tasks ≡ [])
  unfolding turn
  turn_counter p q checking v e h = ground arith
  turn_counter p q dozing v e h = ground arith
  turn_counter p q asleep v e h = ground arith
  turn_counter p q exited v e h = ground arith
  turn_counter p q (running t) v e h = ground arith

  -- Every field of `Inv` but the counter's sum, which the turn's place in the list decides.
  pub Step-Inv :
      {n : ℕ} {p q : ThreadPool A} {e : Event A} → Step p e q → is_calm e ≡ true → Inv n p → Inv n q
  unfolding push_task stop notify_all
  Step-Inv {p} (turns (works q w v xs ys place h)) c inv =
      let (sum, handles, runs, stays, _, _) = turn_counter p q w v _ h in
      record {
        counted = omega (arith, inv.counted, sum, total-swap is_ended p.workers xs w v ys place);
        created = length-swap p.workers xs w v ys place ∙ inv.created;
        handles = handles ∙ inv.handles;
        stays = λ r. stays (sym runs ∙ r) ∙ inv.stays (sym runs ∙ r);
      }
  Step-Inv {p} (rouses xs ys place) c inv = record {
    counted = omega (arith, inv.counted, total-swap is_ended p.workers xs asleep checking ys place);
    created = length-swap p.workers xs asleep checking ys place ∙ inv.created;
    handles = inv.handles;
    stays = inv.stays;
  }
  Step-Inv (restarts n) c inv = ground (arith, c)
  Step-Inv (adds t free one) c inv = record {
    counted = inv.counted ∙ sym (NotifyOne-total is_ended refl one);
    created = NotifyOne-length one ∙ inv.created;
    handles = inv.handles;
    stays = inv.stays;
  }
  Step-Inv stops c inv = record {
    counted = inv.counted;
    created = inv.created;
    handles = inv.handles;
    stays = λ r. ground (arith, r);
  }
  Step-Inv {p} notifies c inv = record {
    counted = inv.counted ∙ sym (total-wake is_ended p.workers refl);
    created = length-wake p.workers ∙ inv.created;
    handles = inv.handles;
    stays = inv.stays;
  }
  Step-Inv settles c inv = ground (arith, c)

  pub Trace-Inv :
      {n : ℕ} {p q : ThreadPool A} {es : List (Event A)}
      → Trace Step p es q
      → All (λ e. is_calm e ≡ true) es
      → Inv n p
      → Inv n q
  Trace-Inv no_steps c inv = inv
  Trace-Inv (and_then s t) c inv = Trace-Inv t c.1 (Step-Inv s c.0 inv)

  pub reset_pool-Inv : (n : ℕ) → Inv n (reset_pool n new_pool)
  unfolding reset_pool
  reset_pool-Inv n = record {
    counted = sym (total-create_threads is_ended n refl);
    created = length-create_threads A n;
    handles = refl;
    stays = λ r. refl;
  }

-- ===== src/Async.antt =====
-- The AsyncHelper and BackgroundTimerHandle of src/statsig_compat/async/async_helper.hpp. A shared
-- flag is an address in the list of all flags that were made; the clock and the flag of a timer are
-- the sequences of what is read from them.
pub mod Timer
use cpp_client_sdk.JsonLib.{◌>>=◌}
use cpp_client_sdk.Prelude.{
  ℕ, zero, suc, ◌+◌, ◌≡◌, refl, ap, Bool, true, false, Option, none, some, List, [], ◌∷◌, ◌++◌,
  if◌then◌else◌, length, ℤ, ◌-ℤ◌, ltb_ℤ,
}
use cpp_client_sdk.ThreadPool.{ThreadPool, reset_pool, push_task}

-- A task is a value of type `A`.
abbrev pub AsyncHelper {ℓ} : Type ℓ → Type ℓ
AsyncHelper A = ThreadPool A

module _ {ℓ} {A : Type ℓ} where
  unfoldable pub run_in_background : A → AsyncHelper A → AsyncHelper A
  unfolding push_task
  run_in_background task helper = push_task task helper

  unfoldable pub start_helper : AsyncHelper A → AsyncHelper A
  unfolding reset_pool
  start_helper helper = reset_pool 5 helper

-- `shutdown_condition`: the address of the flag, or a null pointer.
pub record BackgroundTimerHandle : Type 0 where
  pub shutdown_condition : Option ℕ

abbrev pub no_timer : BackgroundTimerHandle
no_timer = record { shutdown_condition = none }

-- `flag->store(true)`.
abbrev pub set_flag : ℕ → List Bool → List Bool
set_flag i [] = []
set_flag zero (b ∷ bs) = true ∷ bs
set_flag (suc i) (b ∷ bs) = b ∷ set_flag i bs

abbrev pub flag_at : ℕ → List Bool → Bool
flag_at i [] = false
flag_at zero (b ∷ bs) = b
flag_at (suc i) (b ∷ bs) = flag_at i bs

-- Reset, which the destructor calls too.
unfoldable pub reset_handle : BackgroundTimerHandle → List Bool → BackgroundTimerHandle × List Bool
reset_handle h flags = elim h.shutdown_condition [
  | none ↦ (h, flags)
  | some i ↦ (no_timer, set_flag i flags)
]

-- Both moves: the handle that is moved into, and the one that is moved from.
unfoldable pub move_handle :
    BackgroundTimerHandle → BackgroundTimerHandle → BackgroundTimerHandle × BackgroundTimerHandle
move_handle this other =
    (record { shutdown_condition = other.shutdown_condition }, record { shutdown_condition = none })

-- The handle that StartBackgroundTimer returns, and the flags with the new one.
unfoldable pub new_timer_handle : List Bool → BackgroundTimerHandle × List Bool
new_timer_handle flags =
    (record { shutdown_condition = some (length flags) }, flags ++ (false ∷ []))

set_flag-append_last :
    (flags : List Bool) → set_flag (length flags) (flags ++ false ∷ []) ≡ flags ++ true ∷ []
set_flag-append_last [] = refl
set_flag-append_last (b ∷ bs) = ap (◌∷◌ b) (set_flag-append_last bs)

-- Resetting the handle of a new timer stops that timer and no other.
reset_handle-new_timer_handle :
    (flags : List Bool)
    → let (handle, made) = new_timer_handle flags in
      reset_handle handle made ≡ (no_timer, flags ++ true ∷ [])
unfolding reset_handle new_timer_handle
reset_handle-new_timer_handle flags = ap (λ t. (no_timer, t)) (set_flag-append_last flags)

-- A move leaves the flag that the handle held as it is: the timer of that flag goes on.
move_handle-reset_handle :
    (i j : ℕ) (flags : List Bool)
    → let this : BackgroundTimerHandle = record { shutdown_condition = some i } in
      let other : BackgroundTimerHandle = record { shutdown_condition = some j } in
      reset_handle (move_handle this other).0 flags ≡ (no_timer, set_flag j flags)
unfolding reset_handle move_handle
move_handle-reset_handle i j flags = refl

-- The task of StartBackgroundTimer. `flag i` is the i-th reading of the shutdown condition, `now i`
-- the i-th reading of the clock.
module _ (flag : ℕ → Bool) (now : ℕ → ℤ) (timer_interval_ms : ℤ) where
  -- The inner loop, from the reading of the flag that follows the first sleep.
  unfoldable pub sleep_in_increments : ℕ → ℕ → ℕ → ℤ → Option (ℕ × ℕ)
  sleep_in_increments zero f c sleep_start = none
  sleep_in_increments (suc fuel) f c sleep_start =
      let rest = sleep_in_increments fuel (f + 1) (c + 1) sleep_start in
      if flag f
      then some (f + 1, c)
      else if ltb_ℤ (now c -ℤ sleep_start) timer_interval_ms
      then rest
      else some (f + 1, c + 1)

  -- The outer loop: the times at which the task is called.
  unfoldable pub timer_loop : ℕ → ℕ → ℕ → ℤ → Option (List ℤ)
  unfolding sleep_in_increments
  timer_loop zero f c last_attempt = none
  timer_loop (suc fuel) f c last_attempt =
      let asleep_until = sleep_in_increments fuel (f + 1) (c + 2) (now (c + 1)) in
      let rest = asleep_until >>= λ (f', c'). timer_loop fuel f' c' last_attempt in
      let called = timer_loop fuel (f + 2) (c + 2) (now (c + 1)) in
      if flag f
      then some []
      else if ltb_ℤ (now c -ℤ last_attempt) timer_interval_ms
      then rest
      else if flag (f + 1)
      then some []
      else called >>= λ times. some (now (c + 1) ∷ times)

  -- From the first reading of the clock.
  unfoldable pub background_timer : ℕ → Option (List ℤ)
  unfolding timer_loop
  background_timer fuel = timer_loop fuel 0 1 (now 0)

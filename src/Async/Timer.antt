-- ===== src/Async/Timer.antt =====
-- When a background timer calls its task, and that it ends.
use cpp_client_sdk.Async.{sleep_in_increments, timer_loop, background_timer}
use cpp_client_sdk.JsonLib.{bind_cases}
use cpp_client_sdk.Prelude.{
  ℕ, zero, suc, ◌+◌, ◌≤◌, ◌<◌, ◌≡◌, refl, ◌⊎◌, inl, inr, Bool, true, false, some, List, [], ◌∷◌,
  arith, Bool-cases, ℤ, ◌+ℤ◌, ◌-ℤ◌, ◌≤ℤ◌, ltb_ℤ,
}

module _ (flag : ℕ → Bool) (now : ℕ → ℤ) (timer_interval_ms : ℤ) where
  -- Each time is at least an interval after the one before it.
  abbrev pub Spaced : ℤ → List ℤ → Type 0
  Spaced last [] = Unit
  Spaced last (t ∷ ts) = (last +ℤ timer_interval_ms ≤ℤ t) × Spaced t ts

  -- A call is made where no flag is up and the interval is over.
  timer_loop_cases :
      (fuel f c : ℕ) (last : ℤ) (times : List ℤ)
      → timer_loop flag now timer_interval_ms (suc fuel) f c last ≡ some times
      → (times ≡ [])
        ⊎ ((f' : ℕ) × (c' : ℕ) × (timer_loop flag now timer_interval_ms fuel f' c' last
              ≡ some times))
        ⊎ ((rest : List ℤ) × (times ≡ now (c + 1) ∷ rest)
            × (ltb_ℤ (now c -ℤ last) timer_interval_ms ≡ false)
            × (timer_loop flag now timer_interval_ms fuel (f + 2) (c + 2) (now (c + 1))
                ≡ some rest))
  unfolding timer_loop
  timer_loop_cases fuel f c last times h = elim (Bool-cases (flag f)) [
    | inl up ↦ inl (ground (arith, h, up))
    | inr down ↦ elim (Bool-cases (ltb_ℤ (now c -ℤ last) timer_interval_ms)) [
      | inl early ↦
          let (slept, _, e) =
            bind_cases
              (sleep_in_increments flag now timer_interval_ms fuel (f + 1) (c + 2) (now (c + 1)))
              (λ s. timer_loop flag now timer_interval_ms fuel s.0 s.1 last) times
              (rw (down, early) at h) in
          inr (inl (slept.0, slept.1, e))
      | inr late ↦ elim (Bool-cases (flag (f + 1))) [
        | inl up ↦ inl (ground (arith, h, up, down, late))
        | inr still ↦
            let (rest, e, cons) =
              bind_cases (timer_loop flag now timer_interval_ms fuel (f + 2) (c + 2) (now (c + 1)))
                (λ ts. some (now (c + 1) ∷ ts)) times (rw (down, late, still) at h) in
            inr (inr (rest, ground (arith, cons), late, e))
      ]
    ]
  ]

  timer_loop-Spaced :
      (fuel f c : ℕ) (last : ℤ) (times : List ℤ)
      → ((i : ℕ) → now i ≤ℤ now (suc i))
      → timer_loop flag now timer_interval_ms fuel f c last ≡ some times
      → Spaced last times
  unfolding timer_loop
  timer_loop-Spaced zero f c last times mono h = ground arith
  timer_loop-Spaced (suc fuel) f c last times mono h =
      elim (timer_loop_cases fuel f c last times h) [
        | inl over ↦ rw over tt
        | inr (inl (f', c', slept)) ↦ timer_loop-Spaced fuel f' c' last times mono slept
        | inr (inr (rest, called, late, more)) ↦ rw called (
          apart last (now c) (now (c + 1)) late (ground (arith, mono c)),
          timer_loop-Spaced fuel (f + 2) (c + 2) (now (c + 1)) rest mono more,
        )
      ]
    where
      apart :
          (l a b : ℤ)
          → ltb_ℤ (a -ℤ l) timer_interval_ms ≡ false
          → a ≤ℤ b
          → l +ℤ timer_interval_ms ≤ℤ b
      apart l a b h m = ground arith

  -- The flag is up for every reading from the n-th.
  abbrev pub IsUpFrom : ℕ → Type 0
  IsUpFrom n = (j : ℕ) → n ≤ j → flag j ≡ true

  sleep_total :
      (n fuel f c : ℕ) (sleep_start : ℤ)
      → IsUpFrom n
      → 0 < fuel
      → n < fuel + f
      → (f' : ℕ) × (c' : ℕ) × (f < f')
        × (sleep_in_increments flag now timer_interval_ms fuel f c sleep_start ≡ some (f', c'))
  unfolding sleep_in_increments
  sleep_total n zero f c sleep_start up h b = absurd (omega arith)
  sleep_total n (suc fuel) f c sleep_start up h b = elim (Bool-cases (flag f)) [
    | inl stop_now ↦ (f + 1, c, omega arith, rw stop_now refl)
    | inr down ↦ elim (Bool-cases (ltb_ℤ (now c -ℤ sleep_start) timer_interval_ms)) [
      | inr late ↦ (f + 1, c + 1, omega arith, rw (down, late) refl)
      | inl early ↦
          let before : f < n = ground (arith, up f, down) in
          let (f', c', less, e) =
            sleep_total n fuel (f + 1) (c + 1) sleep_start up (omega arith) (omega arith) in
          (f', c', omega arith, rw (down, early) e)
    ]
  ]

  timer_loop_ends :
      (n fuel f c : ℕ) (last : ℤ)
      → IsUpFrom n
      → 0 < fuel
      → n < fuel + f
      → (times : List ℤ) × (timer_loop flag now timer_interval_ms fuel f c last ≡ some times)
  unfolding timer_loop
  timer_loop_ends n zero f c last up h b = absurd (omega arith)
  timer_loop_ends n (suc fuel) f c last up h b = elim (Bool-cases (flag f)) [
    | inl stop_now ↦ ([], rw stop_now refl)
    | inr down ↦
        let before : f < n = ground (arith, up f, down) in
        elim (Bool-cases (ltb_ℤ (now c -ℤ last) timer_interval_ms)) [
          | inl early ↦
              let (f', c', less, e) =
                sleep_total n fuel (f + 1) (c + 2) (now (c + 1)) up (omega arith) (omega arith) in
              let (times, e') = timer_loop_ends n fuel f' c' last up (omega arith) (omega arith) in
              (times, rw (down, early, e) e')
          | inr late ↦ elim (Bool-cases (flag (f + 1))) [
            | inl stop_now ↦ ([], rw (down, late, stop_now) refl)
            | inr still ↦
                let (times, e) =
                  timer_loop_ends n fuel (f + 2) (c + 2) (now (c + 1)) up (omega arith)
                    (omega arith) in
                (now (c + 1) ∷ times, rw (down, late, still, e) refl)
          ]
        ]
  ]

  -- If the flag is up from its n-th reading on, as after a Reset of the handle, and the clock does
  -- not go back, the timer's loop ends, within as many rounds as that and one more, and its task has
  -- been called at times that are at least an interval apart, the first an interval after the start.
  pub background_timer_total :
      (n : ℕ)
      → IsUpFrom n
      → ((i : ℕ) → now i ≤ℤ now (suc i))
      → (times : List ℤ) × (background_timer flag now timer_interval_ms (suc n) ≡ some times)
        × Spaced (now 0) times
  unfolding background_timer
  background_timer_total n up mono =
      let (times, e) = timer_loop_ends n (suc n) 0 1 (now 0) up (omega arith) (omega arith) in
      (times, e, timer_loop-Spaced (suc n) 0 1 (now 0) times mono e)

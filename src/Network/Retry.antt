-- ===== src/Network/Retry.antt =====
-- When PostWithRetry tries again, and that it ends.
use cpp_client_sdk.Diagnostics.{Diagnostics}
use cpp_client_sdk.Http.{is_success_status, endpoint_initialize}
use cpp_client_sdk.JsonLib.{JsonLib}
use cpp_client_sdk.Network.{
  is_retryable, has_success_code, Exchange, Posted, attempt_once, post_with_retry,
}
use cpp_client_sdk.Prelude.{
  ℕ, zero, suc, ◌+◌, ◌≤◌, ◌<◌, String, ◌≡◌, refl, ap, ◌∙◌, ◌⊎◌, inl, inr, Bool, true, false, ◌&&◌,
  ◌||◌, not, some, arith, ℕ_discrete, ltb, leb, if◌then◌else◌, Bool-cases, ℤ, negsuc,
}
use cpp_client_sdk.Text.{str_eq}

module _ ⦃J : JsonLib⦄ (respond : ℕ → Exchange) where
  -- A response after which another attempt may be made.
  pub asks_retry : ℕ → Bool
  unfolding is_retryable
  asks_retry n =
      let answer = (respond n).answer in
      not (has_success_code (some answer)) && is_retryable answer.status

  -- The attempt at which a run from `first` ends.
  pub record EndsAt (first max_attempts last : ℕ) : Type 0 where
    pub from : first ≤ last
    pub within : (last ≤ max_attempts) ⊎ (last ≡ first)
    pub retried : (n : ℕ) → first ≤ n → n < last → asks_retry n ≡ true
    pub stopped : (asks_retry last ≡ false) ⊎ (max_attempts ≤ last)

  abbrev pub last_posted : Diagnostics → String → ℕ → Posted
  last_posted d endpoint attempt = record {
    diagnostics = attempt_once respond d (str_eq endpoint endpoint_initialize) attempt;
    attempt = attempt;
    answer = (respond attempt).answer;
  }

  -- A negative status is that of a connection that failed.
  pub asks_retry-negsuc : (n k : ℕ) → (respond n).answer.status ≡ negsuc k → asks_retry n ≡ false
  unfolding asks_retry is_retryable
  asks_retry-negsuc n k h =
      ap (λ s. not (is_success_status s) && is_retryable s) h
      ∙ failed (is_success_status (negsuc k))
    where
      failed : (b : Bool) → not b && false ≡ false
      failed true = refl
      failed false = refl

  pub post_with_retry_stop :
      (fuel : ℕ) (d : Diagnostics) (endpoint : String) (max_attempts attempt : ℕ)
      → (asks_retry attempt ≡ false) ⊎ (max_attempts ≤ attempt)
      → post_with_retry respond (suc fuel) d endpoint max_attempts attempt
        ≡ some (last_posted d endpoint attempt)
  unfolding post_with_retry asks_retry
  post_with_retry_stop fuel d endpoint max_attempts attempt h =
      stop (is_success_status status) (is_retryable status) h
    where
      status : ℤ
      status = (respond attempt).answer.status

      stop :
          (success retryable : Bool)
          → (not success && retryable ≡ false) ⊎ (max_attempts ≤ attempt)
          → (if success
              then some (last_posted d endpoint attempt)
              else if not retryable || leb max_attempts attempt
              then some (last_posted d endpoint attempt)
              else post_with_retry respond fuel
                  (attempt_once respond d (str_eq endpoint endpoint_initialize) attempt)
                  endpoint
                  max_attempts
                  (attempt + 1))
            ≡ some (last_posted d endpoint attempt)
      stop true r k = refl
      stop false false k = refl
      stop false true (inl e) = cc
      stop false true (inr e) = ground arith

  post_with_retry_again :
      (fuel : ℕ) (d : Diagnostics) (endpoint : String) (max_attempts attempt : ℕ)
      → asks_retry attempt ≡ true
      → attempt < max_attempts
      → post_with_retry respond (suc fuel) d endpoint max_attempts attempt
        ≡ post_with_retry respond fuel
            (attempt_once respond d (str_eq endpoint endpoint_initialize) attempt)
            endpoint
            max_attempts
            (attempt + 1)
  unfolding post_with_retry asks_retry
  post_with_retry_again fuel d endpoint max_attempts attempt h k = ground arith

  EndsAt-earlier :
      {first max_attempts last : ℕ}
      → asks_retry first ≡ true
      → first < max_attempts
      → EndsAt (first + 1) max_attempts last
      → EndsAt first max_attempts last
  EndsAt-earlier {first} {max_attempts} {last} e h r = record {
    from = omega (arith, r.from);
    within = inl (omega (arith, r.within));
    retried = λ n p q. elim (ℕ_discrete first n) [
      | yes same ↦ rw (← same) e
      | no other ↦ r.retried n (omega arith) q
    ];
    stopped = r.stopped;
  }

  -- With fuel for the attempts that are left the run ends: the caller gets the response of one last
  -- attempt, no later than the maximum; every attempt before it failed with a retryable status, and
  -- it is itself a success, a failure that is not retryable, or the last one allowed.
  pub post_with_retry-EndsAt :
      (fuel : ℕ) (d : Diagnostics) (endpoint : String) (max_attempts attempt : ℕ)
      → max_attempts < attempt + fuel
      → 0 < fuel
      → (p : Posted) × (post_with_retry respond fuel d endpoint max_attempts attempt ≡ some p)
        × (p.answer ≡ (respond p.attempt).answer)
        × EndsAt attempt max_attempts p.attempt
  post_with_retry-EndsAt zero d endpoint max_attempts attempt h k = absurd (omega arith)
  post_with_retry-EndsAt (suc fuel) d endpoint max_attempts attempt h k =
      elim (Bool-cases (asks_retry attempt && ltb attempt max_attempts)) [
        | inl more ↦
            let rest =
              post_with_retry-EndsAt fuel
                (attempt_once respond d (str_eq endpoint endpoint_initialize) attempt) endpoint
                max_attempts (attempt + 1) (omega arith) (ground arith) in
            (
              rest.0,
              post_with_retry_again fuel d endpoint max_attempts attempt (ground arith)
                    (ground arith)
                  ∙ rest.1,
              rest.2,
              EndsAt-earlier (ground arith) (ground arith) rest.3,
            )
        | inr done ↦ (
          last_posted d endpoint attempt,
          post_with_retry_stop fuel d endpoint max_attempts attempt (ground arith),
          refl,
          record {
            from = omega arith;
            within = inr refl;
            retried = λ n p q. absurd (omega arith);
            stopped = ground arith;
          },
        )
      ]

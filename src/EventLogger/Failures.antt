-- ===== src/EventLogger/Failures.antt =====
-- Which failed batches are kept for the next session.
use cpp_client_sdk.Event.{RetryableEventPayload}
use cpp_client_sdk.EventLogger.{add_failure}
use cpp_client_sdk.JsonLib.{JsonLib}
use cpp_client_sdk.Prelude.{
  ℕ, zero, suc, ◌≤◌, ◌≡◌, refl, sym, ap, ◌∙◌, inl, inr, List, [], ◌∷◌, arith, ltb, Bool-cases,
  length, take, pop_back, length-take, take_all,
}

module _ {ℓ} {A : Type ℓ} where
  -- The elements of the first list, last first, in front of the second.
  abbrev pub rev_append : List A → List A → List A
  rev_append [] ys = ys
  rev_append (x ∷ xs) ys = rev_append xs (x ∷ ys)

  take-take : (m n : ℕ) (xs : List A) → m ≤ n → take m (take n xs) ≡ take m xs
  take-take zero n xs h = refl
  take-take (suc m) zero xs h = absurd (omega (arith, h))
  take-take (suc m) (suc n) [] h = refl
  take-take (suc m) (suc n) (x ∷ xs) h = ap (◌∷◌ x) (take-take m n xs (omega (arith, h)))

  take-cons_take : (n : ℕ) (x : A) (xs : List A) → take n (x ∷ take n xs) ≡ take n (x ∷ xs)
  take-cons_take zero x xs = refl
  take-cons_take (suc n) x xs = ap (◌∷◌ x) (take-take n (suc n) xs (omega arith))

  take-rev_append :
      (n : ℕ) (xs ys : List A) → take n (rev_append xs (take n ys)) ≡ take n (rev_append xs ys)
  take-rev_append n [] ys = take-take n n ys (omega arith)
  take-rev_append n (x ∷ xs) ys =
      sym (take-rev_append n xs (x ∷ take n ys))
      ∙ ap (λ t. take n (rev_append xs t)) (take-cons_take n x ys)
      ∙ take-rev_append n xs (x ∷ ys)

  pop_back-take : (xs : List A) (n : ℕ) → length xs ≡ suc n → pop_back xs ≡ take n xs
  pop_back-take [] n h = absurd (omega (arith, h))
  pop_back-take (x ∷ []) zero h = refl
  pop_back-take (x ∷ []) (suc n) h = absurd (omega (arith, h))
  pop_back-take (x ∷ y ∷ ys) zero h = absurd (omega (arith, h))
  pop_back-take (x ∷ y ∷ ys) (suc n) h = ap (◌∷◌ x) (pop_back-take (y ∷ ys) n (omega (arith, h)))

module _ ⦃J : JsonLib⦄ where
  -- One batch fails after the other.
  pub add_failures :
      List RetryableEventPayload → List RetryableEventPayload → List RetryableEventPayload
  add_failures cached [] = cached
  add_failures cached (p ∷ ps) = add_failures (add_failure cached p) ps

  add_failure-take :
      (cached : List RetryableEventPayload) (p : RetryableEventPayload)
      → length cached ≤ 5
      → add_failure cached p ≡ take 5 (p ∷ cached)
  add_failure-take cached p h = elim (Bool-cases (ltb 5 (suc (length cached)))) [
    | inl full ↦ unfold add_failure in rw full (pop_back-take (p ∷ cached) 5 (ground (arith, full)))
    | inr room ↦
        unfold add_failure in rw room (sym (take_all 5 (p ∷ cached) (ground (arith, room))))
  ]

  -- The file keeps the newest five failed batches, the newest first, if it held at most five.
  add_failures_newest :
      (cached ps : List RetryableEventPayload)
      → length cached ≤ 5
      → add_failures cached ps ≡ take 5 (rev_append ps cached)
  unfolding add_failures
  add_failures_newest cached [] h = sym (take_all 5 cached h)
  add_failures_newest cached (p ∷ ps) h = rw (add_failure-take cached p h) (
      add_failures_newest (take 5 (p ∷ cached)) ps (omega (arith, length-take 5 (p ∷ cached)))
      ∙ take-rev_append 5 ps (p ∷ cached))

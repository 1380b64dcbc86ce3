-- ===== src/Store/Lifecycle.antt =====
-- The states that an EvaluationStore goes through: what its source information says of its values.
use cpp_client_sdk.Details.{
  ValueSource, uninitialized, loading, no_values, SourceInfo, DataAdapterResult,
}
use cpp_client_sdk.Evaluation.{InitializeResponse}
use cpp_client_sdk.Json.InitializeResponse.{deserialize_response, deserialize_response_cases}
use cpp_client_sdk.JsonLib.{JsonLib}
use cpp_client_sdk.Prelude.{
  ◌≡◌, refl, ◌⊎◌, inl, inr, Bool, true, false, Option, none, some, List, [], ◌∷◌, arith,
  if◌then◌else◌, pos,
}
use cpp_client_sdk.Result.{code_ok, json_failure_initialize_response, code_eq, succeed, fail}
use cpp_client_sdk.Store.{
  EvaluationStore, new_store, reset, finalize, set_values_from_data_adapter_result,
}

module _ ⦃J : JsonLib⦄ where
  -- The methods that change the store.
  pub data StoreCall : Type 0 where
    resets finalizes : StoreCall
    sets : Option DataAdapterResult → StoreCall

  pub step : EvaluationStore → StoreCall → EvaluationStore
  step s resets = reset s
  step s finalizes = finalize s
  step s (sets result) = (set_values_from_data_adapter_result s result).0

  pub run : EvaluationStore → List StoreCall → EvaluationStore
  run s [] = s
  run s (c ∷ cs) = run (step s c) cs

  -- A source that goes with no values.
  abbrev pub IsPending : ValueSource → Type 0
  IsPending v = (v ≡ uninitialized) ⊎ (v ≡ loading) ⊎ (v ≡ no_values)

  -- Without values the times are zero and the source is a pending one; with values the time of the
  -- last config update is theirs.
  abbrev pub Describes : Option InitializeResponse → SourceInfo → Type 0
  Describes none i = (i.lcut ≡ pos 0) × (i.received_at ≡ pos 0) × IsPending i.source
  Describes (some v) i = i.lcut ≡ v.time

  abbrev pub IsConsistent : EvaluationStore → Type 0
  IsConsistent s = Describes s.values s.source_info

  reset-IsConsistent : (s : EvaluationStore) → IsConsistent (reset s)
  unfolding reset
  reset-IsConsistent s = (refl, refl, inr (inl refl))

  finalize-IsConsistent : (s : EvaluationStore) → IsConsistent s → IsConsistent (finalize s)
  unfolding finalize
  finalize-IsConsistent s h = ground arith

  -- A parse either fails and leaves the store, or puts its response there.
  pub set_cases :
      (s : EvaluationStore) (r : DataAdapterResult)
      → (deserialize_response r.values_str ≡ fail json_failure_initialize_response)
          × (set_values_from_data_adapter_result s (some r) ≡ (s, json_failure_initialize_response))
        ⊎ ((v : InitializeResponse) × (deserialize_response r.values_str ≡ succeed v)
            × (set_values_from_data_adapter_result s (some r) ≡ (
              record {
                values = some v;
                source_info = record {
                  source = r.source;
                  lcut = v.time;
                  received_at = r.received_at;
                };
              },
              code_ok,
            )))
  unfolding set_values_from_data_adapter_result
  set_cases s r = elim (deserialize_response_cases r.values_str) [
    | inl e ↦ inl (e, rw e refl)
    | inr (v, e) ↦ inr (v, e, rw e refl)
  ]

  -- A result that parses fills any store, and there is nothing left to finalize.
  pub finalize_set :
      (s : EvaluationStore) (r : DataAdapterResult) (v : InitializeResponse)
      → deserialize_response r.values_str ≡ succeed v
      → finalize (set_values_from_data_adapter_result s (some r)).0 ≡ record {
        values = some v;
        source_info = record { source = r.source; lcut = v.time; received_at = r.received_at };
      }
  unfolding finalize set_values_from_data_adapter_result
  finalize_set s r v parsed = rw parsed refl

  set-IsConsistent :
      (s : EvaluationStore) (r : Option DataAdapterResult)
      → IsConsistent s
      → IsConsistent (set_values_from_data_adapter_result s r).0
  set-IsConsistent s none h = unfold set_values_from_data_adapter_result in h
  set-IsConsistent s (some r) h = elim (set_cases s r) [
    | inl (e, q) ↦ rw q h
    | inr (v, e, q) ↦ rw q refl
  ]

  step-IsConsistent :
      (s : EvaluationStore) (c : StoreCall) → IsConsistent s → IsConsistent (step s c)
  unfolding step
  step-IsConsistent s resets h = reset-IsConsistent s
  step-IsConsistent s finalizes h = finalize-IsConsistent s h
  step-IsConsistent s (sets r) h = set-IsConsistent s r h

  run_keeps : (s : EvaluationStore) (cs : List StoreCall) → IsConsistent s → IsConsistent (run s cs)
  unfolding run
  run_keeps s [] h = h
  run_keeps s (c ∷ cs) h = run_keeps (step s c) cs (step-IsConsistent s c h)

  -- After any calls on a new store: without values the times are zero and the source is
  -- Uninitialized, Loading or NoValues; with values the last config update is the values' own time.
  pub run-IsConsistent : (cs : List StoreCall) → IsConsistent (run new_store cs)
  run-IsConsistent cs = run_keeps new_store cs (refl, refl, inl refl)

  -- The calls that a change of user makes on its store.
  abbrev pub update_calls : Option DataAdapterResult → List StoreCall
  update_calls r = resets ∷ sets r ∷ finalizes ∷ []

  abbrev pub answer_of : Option DataAdapterResult → EvaluationStore
  answer_of none = record {
    values = none;
    source_info = record { source = no_values; lcut = pos 0; received_at = pos 0 };
  }
  answer_of (some r) = elim (deserialize_response r.values_str).value [
    | none ↦ record {
      values = none;
      source_info = record { source = no_values; lcut = pos 0; received_at = pos 0 };
    }
    | some v ↦ record {
      values = some v;
      source_info = record { source = r.source; lcut = v.time; received_at = r.received_at };
    }
  ]

  settle :
      (t : EvaluationStore) (r : DataAdapterResult)
      → t.values ≡ none
      → finalize (set_values_from_data_adapter_result t (some r)).0 ≡ answer_of (some r)
  unfolding finalize
  settle t r h = elim (set_cases t r) [
    | inl (e, q) ↦ ground (arith, e, q)
    | inr (v, e, q) ↦ ground (arith, e, q)
  ]

  -- A change of user forgets the previous user's values, whatever the store held: it leaves exactly
  -- the values and times of the result it is given, and NoValues with zero times where that is
  -- missing or does not parse.
  pub run-update_calls :
      (s : EvaluationStore) (r : Option DataAdapterResult) → run s (update_calls r) ≡ answer_of r
  unfolding run step
  run-update_calls s none = unfold set_values_from_data_adapter_result finalize reset in refl
  run-update_calls s (some r) = settle (reset s) r (unfold reset in refl)

  -- The same, for a caller that sets the values only if a test passes.
  pub settle_if :
      (s : EvaluationStore) (is_set : Bool) (r : Option DataAdapterResult)
      → finalize (if is_set then (set_values_from_data_adapter_result (reset s) r).0 else reset s)
        ≡ answer_of (if is_set then r else none)
  unfolding run step
  settle_if s true r = run-update_calls s r
  settle_if s false r = unfold finalize reset in refl

  pub reset-values : (s : EvaluationStore) → (reset s).values ≡ none
  unfolding reset
  reset-values s = refl

  pub finalize-values : (s : EvaluationStore) → (finalize s).values ≡ s.values
  unfolding finalize
  finalize-values s = ground arith

  -- The values after SetValuesFromDataAdapterResult, from the values before it.
  abbrev pub put_values :
      Option DataAdapterResult → Option InitializeResponse → Option InitializeResponse
  put_values none old = old
  put_values (some r) old =
      let parsed = deserialize_response r.values_str in
      if code_eq parsed.code code_ok then parsed.value else old

  pub set-values :
      (s : EvaluationStore) (r : Option DataAdapterResult)
      → (set_values_from_data_adapter_result s r).0.values ≡ put_values r s.values
  set-values s none = unfold set_values_from_data_adapter_result in refl
  set-values s (some r) = elim (set_cases s r) [
    | inl (e, q) ↦ rw (q, e) refl
    | inr (v, e, q) ↦ rw (q, e) refl
  ]

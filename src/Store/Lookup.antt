-- ===== src/Store/Lookup.antt =====
-- What GetGate, GetConfig and GetLayer of an EvaluationStore answer.
use cpp_client_sdk.Details.{SourceInfo, unrecognized_from_source_info, recognized_from_source_info}
use cpp_client_sdk.Dict.{Dict, find, map_contains}
use cpp_client_sdk.Evaluation.{DetailedEvaluation, InitializeResponse}
use cpp_client_sdk.Hashing.{djb2}
use cpp_client_sdk.JsonLib.{JsonLib, ◌>>=◌}
use cpp_client_sdk.Prelude.{String, ◌≡◌, Option, arith, if◌then◌else◌, has_value}
use cpp_client_sdk.Store.{EvaluationStore, get_gate, get_config, get_layer, lookup_evaluation}

module _ ⦃J : JsonLib⦄ where
  -- An answer over a table: the entry under the hash of the name, with the details that say whether
  -- it was there.
  abbrev pub Answers {ℓ} : {A : Type ℓ} → SourceInfo → Option A → DetailedEvaluation A → Type ℓ
  Answers i e d =
      (d.evaluation ≡ e)
      × (d.details ≡ (
          if has_value e then recognized_from_source_info i else unrecognized_from_source_info i))

  abbrev pub entry {ℓ} :
      {A : Type ℓ} → (InitializeResponse → Dict A) → Option InitializeResponse → String → Option A
  entry table values name = values >>= λ v. find (djb2 name) (table v)

  lookup_evaluation-Answers {ℓ} :
      {A : Type ℓ} (table : InitializeResponse → Dict A) (s : EvaluationStore) (name : String)
      → Answers s.source_info (entry table s.values name) (lookup_evaluation table s name)
  unfolding lookup_evaluation map_contains
  lookup_evaluation-Answers table s name = ground arith

  -- The three lookups answer with the entry under the DJB2 hash of the name in their own table of the
  -- values in use, and with nothing where there are no values; the details are the recognized ones
  -- exactly when there is an entry.
  pub lookups-Answers :
      (s : EvaluationStore) (name : String)
      → Answers s.source_info (entry (λ v. v.feature_gates) s.values name) (get_gate s name)
        × Answers s.source_info (entry (λ v. v.dynamic_configs) s.values name) (get_config s name)
        × Answers s.source_info (entry (λ v. v.layer_configs) s.values name) (get_layer s name)
  unfolding get_gate get_config get_layer
  lookups-Answers s name = (
    lookup_evaluation-Answers _ s name,
    lookup_evaluation-Answers _ s name,
    lookup_evaluation-Answers _ s name,
  )

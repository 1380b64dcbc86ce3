-- ===== src/Client/Checks.antt =====
-- What checking a gate answers and logs.
use cpp_client_sdk.Client.{
  StatsigContext, ensure_initialized, captured, get_feature_gate, check_gate,
}
use cpp_client_sdk.Dict.{find}
use cpp_client_sdk.ErrorBoundary.Reports.{capture_ok}
use cpp_client_sdk.Evaluation.{GateEvaluation, InitializeResponse}
use cpp_client_sdk.Event.{make_gate_exposure}
use cpp_client_sdk.EventLogger.Batches.{logged_only, all_events, enqueue-logged}
use cpp_client_sdk.Hashing.{djb2}
use cpp_client_sdk.JsonLib.{JsonLib, ◌>>=◌, bind_cases}
use cpp_client_sdk.Prelude.{
  String, ◌≡◌, refl, sym, ap, ◌∙◌, ◌≢◌, Bool, true, false, not, Option, none, some, List, [], ◌∷◌,
  ◌++◌, arith, if◌then◌else◌, ℤ,
}
use cpp_client_sdk.Store.{EvaluationStore, get_gate}
use cpp_client_sdk.Store.Lookup.{lookups-Answers}
use cpp_client_sdk.Text.{str_eq, eq_iff}

abbrev passes : Option GateEvaluation → Bool
passes none = false
passes (some e) = e.value

passes_cases :
    (o : Option GateEvaluation)
    → passes o ≡ true
    → (e : GateEvaluation) × (o ≡ some e) × (e.value ≡ true)
passes_cases none h = absurd cc
passes_cases (some e) h = (e, refl, h)

module _ ⦃J : JsonLib⦄ (eb_api : String) (trace : List String) where
  get_gate-passes :
      (s : EvaluationStore) (name : String)
      → passes (get_gate s name).evaluation ≡ true
      → (v : InitializeResponse) × (e : GateEvaluation) × (s.values ≡ some v)
        × (find (djb2 name) v.feature_gates ≡ some e)
        × (e.value ≡ true)
  get_gate-passes s name h =
      let (e, held, on) = passes_cases (get_gate s name).evaluation h in
      let (v, there, found) =
        bind_cases s.values (λ v. find (djb2 name) v.feature_gates) e
          (sym (lookups-Answers s name).0.0 ∙ held) in
      (v, e, there, found, on)

  -- A gate passes only if the client is initialized and holds values of the server that have, under
  -- the hash of the gate's name, an evaluation with the value true.
  pub check_gate_passes :
      (now : ℤ) (name : String) (client : Option StatsigContext)
      → (check_gate eb_api trace now name client).1 ≡ true
      → (c : StatsigContext) × (v : InitializeResponse) × (e : GateEvaluation) × (client ≡ some c)
        × (c.sdk_key ≢ "")
        × (c.store.values ≡ some v)
        × (find (djb2 name) v.feature_gates ≡ some e)
        × (e.value ≡ true)
  unfolding check_gate
  check_gate_passes now name none h = absurd cc
  check_gate_passes now name (some c) h =
      let (c', gate) = get_feature_gate eb_api trace now name c in
      go (str_eq c.sdk_key "") refl (some c', gate.value) (λ p. p) h
    where
      go :
          (empty : Bool)
          → str_eq c.sdk_key "" ≡ empty
          → (r : Option StatsigContext × Bool)
          → (r.1 ≡ true → passes (get_gate c.store name).evaluation ≡ true)
          → (if not empty then r else (some c, false)).1 ≡ true
          → (c' : StatsigContext) × (v : InitializeResponse) × (e : GateEvaluation) × (some c
              ≡ some c')
            × (c'.sdk_key ≢ "")
            × (c'.store.values ≡ some v)
            × (find (djb2 name) v.feature_gates ≡ some e)
            × (e.value ≡ true)
      go true k r f p = absurd cc
      go false k r f p =
          let (v, e, there, found, on) = get_gate-passes c.store name (f p) in
          (c, v, e, refl, ground (arith, k, eq_iff c.sdk_key ""), there, found, on)

  -- Conversely a gate that is there gives its value.
  pub check_gate_finds :
      (now : ℤ) (name : String) (c : StatsigContext) (v : InitializeResponse) (e : GateEvaluation)
      → ensure_initialized (some c) ≡ true
      → c.store.values ≡ some v
      → find (djb2 name) v.feature_gates ≡ some e
      → (check_gate eb_api trace now name (some c)).1 ≡ e.value
  unfolding check_gate get_feature_gate
  check_gate_finds now name c v e h there found = rw h (
      ap passes (
        (lookups-Answers c.store name).0.0
        ∙ ap (λ t. t >>= λ v. find (djb2 name) v.feature_gates) there
        ∙ found))

  -- A check on an initialized client logs exactly one event, the exposure of the gate as the store
  -- evaluates it for the client's user, behind the events before it, and leaves the store and the
  -- reports as they are.
  pub check_gate_exposes :
      (now : ℤ) (name : String) (c : StatsigContext)
      → ensure_initialized (some c) ≡ true
      → (c' : StatsigContext) × ((check_gate eb_api trace now name (some c)).0 ≡ some c')
        × (logged_only (all_events c'.logger)
            ≡ logged_only (all_events c.logger)
              ++ make_gate_exposure now name c.user (get_gate c.store name) ∷ [])
        × (c'.store ≡ c.store)
        × (c'.reports ≡ c.reports)
  unfolding check_gate get_feature_gate captured logged_only make_gate_exposure
  check_gate_exposes now name c h =
      let exposure = make_gate_exposure now name c.user (get_gate c.store name) in
      (
        (get_feature_gate eb_api trace now name c).0,
        rw h refl,
        enqueue-logged now c.logger exposure,
        refl,
        rw (capture_ok eb_api trace c.err_boundary "GetFeatureGate") refl,
      )

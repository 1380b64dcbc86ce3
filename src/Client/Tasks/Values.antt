-- ===== src/Client/Tasks/Values.antt =====
-- The values of an asynchronous update, from the response of the server to the store.
-- A result as FetchLatest makes it of the text of a response.
use cpp_client_sdk.Adapter.{latest_result}
use cpp_client_sdk.Adapter.Async.{CanWrite}
use cpp_client_sdk.Details.{network, network_not_modified, DataAdapterResult}
use cpp_client_sdk.Diagnostics.{Diagnostics}
use cpp_client_sdk.Evaluation.{InitializeResponse, empty_response}
use cpp_client_sdk.Http.{HttpResponse}
use cpp_client_sdk.Json.InitializeResponse.{deserialize_response, deserialize_response_cases}
use cpp_client_sdk.Json.Requests.{serialize_data_adapter_result}
use cpp_client_sdk.JsonLib.{JsonLib}
use cpp_client_sdk.Network.{has_success_code, get_status_code_err, handle_fetch_values_response}
use cpp_client_sdk.Prelude.{
  String, ◌≡◌, refl, sym, ap, ◌∙◌, ◌⊎◌, inl, inr, true, false, Option, none, some, some-injective,
  Bool-cases, ℤ, pos, eqb_ℤ,
}
use cpp_client_sdk.Result.{code_ok, network_failure_bad_status_code, StatsigResult, succeed}
use cpp_client_sdk.Store.{EvaluationStore}
use cpp_client_sdk.User.{StatsigUser, MapOrder, get_full_user_hash}
use mathlib.Core.Path.{subst}

abbrev pub fetched_result : ⦃o : MapOrder⦄ → String → ℤ → StatsigUser → DataAdapterResult
fetched_result text received_at user = record {
  source = network;
  values_str = text;
  received_at = received_at;
  full_user_hash = get_full_user_hash user;
}

module _ ⦃J : JsonLib⦄ where
  -- The store with the values of a response.
  abbrev pub fetched_store : InitializeResponse → ℤ → EvaluationStore
  fetched_store v received_at = record {
    values = some v;
    source_info = record { source = network; lcut = v.time; received_at = received_at };
  }

  handled_updates :
      (d : Diagnostics) (now later : ℤ) (r : HttpResponse) (v : InitializeResponse)
      → has_success_code (some r) ≡ true
      → eqb_ℤ r.status (pos 204) ≡ false
      → deserialize_response r.text ≡ succeed v
      → (handle_fetch_values_response d now later (some r)).1
        ≡ record { code = code_ok; value = some v; extra = none; raw = r.text }
  unfolding handle_fetch_values_response
  handled_updates d now later r v good full parsed = rw (good, full, parsed) refl

  pub latest_result_updates :
      ⦃o : MapOrder⦄ (d : Diagnostics) (now later received_at : ℤ) (user : StatsigUser)
      (cached : Option DataAdapterResult) (r : HttpResponse) (v : InitializeResponse)
      → has_success_code (some r) ≡ true
      → eqb_ℤ r.status (pos 204) ≡ false
      → deserialize_response r.text ≡ succeed v
      → v.has_updates ≡ true
      → latest_result received_at user cached (handle_fetch_values_response d now later (some r)).1
        ≡ succeed (fetched_result r.text received_at user)
  unfolding latest_result
  latest_result_updates d now later received_at user cached r v good full parsed updates =
      ap (latest_result received_at user cached) (handled_updates d now later r v good full parsed)
      ∙ rw updates refl

  pub latest_result_fails :
      ⦃o : MapOrder⦄ (d : Diagnostics) (now later received_at : ℤ) (user : StatsigUser)
      (cached : Option DataAdapterResult) (r : HttpResponse)
      → has_success_code (some r) ≡ false
      → latest_result received_at user cached (handle_fetch_values_response d now later (some r)).1
        ≡ record {
          code = network_failure_bad_status_code;
          value = none;
          extra = get_status_code_err (some r);
        }
  unfolding latest_result handle_fetch_values_response
  latest_result_fails d now later received_at user cached r bad = rw bad refl

  -- A server that has nothing new confirms the result that the fetch was made with.
  abbrev pub confirmed_result :
      ⦃o : MapOrder⦄ → DataAdapterResult → ℤ → StatsigUser → DataAdapterResult
  confirmed_result q received_at user = record {
    source = network_not_modified;
    values_str = q.values_str;
    received_at = received_at;
    full_user_hash = get_full_user_hash user;
  }

  handled_no_content :
      (d : Diagnostics) (now later : ℤ) (r : HttpResponse)
      → r.status ≡ pos 204
      → (handle_fetch_values_response d now later (some r)).1
        ≡ record { code = code_ok; value = some empty_response; extra = none; raw = "" }
  unfolding handle_fetch_values_response
  handled_no_content d now later r h = rw h refl

  pub latest_result_confirms :
      ⦃o : MapOrder⦄ (d : Diagnostics) (now later received_at : ℤ) (user : StatsigUser)
      (q : DataAdapterResult) (r : HttpResponse)
      → r.status ≡ pos 204
      → latest_result received_at user
          (some q)
          (handle_fetch_values_response d now later (some r)).1
        ≡ succeed (confirmed_result q received_at user)
  unfolding latest_result
  latest_result_confirms d now later received_at user q r h =
      ap (latest_result received_at user (some q)) (handled_no_content d now later r h)

  -- What a fetch may give: nothing, what it was made with, or the text of a response that parses.
  latest_result_cases :
      ⦃o : MapOrder⦄ (d : Diagnostics) (now later received_at : ℤ) (user : StatsigUser)
      (cached : Option DataAdapterResult) (r : HttpResponse)
      → let latest =
          latest_result received_at user cached
            (handle_fetch_values_response d now later (some r)).1 in
        (latest.value ≡ none)
        ⊎ ((q : DataAdapterResult) × (latest.value ≡ some q) × (q.source ≡ network_not_modified))
        ⊎ ((v : InitializeResponse) × (deserialize_response r.text ≡ succeed v)
            × (latest.value ≡ some (fetched_result r.text received_at user)))
  unfolding latest_result handle_fetch_values_response
  latest_result_cases d now later received_at user cached r =
      let older : DataAdapterResult = record {
        source = network_not_modified;
        values_str = elim cached [ none ↦ "" | some c ↦ c.values_str ];
        received_at = received_at;
        full_user_hash = get_full_user_hash user;
      } in
      elim (Bool-cases (has_success_code (some r))) [
        | inr bad ↦ inl (rw bad refl)
        | inl good ↦ elim (Bool-cases (eqb_ℤ r.status (pos 204))) [
          | inl nothing_new ↦ inr (inl (older, rw (good, nothing_new) refl, refl))
          | inr full ↦ elim (deserialize_response_cases r.text) [
            | inl broken ↦ inl (rw (good, full, broken) refl)
            | inr (v, parsed) ↦ elim (Bool-cases v.has_updates) [
              | inl updates ↦ inr (
                  inr (
                    v,
                    parsed,
                    ap (λ (t : StatsigResult DataAdapterResult). t.value)
                        (latest_result_updates d now later received_at user cached r v good full
                          parsed updates),
                  ))
              | inr old ↦ inr (inl (older, rw (good, full, parsed, old) refl, refl))
            ]
          ]
        ]
      ]

  -- The JSON library can print the result of any text of a response that parses.
  abbrev pub CanKeep : ⦃o : MapOrder⦄ → ℤ → StatsigUser → Type 0
  CanKeep received_at user =
      (text : String) (v : InitializeResponse)
      → deserialize_response text ≡ succeed v
      → (out : String) × (serialize_data_adapter_result (fetched_result text received_at user)
          ≡ some (succeed out))

  pub latest_result-CanWrite :
      ⦃o : MapOrder⦄ (d : Diagnostics) (now later received_at : ℤ) (user : StatsigUser)
      (cached : Option DataAdapterResult) (r : HttpResponse)
      → CanKeep received_at user
      → CanWrite (
          latest_result received_at user cached
            (handle_fetch_values_response d now later (some r)).1)
  latest_result-CanWrite d now later received_at user cached r keeps q given fresh =
      elim (latest_result_cases d now later received_at user cached r) [
        | inl missing ↦ absurd cc (sym missing ∙ given)
        | inr (inl (p, same, confirmed)) ↦ absurd cc (
            sym fresh
            ∙ ap (λ (x : DataAdapterResult). x.source) (some-injective _ _ (sym given ∙ same))
            ∙ confirmed)
        | inr (inr (v, parsed, same)) ↦
            subst (λ x. (out : String) × (serialize_data_adapter_result x ≡ some (succeed out)))
              (some-injective _ _ (sym same ∙ given)) (keeps r.text v parsed)
      ]

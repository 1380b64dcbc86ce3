-- ===== src/Tests/Requests.antt =====
-- Tests of posts and fetches.
use cpp_client_sdk.Details.{DataAdapterResult}
use cpp_client_sdk.Diagnostics.{new_diagnostics}
use cpp_client_sdk.Dict.{find, assign}
use cpp_client_sdk.Evaluation.{InitializeResponse}
use cpp_client_sdk.Json.InitializeResponse.{deserialize_response}
use cpp_client_sdk.JsonLib.{traverse}
use cpp_client_sdk.Network.{Exchange, Posted, post_with_retry, initialize_args}
use cpp_client_sdk.Network.Requests.{initialize_args-since_time}
use cpp_client_sdk.Network.Retry.{EndsAt, post_with_retry-EndsAt}
use cpp_client_sdk.Prelude.{ℕ, zero, suc, ◌≡◌, refl, true, none, some, [], ◌∷◌, arith, ℤ, pos}
use cpp_client_sdk.Result.{succeed}
use cpp_client_sdk.Tests.Toy.{sample_text, toy_json, insertion_order, sample_user, sample_result}
use cpp_client_sdk.User.{get_full_user_hash}
use text.Mathlib.TextPositions.{eq_refl}

abbrev sample_exchange : ℤ → Exchange
sample_exchange status = record {
  started = pos 1;
  finished = pos 2;
  answer = record { text = sample_text; status = status; sdk_region = ""; error = none };
}

-- A server that is unavailable at first.
abbrev sample_respond : ℕ → Exchange
sample_respond zero = sample_exchange (pos 503)
sample_respond (suc zero) = sample_exchange (pos 503)
sample_respond (suc (suc n)) = sample_exchange (pos 200)

post_with_retry-EndsAt_example :
    (p : Posted) × (post_with_retry sample_respond 4 new_diagnostics "/v1/initialize" 3 1 ≡ some p)
    × (p.answer ≡ (sample_respond p.attempt).answer)
    × EndsAt sample_respond 1 3 p.attempt
post_with_retry-EndsAt_example =
    post_with_retry-EndsAt sample_respond 4 new_diagnostics "/v1/initialize" 3 1 (omega arith)
      (omega arith)

abbrev own_result : DataAdapterResult
own_result = record sample_result { full_user_hash = get_full_user_hash sample_user }

abbrev pub sample_values : InitializeResponse
sample_values = record {
  time = pos 7;
  has_updates = true;
  feature_gates =
      (
        "a_gate",
        record {
          name = "a_gate";
          rule_id = "a_rule";
          value = true;
          secondary_exposures = [];
          id_type = none;
        },
      )
      ∷ [];
  dynamic_configs = [];
  layer_configs = [];
}

pub sample_parse : deserialize_response sample_text ≡ succeed sample_values
unfolding deserialize_response find traverse assign
sample_parse = refl

initialize_args-since_time_example :
    (v : InitializeResponse) × (own_result.full_user_hash ≡ get_full_user_hash sample_user)
    × (deserialize_response sample_text ≡ succeed v)
    × (v.has_updates ≡ true)
    × ((initialize_args sample_user (some own_result) []).since_time ≡ v.time)
unfolding initialize_args
initialize_args-since_time_example =
    initialize_args-since_time sample_user own_result []
      (rw (initialize_args, eq_refl (get_full_user_hash sample_user), sample_parse) (λ e. cc))

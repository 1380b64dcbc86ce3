-- ===== src/Tests/Torn.antt =====
-- Tests of a start after a write that was cut short.
use cpp_client_sdk.Adapter.{get_cache_key}
use cpp_client_sdk.Adapter.Torn.{cut_write}
use cpp_client_sdk.Client.{StatsigContext, prefetch_task, ensure_initialized}
use cpp_client_sdk.Client.Session.{initialize_sync}
use cpp_client_sdk.Client.Torn.{initialize_sync-cut_write}
use cpp_client_sdk.Json.Requests.{data_adapter_result_to_json}
use cpp_client_sdk.JsonLib.Laws.{MemberLaws, PrefixLaw}
use cpp_client_sdk.Prelude.{
  String, ◌≡◌, refl, sym, ap, ◌∙◌, ◌≢◌, inl, inr, true, false, none, some, some-injective, [],
  Bool-cases, has_value, pos,
}
use cpp_client_sdk.Result.{json_failure_data_adapter_result}
use cpp_client_sdk.Store.Lifecycle.{answer_of}
use cpp_client_sdk.Tests.Toy.{
  Toy, toy_null, toy_object, toy_array, toy_text, toy_int, toy_bool, toy_member, toy_item,
  toy_members, sample_text, toy_parse, toy_json, sample_user, sample_result, sample_context,
}
use cpp_client_sdk.Tests.Users.{writer_members}
use cpp_client_sdk.Text.{concat, str_eq, eq_iff}
use cpp_client_sdk.User.{default_options, normalize_user}
use text.Mathlib.Text.{starts_with}
use text.Mathlib.TextPositions.{starts_with-append}

-- The text of an object of the library is no longer than "json", so that no part of it is a known text.
part_unknown : (s t : String) → "json" ≡ concat s t → toy_parse s ≡ none
part_unknown s t e = elim (Bool-cases (str_eq s sample_text)) [
  | inl same ↦
      let begins : false ≡ true =
        ap (λ x. starts_with x sample_text)
          (e ∙ ap (λ x. concat x t) ((eq_iff s sample_text).0 same))
        ∙ starts_with-append sample_text t in
      cc
  | inr other ↦ rw other refl
]

dumps : (j : Toy) → has_value (toy_members j) ≡ true → toy_json.dump j ≡ some "json"
dumps toy_null h = refl
dumps toy_object h = refl
dumps toy_array h = refl
dumps (toy_text s) h = cc
dumps (toy_int n) h = refl
dumps (toy_bool b) h = refl
dumps (toy_member k v rest) h = refl
dumps (toy_item v rest) h = refl

toy-PrefixLaw : PrefixLaw toy_json
toy-PrefixLaw = record {
  parse_prefix = λ j s t h e n. part_unknown s t (some-injective _ _ (sym (dumps j h) ∙ e));
}

toy-MemberLaws : MemberLaws toy_json
toy-MemberLaws =
    let laws = writer_members toy_null in
    record {
      is_object-set_key = laws.is_object-set_key;
      get_at-set_key = laws.get_at-set_key;
      get_at_null = laws.get_at_null;
      contains_get_at = laws.contains_get_at;
      index_get_at = laws.index_get_at;
      get_map-of_map = laws.get_map-of_map;
      is_object-of_map = laws.is_object-of_map;
    }

sample_text_left : ◌≢◌ {A = String} "on" ""
sample_text_left e = let differ : false ≡ true = ap (λ s. str_eq s "") e in cc

sample_key_given : ◌≢◌ {A = String} "client-key" ""
sample_key_given e = let differ : false ≡ true = ap (λ s. str_eq s "") e in cc

initialize_sync-cut_write_example :
    let current = normalize_user sample_user default_options in
    let torn =
      cut_write
        (pos 5)
        (get_cache_key "client-key" current)
        "js"
        sample_context.data_adapter.directory in
    (next : StatsigContext) × (initialize_sync "https://statsigapi.net" []
        (pos 6)
        (pos 7)
        torn
        "client-key"
        (some sample_user)
        (some default_options)
        none
      ≡ (some next, json_failure_data_adapter_result, some (prefetch_task none)))
    × (ensure_initialized (some next) ≡ true)
    × (next.user ≡ current)
    × (next.store ≡ answer_of none)
initialize_sync-cut_write_example =
    initialize_sync-cut_write "https://statsigapi.net" [] toy-PrefixLaw toy-MemberLaws (pos 6)
      (pos 7) (pos 5) sample_context.data_adapter.directory "client-key" sample_user default_options
      none sample_result "js" "on" refl sample_key_given
      (unfold data_adapter_result_to_json in refl) sample_text_left

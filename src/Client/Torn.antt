-- ===== src/Client/Torn.antt =====
-- InitializeSync of src/statsig/internal/statsig_client.cpp after a session that ended in the middle of a
-- write to the cache directory.
use cpp_client_sdk.Adapter.{get_cache_key}
use cpp_client_sdk.Adapter.Torn.{cut_write, get_data_sync-cut_write}
use cpp_client_sdk.Client.{StatsigContext, prefetch_task, ensure_initialized}
use cpp_client_sdk.Client.Session.{new_context, initialize_sync, initialize_sync_cases}
use cpp_client_sdk.Details.{DataAdapterResult}
use cpp_client_sdk.Files.{CacheDirectory}
use cpp_client_sdk.Json.Requests.{data_adapter_result_to_json}
use cpp_client_sdk.JsonLib.{JsonLib}
use cpp_client_sdk.JsonLib.Laws.{MemberLaws, PrefixLaw}
use cpp_client_sdk.Prelude.{
  String, ◌≡◌, ap, ◌∙◌, ◌≢◌, inl, inr, true, Option, none, some, List, if◌then◌else◌, ℤ,
}
use cpp_client_sdk.Result.{code_ok, json_failure_data_adapter_result, code_eq, StatsigResult}
use cpp_client_sdk.Store.Lifecycle.{answer_of}
use cpp_client_sdk.Text.{concat}
use cpp_client_sdk.User.{StatsigUser, StatsigOptions, normalize_user}

module _ ⦃J : JsonLib⦄ (eb_api : String) (trace : List String) where
  -- If the last session ended when only a part of the result of a fetch for the user was in its file,
  -- and the texts of JSON are as their grammar says, then InitializeSync of the next one, with a key
  -- that is not empty, answers JsonFailureDataAdapterResult; the client is initialized, for the user,
  -- and shows no values, neither those of the part nor those that the file held before.
  pub initialize_sync-cut_write :
      (law : PrefixLaw J) (members : MemberLaws J) (started finished now : ℤ) (d : CacheDirectory)
      (sdk_key : String) (user : StatsigUser) (options : StatsigOptions)
      (client : Option StatsigContext) (r : DataAdapterResult) (part rest : String)
      → d.is_created ≡ true
      → sdk_key ≢ ""
      → J.dump (data_adapter_result_to_json r) ≡ some (concat part rest)
      → rest ≢ ""
      → let current = normalize_user user options in
        let torn = cut_write now (get_cache_key sdk_key current) part d in
        (next : StatsigContext) × (initialize_sync eb_api trace started finished torn sdk_key
            (some user)
            (some options)
            client
          ≡ (some next, json_failure_data_adapter_result, some (prefetch_task none)))
        × (ensure_initialized (some next) ≡ true)
        × (next.user ≡ current)
        × (next.store ≡ answer_of none)
  unfolding new_context
  initialize_sync-cut_write law members started finished now d sdk_key user options client r part
        rest there keyed split some_left =
      let current = normalize_user user options in
      let torn = cut_write now (get_cache_key sdk_key current) part d in
      let read =
        get_data_sync-cut_write law members now d sdk_key current r part rest there split
          some_left in
      elim (initialize_sync_cases eb_api trace started finished torn sdk_key (some user)
        (some options) client) [
          | inl (empty, _) ↦ absurd (keyed empty)
          | inr (next, done, initialized, own, stored) ↦ (
            next,
            done
                ∙ ap
                    (λ (t : StatsigResult DataAdapterResult).
                      (some next, t.code, some (prefetch_task t.value)))
                    read,
            initialized,
            own,
            stored
                ∙ ap
                    (λ (t : StatsigResult DataAdapterResult).
                      answer_of (if code_eq t.code code_ok then t.value else none))
                    read,
          )
        ]

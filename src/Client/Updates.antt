-- ===== src/Client/Updates.antt =====
-- Whose values a client shows: what an update and a late answer do to the store.
use cpp_client_sdk.Adapter.{get_data_sync}
use cpp_client_sdk.Client.{
  StatsigContext, prefetch_task, update_task, load_user, captured, update_user_sync,
  update_user_async, finish_update, add_report,
}
use cpp_client_sdk.Details.{DataAdapterResult}
use cpp_client_sdk.ErrorBoundary.Reports.{capture_ok}
use cpp_client_sdk.JsonLib.{JsonLib}
use cpp_client_sdk.Prelude.{
  String, ◌≡◌, refl, ap, ◌∙◌, Bool, true, false, ◌&&◌, none, List, arith, if◌then◌else◌,
}
use cpp_client_sdk.Result.{code_ok, code_eq, StatsigResult}
use cpp_client_sdk.Store.{finalize, set_values_from_data_adapter_result}
use cpp_client_sdk.Store.Lifecycle.{answer_of, settle_if, finalize-values, put_values, set-values}
use cpp_client_sdk.User.{StatsigUser, MapOrder, normalize_user, are_users_equal}

module _ ⦃J : JsonLib⦄ (eb_api : String) (trace : List String) where
  -- On the code Ok the boundary does nothing.
  pub captured-ok : (c : StatsigContext) (tag : String) → captured eb_api trace c tag code_ok ≡ c
  unfolding captured add_report
  captured-ok c tag = rw (capture_ok eb_api trace c.err_boundary tag) refl

  pub update_user_async_loads :
      (user : StatsigUser) (c : StatsigContext)
      → let (loaded, result) = load_user user c in
        update_user_async eb_api trace user c ≡ (loaded, update_task loaded.user result.value)
  unfolding update_user_async
  update_user_async_loads user c =
      let (loaded, result) = load_user user c in
      ap (λ d. (d, update_task loaded.user result.value)) (captured-ok loaded "UpdateUserAsync")

  -- The values that a synchronous update leaves are those that GetDataSync finds for the new user,
  -- whatever the store held: with another code than Ok, or no result, there are none.
  pub update_user_sync-store :
      (user : StatsigUser) (c : StatsigContext)
      → let current = normalize_user user c.options in
        let found = (get_data_sync c.data_adapter current).1 in
        let updated = update_user_sync eb_api trace user c in
        (updated.0.store ≡ answer_of (if code_eq found.code code_ok then found.value else none))
        × (updated.0.user ≡ current)
        × (updated.1 ≡ found.code)
        × (updated.2 ≡ prefetch_task found.value)
  unfolding update_user_sync
  update_user_sync-store user c =
      let found = (get_data_sync c.data_adapter (normalize_user user c.options)).1 in
      (settle_if c.store (code_eq found.code code_ok) found.value, refl, refl, refl)

  abbrev counts :
      ⦃o : MapOrder⦄ → StatsigUser → StatsigResult DataAdapterResult → StatsigUser → Bool
  counts initiator result user = code_eq result.code code_ok && are_users_equal initiator user

  -- The values after an answer, from the values before it.
  pub finish_update-values :
      ⦃o : MapOrder⦄ (initiator : StatsigUser) (result : StatsigResult DataAdapterResult)
      (c : StatsigContext)
      → (finish_update eb_api trace initiator result c).0.store.values ≡ (
          if counts initiator result c.user
          then put_values result.value c.store.values
          else c.store.values)
  unfolding finish_update
  finish_update-values initiator result c = go (counts initiator result c.user)
    where
      go :
          (b : Bool)
          → (finalize (
              if b
              then (set_values_from_data_adapter_result c.store result.value).0
              else c.store)).values
            ≡ (if b then put_values result.value c.store.values else c.store.values)
      go true = finalize-values _ ∙ set-values c.store result.value
      go false = finalize-values c.store

  pub finish_update-other :
      ⦃o : MapOrder⦄ (initiator : StatsigUser) (result : StatsigResult DataAdapterResult)
      (c : StatsigContext)
      → are_users_equal initiator c.user ≡ false
      → (finish_update eb_api trace initiator result c).0.store.values ≡ c.store.values
  finish_update-other initiator result c other =
      rw (finish_update-values initiator result c, other) (ground arith)

-- ===== src/Client/Races.antt =====
-- The end of UpdateUserAsync of src/statsig/internal/statsig_client.cpp on a thread of its own: it compares
-- the users first and sets the values after, and the store's lock covers each of the two by itself.
use cpp_client_sdk.Client.{StatsigContext, finalize_store, report, update_user_sync, finish_update}
use cpp_client_sdk.Client.Updates.{update_user_sync-store, finish_update-other}
use cpp_client_sdk.Details.{DataAdapterResult}
use cpp_client_sdk.JsonLib.{JsonLib}
use cpp_client_sdk.Prelude.{
  String, ◌≡◌, refl, ap, ◌∙◌, Bool, true, false, ◌&&◌, List, if◌then◌else◌,
}
use cpp_client_sdk.Result.{StatsigResultCode, code_ok, code_eq, StatsigResult}
use cpp_client_sdk.Store.{set_values_from_data_adapter_result}
use cpp_client_sdk.Store.Lifecycle.{finalize-values, put_values, set-values}
use cpp_client_sdk.User.{StatsigUser, MapOrder, normalize_user, are_users_equal}

-- The comparison, on the context as it is when the callback makes it.
unfoldable pub takes_answer :
    ⦃J : JsonLib⦄ ⦃o : MapOrder⦄
    → StatsigUser
    → StatsigResult DataAdapterResult
    → StatsigContext
    → Bool
takes_answer initiator result c = code_eq result.code code_ok && are_users_equal initiator c.user

module _ ⦃J : JsonLib⦄ (eb_api : String) (trace : List String) where
  -- What the callback does after it, on the context as it is by then.
  pub finish_compared :
      Bool → StatsigResult DataAdapterResult → StatsigContext → StatsigContext × StatsigResultCode
  unfolding finalize_store report
  finish_compared taken result c =
      let store =
        if taken then (set_values_from_data_adapter_result c.store result.value).0 else c.store in
      (
        report eb_api trace (finalize_store (record c { store = store })) "UpdateUserAsync"
            result.code result.extra,
        result.code,
      )

  -- Where nothing happens in between, the two are the callback.
  finish_compared_lem :
      ⦃o : MapOrder⦄ (initiator : StatsigUser) (result : StatsigResult DataAdapterResult)
      (c : StatsigContext)
      → finish_compared (takes_answer initiator result c) result c
        ≡ finish_update eb_api trace initiator result c
  unfolding finish_compared takes_answer finish_update
  finish_compared_lem initiator result c = refl

  -- An answer for the user u that is compared before another thread updates the user to v, and set after
  -- that, shows for v, if it has values that parse: they are the values of the store, while the user is
  -- v, whom u does not equal. Compared after the update, the same answer leaves the values of v.
  pub update_between :
      ⦃o : MapOrder⦄ (u v : StatsigUser) (result : StatsigResult DataAdapterResult)
      (c : StatsigContext)
      → takes_answer u result c ≡ true
      → are_users_equal u (normalize_user v c.options) ≡ false
      → let updated = (update_user_sync eb_api trace v c).0 in
        let raced = (finish_compared (takes_answer u result c) result updated).0 in
        let in_order = (finish_update eb_api trace u result updated).0 in
        (raced.user ≡ normalize_user v c.options)
        × (raced.store.values ≡ put_values result.value updated.store.values)
        × (in_order.user ≡ normalize_user v c.options)
        × (in_order.store.values ≡ updated.store.values)
  unfolding finish_compared finish_update
  update_between u v result c taken other =
      let updated = update_user_sync eb_api trace v c in
      let (_, user, _, _) = update_user_sync-store eb_api trace v c in
      (
        user,
        rw taken (finalize-values _ ∙ set-values updated.0.store result.value),
        user,
        finish_update-other eb_api trace u result updated.0 (ap (are_users_equal u) user ∙ other),
      )

-- ===== src/Client/Start.antt =====
-- InitializeAsync of src/statsig/internal/statsig_client.cpp.
use cpp_client_sdk.Adapter.{get_data_sync}
use cpp_client_sdk.Client.{
  StatsigContext, BackgroundTask, update_task, load_user, captured, update_user_async,
  finish_update,
}
use cpp_client_sdk.Client.Session.{new_context, mark_context}
use cpp_client_sdk.Client.Updates.{captured-ok, update_user_async_loads, finish_update-values}
use cpp_client_sdk.Details.{DataAdapterResult}
use cpp_client_sdk.Diagnostics.{overall_start, overall_end}
use cpp_client_sdk.Files.{CacheDirectory}
use cpp_client_sdk.JsonLib.{JsonLib}
use cpp_client_sdk.Prelude.{
  String, ◌≡◌, refl, ap, ◌∙◌, ◌⊎◌, inl, inr, Bool, true, false, Option, none, some, List, arith,
  if◌then◌else◌, Bool-cases, value_or, ℤ,
}
use cpp_client_sdk.Result.{StatsigResultCode, code_ok, invalid_sdk_key, code_eq, StatsigResult}
use cpp_client_sdk.Store.{reset, get_source_details, set_values_from_data_adapter_result}
use cpp_client_sdk.Store.Lifecycle.{reset-values, put_values, set-values}
use cpp_client_sdk.Text.{str_eq, eq_iff}
use cpp_client_sdk.User.{StatsigUser, empty_user, StatsigOptions, MapOrder, normalize_user}
use cpp_client_sdk.User.Keys.{are_users_equal_self}

module _ ⦃J : JsonLib⦄ (eb_api : String) (trace : List String) where
  -- The client, what the callback is given at once, if it is, and the task for the background. The user
  -- that is passed on is a reference to the user of the context, which is normalized by the time that
  -- it is read again.
  pub initialize_async :
      ℤ
      → CacheDirectory
      → String
      → Option StatsigUser
      → Option StatsigOptions
      → Option StatsigContext
      → Option StatsigContext × Option StatsigResultCode × Option BackgroundTask
  unfolding captured mark_context update_user_async
  initialize_async now directory sdk_key user options client =
      let fresh = mark_context (overall_start now) (new_context directory sdk_key user options) in
      let (c, task) =
        update_user_async eb_api trace (normalize_user fresh.user fresh.options) fresh in
      if str_eq sdk_key ""
      then (client, some invalid_sdk_key, none)
      else (some (captured eb_api trace c "InitializeAsync" code_ok), none, some task)

  -- The callback that InitializeAsync passes on, on a context that lives, after the end of the
  -- update: the context, and the code that the caller is given.
  pub finish_initialize :
      ⦃o : MapOrder⦄
      → ℤ
      → StatsigUser
      → StatsigResult DataAdapterResult
      → StatsigContext
      → StatsigContext × StatsigResultCode
  unfolding mark_context finish_update
  finish_initialize now initiator result c =
      let (updated, code) = finish_update eb_api trace initiator result c in
      (mark_context (overall_end now code (get_source_details updated.store)) updated, code)

  -- The values that an update loads.
  pub load_user-values :
      (user : StatsigUser) (c : StatsigContext)
      → let found = (get_data_sync c.data_adapter (normalize_user user c.options)).1 in
        (load_user user c).0.store.values
        ≡ put_values (if code_eq found.code code_ok then found.value else none) none
  unfolding load_user
  load_user-values user c =
      let found = (get_data_sync c.data_adapter (normalize_user user c.options)).1 in
      go (code_eq found.code code_ok) found.value
    where
      go :
          (b : Bool) (r : Option DataAdapterResult)
          → (if b
              then (set_values_from_data_adapter_result (reset c.store) r).0
              else reset c.store).values
            ≡ put_values (if b then r else none) none
      go true r = set-values (reset c.store) r ∙ ap (put_values r) (reset-values c.store)
      go false r = reset-values c.store

  -- With an empty key the callback is given InvalidSdkKey at once, and the client stays. With another
  -- key the client is a new one for the given user, which shows what the cache directory holds for it
  -- until the answer to the fetch comes; the callback is then given the code of the answer. If that is
  -- Ok, the values of the answer show, if it has any that parse; else those of the cache stay.
  pub initialize_async_cases :
      ⦃o : MapOrder⦄ (now later : ℤ) (directory : CacheDirectory) (sdk_key : String)
      (user : Option StatsigUser) (options : Option StatsigOptions) (client : Option StatsigContext)
      (result : StatsigResult DataAdapterResult)
      → let started = initialize_async now directory sdk_key user options client in
        let fresh = new_context directory sdk_key user options in
        let current = normalize_user (value_or user empty_user) fresh.options in
        let found = (get_data_sync fresh.data_adapter current).1 in
        let cached = put_values (if code_eq found.code code_ok then found.value else none) none in
        ((sdk_key ≡ "") × (started ≡ (client, some invalid_sdk_key, none)))
        ⊎ ((c : StatsigContext) × (started ≡ (some c, none, some (update_task current found.value)))
            × (c.store.values ≡ cached)
            × ((finish_initialize later current result c).1 ≡ result.code)
            × ((finish_initialize later current result c).0.store.values
                ≡ (if code_eq result.code code_ok then put_values result.value cached else cached)))
  unfolding initialize_async finish_initialize mark_context new_context load_user normalize_user
  initialize_async_cases now later directory sdk_key user options client result =
      let fresh = new_context directory sdk_key user options in
      let marked = mark_context (overall_start now) fresh in
      let current = normalize_user (value_or user empty_user) fresh.options in
      let (c, found) = load_user (normalize_user marked.user marked.options) marked in
      let cached = load_user-values (normalize_user marked.user marked.options) marked in
      elim (Bool-cases (str_eq sdk_key "")) [
        | inl empty ↦ inl ((eq_iff sdk_key "").0 empty, rw empty refl)
        | inr given ↦ inr (
          c,
          rw given (
              ap (λ u. (some (captured eb_api trace u.0 "InitializeAsync" code_ok), none, some u.1))
                (update_user_async_loads eb_api trace (normalize_user marked.user marked.options)
                  marked)
              ∙ ap (λ d. (some d, none, some (update_task current found.value)))
                  (captured-ok eb_api trace c "InitializeAsync")),
          cached,
          refl,
          finish_update-values eb_api trace current result c
              ∙ rw (cached, are_users_equal_self current) (ground arith),
        )
      ]

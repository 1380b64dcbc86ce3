-- ===== src/Adapter/Async.antt =====
-- GetDataAsync of src/statsig/internal/statsig_evaluations_data_adapter.hpp as a whole: the read of
-- what there is, the fetch, and the delivery.
use cpp_client_sdk.Adapter.{
  cached_evaluations_prefix, get_cache_key, add_to_in_memory_cache, DataAdapter, get_data_sync,
  latest_result, Delivery, deliver_latest, write_to_cache_file,
}
use cpp_client_sdk.Adapter.Keeps.{get_data_sync_created, get_data_sync_key}
use cpp_client_sdk.Details.{ValueSource, network, DataAdapterResult}
use cpp_client_sdk.Diagnostics.{process_end, Diagnostics, mark}
use cpp_client_sdk.Dict.{Dict}
use cpp_client_sdk.Files.{ensure_cache_directory_exists}
use cpp_client_sdk.Files.Eviction.{run_cache_eviction_total}
use cpp_client_sdk.Json.Requests.{serialize_initialize_args, serialize_data_adapter_result}
use cpp_client_sdk.JsonLib.{JsonLib, ◌>>=◌}
use cpp_client_sdk.Network.{
  Exchange, Posted, initialize_args, handle_fetch_values_response, fetch_values,
}
use cpp_client_sdk.Network.Requests.{fetch_values_total, fetch_values_unprintable}
use cpp_client_sdk.Prelude.{
  ℕ, String, ◌≡◌, refl, true, ◌&&◌, Option, none, some, if◌then◌else◌, has_value, ℤ,
}
use cpp_client_sdk.Result.{StatsigResult, succeed}
use cpp_client_sdk.User.{StatsigUser, MapOrder}

module _ ⦃J : JsonLib⦄ where
  -- The adapter and the result that GetDataAsync fetches with.
  unfoldable pub current_or_read :
      DataAdapter → StatsigUser → Option DataAdapterResult → DataAdapter × Option DataAdapterResult
  unfolding get_data_sync
  current_or_read a user (some r) = (a, some r)
  current_or_read a user none = let (a', result) = get_data_sync a user in (a', result.value)

  -- The marker at the end of a delivery; the write of a file always reports success.
  mark_delivery : ℤ → StatsigResult DataAdapterResult → Delivery → Diagnostics → Diagnostics
  mark_delivery delivered_at latest delivery d =
      if has_value latest.value && has_value delivery.answer
      then mark d (process_end delivered_at true)
      else d

  -- `received_at` is when the result is made and `delivered_at` when the last marker is; the other
  -- times are those of FetchValues. A fetch that does not call back delivers nothing.
  pub get_data_async :
      ⦃o : MapOrder⦄
      → (String → ℕ → Exchange)
      → ℤ
      → ℤ
      → ℤ
      → ℤ
      → Dict String
      → StatsigUser
      → Option DataAdapterResult
      → DataAdapter
      → Diagnostics
      → Option (Diagnostics × Delivery)
  unfolding current_or_read latest_result deliver_latest mark_delivery
  get_data_async respond now later received_at delivered_at metadata user current a d =
      let (a', cached) = current_or_read a user current in
      fetch_values respond now later metadata user cached d >>= λ f. elim f.1 [
        | none ↦ some (f.0, record { adapter = a'; write = none; answer = none })
        | some net ↦
            let latest = latest_result received_at user cached net in
            deliver_latest a' user latest >>= λ delivery.
            some (mark_delivery delivered_at latest delivery f.0, delivery)
      ]

  Answered : DataAdapter → StatsigUser → StatsigResult DataAdapterResult → Type 0
  Answered a user latest =
      (delivery : Delivery) × (deliver_latest a user latest ≡ some delivery)
      × (delivery.answer ≡ some latest)

  -- The result can be written, if it is one that is.
  abbrev pub CanWrite : StatsigResult DataAdapterResult → Type 0
  CanWrite latest =
      (r : DataAdapterResult)
      → latest.value ≡ some r
      → r.source ≡ network
      → (text : String) × (serialize_data_adapter_result r ≡ some (succeed text))

  deliver_latest-Answered :
      (a : DataAdapter) (user : StatsigUser) (latest : StatsigResult DataAdapterResult)
      → a.directory.is_created ≡ true
      → CanWrite latest
      → Answered a user latest
  unfolding Answered deliver_latest write_to_cache_file
  deliver_latest-Answered a user latest c can = go latest.value can
    where
      with_value : Option DataAdapterResult → StatsigResult DataAdapterResult
      with_value v = record { code = latest.code; value = v; extra = latest.extra }

      written :
          (r : DataAdapterResult) (adapter : DataAdapter)
          → adapter.directory.is_created ≡ true
          → (text : String) → serialize_data_adapter_result r ≡ some (succeed text)
          → (delivery : Delivery) × (write_to_cache_file adapter
                (get_cache_key a.sdk_key user)
                r
                (with_value (some r))
              ≡ some delivery)
            × (delivery.answer ≡ some (with_value (some r)))
      written r adapter k text printed =
          let (d', ran) = run_cache_eviction_total adapter.directory cached_evaluations_prefix k in
          (
            record {
              adapter = record adapter { directory = ensure_cache_directory_exists d' };
              write = some (get_cache_key a.sdk_key user, text);
              answer = some (with_value (some r));
            },
            rw (ran, printed, write_to_cache_file) refl,
            refl,
          )

      sourced :
          (s : ValueSource) (r : DataAdapterResult)
          → (s ≡ network
              → (text : String) × (serialize_data_adapter_result (record r { source = s })
                  ≡ some (succeed text)))
          → Answered a user (with_value (some (record r { source = s })))
      sourced network r can =
          let (text, printed) = can refl in written (record r { source = network }) _ c text printed
      sourced s r can = (
        record {
          adapter = record a {
            in_memory_cache =
                add_to_in_memory_cache (get_cache_key a.sdk_key user) (record r { source = s })
                  a.in_memory_cache;
          };
          write = none;
          answer = some (with_value (some (record r { source = s })));
        },
        refl,
        refl,
      )

      go : (v : Option DataAdapterResult) → CanWrite (with_value v) → Answered a user (with_value v)
      go none can =
          (record { adapter = a; write = none; answer = some (with_value none) }, refl, refl)
      go (some r) can = sourced r.source r (can r refl)

  pub current_or_read_created :
      (a : DataAdapter) (user : StatsigUser) (current : Option DataAdapterResult)
      → a.directory.is_created ≡ true
      → (current_or_read a user current).0.directory.is_created ≡ true
  unfolding current_or_read
  current_or_read_created a user (some r) there = there
  current_or_read_created a user none there = get_data_sync_created a user there

  pub current_or_read_key :
      (a : DataAdapter) (user : StatsigUser) (current : Option DataAdapterResult)
      → (current_or_read a user current).0.sdk_key ≡ a.sdk_key
  unfolding current_or_read
  current_or_read_key a user (some r) = refl
  current_or_read_key a user none = get_data_sync_key a user

  -- If the cache directory is there and the JSON library can print the request and the result,
  -- GetDataAsync calls back with what FetchLatest makes of the response to the last of one to three
  -- posts.
  pub get_data_async_answers :
      ⦃o : MapOrder⦄ (respond : String → ℕ → Exchange) (now later received_at delivered_at : ℤ)
      (metadata : Dict String) (user : StatsigUser) (current : Option DataAdapterResult)
      (a : DataAdapter) (d : Diagnostics) (body : String)
      → a.directory.is_created ≡ true
      → let cached = (current_or_read a user current).1 in
        serialize_initialize_args (initialize_args user cached metadata) ≡ some (succeed body)
        → ((p : Posted)
            → p.answer ≡ (respond body p.attempt).answer
            → CanWrite (
                latest_result received_at user cached
                  (handle_fetch_values_response p.diagnostics now later (some p.answer)).1))
        → (d' : Diagnostics) × (delivery : Delivery) × (p : Posted) × (get_data_async respond now
              later received_at delivered_at metadata user current a d
            ≡ some (d', delivery))
          × (p.answer ≡ (respond body p.attempt).answer)
          × (let latest =
                latest_result received_at user cached
                  (handle_fetch_values_response p.diagnostics now later (some p.answer)).1 in
              (deliver_latest (current_or_read a user current).0 user latest ≡ some delivery)
              × (delivery.answer ≡ some latest))
  unfolding get_data_async Answered
  get_data_async_answers respond now later received_at delivered_at metadata user current a d body c
        printed can =
      let p = current_or_read a user current in
      let (posted, fetched, _, _, last) =
        fetch_values_total respond now later metadata user p.1 d body printed in
      let f = handle_fetch_values_response posted.diagnostics now later (some posted.answer) in
      let latest = latest_result received_at user p.1 f.1 in
      let (delivery, done, answered) =
        deliver_latest-Answered p.0 user latest (current_or_read_created a user current c)
          (can posted last) in
      (
        mark_delivery delivered_at latest delivery f.0,
        delivery,
        posted,
        rw (fetched, done) refl,
        last,
        (done, answered),
      )

  -- Where the JSON library cannot print the request, GetDataAsync reads what there is, posts nothing
  -- and does not call back.
  pub get_data_async_unprintable :
      ⦃o : MapOrder⦄ (respond : String → ℕ → Exchange) (now later received_at delivered_at : ℤ)
      (metadata : Dict String) (user : StatsigUser) (current : Option DataAdapterResult)
      (a : DataAdapter) (d : Diagnostics)
      → let (a', cached) = current_or_read a user current in
        serialize_initialize_args (initialize_args user cached metadata) ≡ none
        → get_data_async respond now later received_at delivered_at metadata user current a d
          ≡ some (d, record { adapter = a'; write = none; answer = none })
  unfolding get_data_async
  get_data_async_unprintable respond now later received_at delivered_at metadata user current a d
        unprinted =
      rw
        (fetch_values_unprintable respond now later metadata user (current_or_read a user current).1
          d unprinted)
        refl

-- ===== src/Adapter.antt =====
-- src/statsig/internal/statsig_evaluations_data_adapter.hpp: evaluations from memory, from the cache
-- directory and from the network. `now` is what Time::now() returns; the callbacks are results.
pub mod Memory
pub mod Answers
pub mod Async
pub mod Keeps
pub mod Sessions
pub mod Torn
use cpp_client_sdk.Details.{cache, network, network_not_modified, DataAdapterResult}
use cpp_client_sdk.Dict.{Dict, emplace, erase, map_get_or_null}
use cpp_client_sdk.Evaluation.{InitializeResponse}
use cpp_client_sdk.Files.{
  max_cached_evaluations_count, CacheDirectory, ensure_cache_directory_exists, read_from_cache,
  run_cache_eviction,
}
use cpp_client_sdk.Json.Requests.{serialize_data_adapter_result, deserialize_data_adapter_result}
use cpp_client_sdk.JsonLib.{JsonLib, ◌>>=◌}
use cpp_client_sdk.Network.{NetworkResult}
use cpp_client_sdk.Prelude.{
  ◌-◌, ◌^◌, String, Bool, false, not, Option, none, some, [], ◌∷◌, ltb, if◌then◌else◌, length, ℤ,
  pos, ltb_ℤ,
}
use cpp_client_sdk.Result.{StatsigResultCode, code_ok, code_eq, StatsigResult, succeed, fail}
use cpp_client_sdk.Text.{concat}
use cpp_client_sdk.User.{StatsigUser, MapOrder, get_full_user_hash, make_cache_key}

-- constants::kCachedEvaluationsPrefix.
abbrev pub cached_evaluations_prefix : String
cached_evaluations_prefix = "statsig.cached.evaluations."

-- MAX_LONG_LONG.
abbrev max_long_long : ℤ
max_long_long = pos (2 ^ 63 - 1)

-- When an entry of the in-memory cache was received.
abbrev pub received : String × DataAdapterResult → ℤ
received e = e.1.received_at

pub get_cache_key : String → StatsigUser → String
get_cache_key sdk_key user = concat cached_evaluations_prefix (make_cache_key sdk_key user)

-- The loop of AddToInMemoryCache: the key of the entry received first, from `oldest` on.
pub oldest_key : String → ℤ → Dict DataAdapterResult → String
oldest_key oldest received_at [] = oldest
oldest_key oldest received_at ((k, r) ∷ m) =
    let earlier = ltb_ℤ r.received_at received_at in
    oldest_key (if earlier then k else oldest) (if earlier then r.received_at else received_at) m

-- `cache.erase(oldest)`, unless the cache is empty; `oldest` starts at its first entry.
evict_oldest : Dict DataAdapterResult → Dict DataAdapterResult
unfolding erase oldest_key
evict_oldest [] = []
evict_oldest ((k, r) ∷ m) = erase (oldest_key k max_long_long ((k, r) ∷ m)) ((k, r) ∷ m)

pub add_to_in_memory_cache :
    String → DataAdapterResult → Dict DataAdapterResult → Dict DataAdapterResult
unfolding evict_oldest emplace
add_to_in_memory_cache key result memory =
    if ltb (length memory) max_cached_evaluations_count
    then emplace key result memory
    else emplace key result (evict_oldest memory)

pub record DataAdapter : Type 0 where
  pub sdk_key : String
  pub in_memory_cache : Dict DataAdapterResult
  pub directory : CacheDirectory

-- Create and Attach. The adapter has no key before it is attached; the network service that Attach
-- makes is an argument of what fetches.
abbrev pub new_adapter : CacheDirectory → DataAdapter
new_adapter directory = record { sdk_key = ""; in_memory_cache = []; directory = directory }

abbrev pub attach : String → DataAdapter → DataAdapter
attach sdk_key a = record a { sdk_key = sdk_key }

-- SetData and PrefetchData, which do nothing yet; the second with whether it calls its callback.
set_data : StatsigUser → String → DataAdapter → DataAdapter
set_data user data_ a = a

prefetch_data : StatsigUser → DataAdapter → DataAdapter × Bool
prefetch_data user a = (a, false)

module _ ⦃J : JsonLib⦄ where
  -- ReadFromCacheFile after the read.
  unfoldable pub answer_file : Option String → StatsigResult DataAdapterResult
  unfolding deserialize_data_adapter_result
  answer_file none = record { code = code_ok; value = none; extra = none }
  answer_file (some text) =
      let result = deserialize_data_adapter_result text in
      record result {
        value = elim result.value [ none ↦ none | some r ↦ some (record r { source = cache }) ];
      }

  unfoldable pub read_from_cache_file :
      CacheDirectory → String → CacheDirectory × StatsigResult DataAdapterResult
  unfolding read_from_cache answer_file
  read_from_cache_file d key = let (d', data_) = read_from_cache d key in (d', answer_file data_)

  -- GetDataSync after the read of the file under `key`.
  pub answer_read :
      DataAdapter
      → String
      → StatsigResultCode
      → Option DataAdapterResult
      → DataAdapter × StatsigResult DataAdapterResult
  answer_read a key code none = (a, fail code)
  answer_read a key code (some r) =
      if code_eq code code_ok
      then (
        record a { in_memory_cache = add_to_in_memory_cache key r a.in_memory_cache },
        succeed r,
      )
      else (a, fail code)

  -- GetDataSync after the lookup of `key` in memory.
  answer_lookup :
      DataAdapter
      → String
      → Option DataAdapterResult
      → DataAdapter × StatsigResult DataAdapterResult
  unfolding answer_read read_from_cache_file
  answer_lookup a key (some result) = (a, succeed result)
  answer_lookup a key none =
      let (d, read) = read_from_cache_file a.directory key in
      answer_read (record a { directory = d }) key read.code read.value

  pub get_data_sync : DataAdapter → StatsigUser → DataAdapter × StatsigResult DataAdapterResult
  unfolding map_get_or_null answer_lookup
  get_data_sync a user =
      let key = get_cache_key a.sdk_key user in
      answer_lookup a key (map_get_or_null a.in_memory_cache key)

  -- The callback of FetchLatest, from what FetchValues gives.
  unfoldable pub latest_result :
      ⦃o : MapOrder⦄
      → ℤ
      → StatsigUser
      → Option DataAdapterResult
      → NetworkResult InitializeResponse
      → StatsigResult DataAdapterResult
  latest_result now user current net =
      let failed : StatsigResult DataAdapterResult = record {
        code = net.code;
        value = none;
        extra = net.extra;
      } in
      if not (code_eq net.code code_ok) then failed else elim net.value [
        | none ↦ failed
        | some v ↦ succeed (record {
          source = if v.has_updates then network else network_not_modified;
          values_str =
              if v.has_updates
              then net.raw
              else (elim current [ none ↦ "" | some c ↦ c.values_str ]);
          received_at = now;
          full_user_hash = get_full_user_hash user;
        })
      ]

  -- What GetDataAsync does with the latest result: the adapter, the file to write, and what the
  -- callback is given after the write, if it is called: it is not when the result does not serialize or the
  -- serializer throws.
  pub record Delivery : Type 0 where
    pub adapter : DataAdapter
    pub write : Option (String × String)
    pub answer : Option (StatsigResult DataAdapterResult)

  -- WriteToCacheFile; `none` is a filesystem exception of the eviction. Where the serializer throws,
  -- the exception ends in the Capture of FetchValues.
  write_to_cache_file :
      DataAdapter → String → DataAdapterResult → StatsigResult DataAdapterResult → Option Delivery
  unfolding serialize_data_adapter_result ensure_cache_directory_exists
  write_to_cache_file a key r latest =
      run_cache_eviction a.directory cached_evaluations_prefix >>= λ d.
      let unwritten : Delivery = record {
        adapter = record a { directory = d };
        write = none;
        answer = none;
      } in
      elim (serialize_data_adapter_result r) [
        | none ↦ some unwritten
        | some serialized ↦
            if code_eq serialized.code code_ok
            then (elim serialized.value [
              | none ↦ some unwritten
              | some text ↦ some (record {
                adapter = record a { directory = ensure_cache_directory_exists d };
                write = some (key, text);
                answer = some latest;
              })
            ])
            else some unwritten
      ]

  unfoldable pub deliver_latest :
      DataAdapter → StatsigUser → StatsigResult DataAdapterResult → Option Delivery
  unfolding write_to_cache_file
  deliver_latest a user latest = elim latest.value [
    | none ↦ some (record {
      adapter = a;
      write = none;
      answer = some (record { code = latest.code; value = none; extra = latest.extra });
    })
    | some r ↦
        let key = get_cache_key a.sdk_key user in
        let a' = record a { in_memory_cache = add_to_in_memory_cache key r a.in_memory_cache } in
        elim r.source [
          | network ↦ write_to_cache_file a' key r latest
          | _ ↦ some (record { adapter = a'; write = none; answer = some latest })
        ]
  ]

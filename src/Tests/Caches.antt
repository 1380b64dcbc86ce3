-- ===== src/Tests/Caches.antt =====
-- Tests of the in-memory cache and of the cache directory.
use cpp_client_sdk.Adapter.{cached_evaluations_prefix, received, add_to_in_memory_cache}
use cpp_client_sdk.Adapter.Memory.{add_to_in_memory_cache-room, add_to_in_memory_cache-full}
use cpp_client_sdk.Details.{DataAdapterResult}
use cpp_client_sdk.Dict.{Dict, find, is_dict, is_dict-IsDict}
use cpp_client_sdk.Files.{CacheDirectory, cache_paths, sort_youngest_first, run_cache_eviction}
use cpp_client_sdk.Files.Eviction.{listed, drop, IsYoungestFirst, run_cache_eviction_exact}
use cpp_client_sdk.Prelude.{
  ℕ, String, ◌≡◌, refl, true, none, some, [], ◌∷◌, map, arith, if◌then◌else◌, value_or, All, ℤ, pos,
  ◌≤ℤ◌,
}
use cpp_client_sdk.Tests.Toy.{toy_json, insertion_order, sample_result}
use cpp_client_sdk.Text.{str_eq}

abbrev sample_cache : Dict DataAdapterResult
sample_cache = ("a", sample_result) ∷ ("b", record sample_result { received_at = pos 3 }) ∷ []

add_to_in_memory_cache-room_example :
    find "a" (add_to_in_memory_cache "a" sample_result sample_cache) ≡ (
      if str_eq "a" "a"
      then some (value_or (find "a" sample_cache) sample_result)
      else find "a" sample_cache)
add_to_in_memory_cache-room_example =
    add_to_in_memory_cache-room "a" sample_result sample_cache "a" (omega arith)

abbrev aged : ℕ → DataAdapterResult
aged n = record sample_result { received_at = pos n }

abbrev full_cache : Dict DataAdapterResult
full_cache =
    ("a", aged 5)
    ∷ ("b", aged 4)
    ∷ ("c", aged 3)
    ∷ ("d", aged 2)
    ∷ ("e", aged 1)
    ∷ ("f", aged 6)
    ∷ ("g", aged 7)
    ∷ ("h", aged 8)
    ∷ ("i", aged 9)
    ∷ ("j", aged 10)
    ∷ []

add_to_in_memory_cache-full_example :
    (o : String) × (x : DataAdapterResult) × (find o full_cache ≡ some x)
    × All (λ e. x.received_at ≤ℤ received e) full_cache
    × ((j : String)
        → find j (add_to_in_memory_cache "k" (aged 11) full_cache) ≡ (
            if str_eq "k" j
            then some (value_or (if str_eq o j then none else find j full_cache) (aged 11))
            else (if str_eq o j then none else find j full_cache)))
add_to_in_memory_cache-full_example =
    add_to_in_memory_cache-full "k" (aged 11) full_cache
      (is_dict-IsDict full_cache (unfold is_dict in refl)) (ground arith) (omega arith)

abbrev sample_directory : CacheDirectory
sample_directory = record {
  is_created = true;
  files =
      (
        "statsig.cached.evaluations.1",
        record { content = ""; last_write_time = pos 1; is_regular_file = true },
      )
      ∷ ("stable_id", record { content = ""; last_write_time = pos 2; is_regular_file = true })
      ∷ [];
}

run_cache_eviction_exact_example :
    (ps : Dict ℤ) × (d' : CacheDirectory) × (ps
      ≡ sort_youngest_first (cache_paths cached_evaluations_prefix sample_directory.files))
    × IsYoungestFirst ps
    × (run_cache_eviction sample_directory cached_evaluations_prefix ≡ some d')
    × ((p : String)
        → find p d'.files
          ≡ (if listed p (drop 9 (map (λ e. e.0) ps)) then none else find p sample_directory.files))
run_cache_eviction_exact_example =
    run_cache_eviction_exact sample_directory cached_evaluations_prefix refl
      (is_dict-IsDict sample_directory.files (unfold is_dict in refl))

-- ===== src/Adapter/Keeps.antt =====
-- What a read leaves as it is: the key of the adapter, and a cache directory that is there.
use cpp_client_sdk.Adapter.{
  get_cache_key, add_to_in_memory_cache, DataAdapter, read_from_cache_file, answer_read,
  get_data_sync,
}
use cpp_client_sdk.Adapter.Answers.{get_data_sync_hit, get_data_sync_miss}
use cpp_client_sdk.Details.{DataAdapterResult}
use cpp_client_sdk.Dict.{Dict, find}
use cpp_client_sdk.Files.{CacheDirectory, ensure_cache_directory_exists}
use cpp_client_sdk.JsonLib.{JsonLib}
use cpp_client_sdk.Prelude.{
  String, ◌≡◌, refl, inl, inr, true, Option, none, some, arith, Bool-cases, Option-cases,
}
use cpp_client_sdk.Result.{StatsigResultCode, code_ok, code_eq}
use cpp_client_sdk.User.{StatsigUser}

module _ ⦃J : JsonLib⦄ where
  read_from_cache_file_created :
      (d : CacheDirectory) (key : String) → (read_from_cache_file d key).0.is_created ≡ true
  unfolding read_from_cache_file ensure_cache_directory_exists
  read_from_cache_file_created d key = ground arith

  -- Where the memory has an entry under the key the adapter stays, else it is that after a read.
  module _ {ℓ} (P : DataAdapter → Type ℓ) where
    answer_read_keeps :
        (a : DataAdapter) (key : String) (code : StatsigResultCode) (v : Option DataAdapterResult)
        → P a
        → ((m : Dict DataAdapterResult) → P (record a { in_memory_cache = m }))
        → P (answer_read a key code v).0
    unfolding answer_read
    answer_read_keeps a key code none h f = h
    answer_read_keeps a key code (some r) h f = elim (Bool-cases (code_eq code code_ok)) [
      | inl good ↦ rw good (f (add_to_in_memory_cache key r a.in_memory_cache))
      | inr bad ↦ rw bad h
    ]

    get_data_sync_keeps :
        (a : DataAdapter) (user : StatsigUser)
        → P a
        → ((d : CacheDirectory) (m : Dict DataAdapterResult)
            → d.is_created ≡ true
            → P (record a { in_memory_cache = m; directory = d }))
        → P (get_data_sync a user).0
    get_data_sync_keeps a user h f =
        let key = get_cache_key a.sdk_key user in
        elim (Option-cases (find key a.in_memory_cache)) [
          | inl free ↦
              let read = read_from_cache_file a.directory key in
              let there = read_from_cache_file_created a.directory key in
              rw (get_data_sync_miss a user free) (
                answer_read_keeps (record a { directory = read.0 }) key read.1.code read.1.value
                  (f read.0 a.in_memory_cache there) (λ m. f read.0 m there))
          | inr (x, held) ↦ rw (get_data_sync_hit a user x held) h
        ]

  pub get_data_sync_created :
      (a : DataAdapter) (user : StatsigUser)
      → a.directory.is_created ≡ true
      → (get_data_sync a user).0.directory.is_created ≡ true
  get_data_sync_created a user there =
      get_data_sync_keeps (λ b. b.directory.is_created ≡ true) a user there (λ d m c. c)

  pub get_data_sync_key :
      (a : DataAdapter) (user : StatsigUser) → (get_data_sync a user).0.sdk_key ≡ a.sdk_key
  get_data_sync_key a user =
      get_data_sync_keeps (λ b. b.sdk_key ≡ a.sdk_key) a user refl (λ d m c. refl)

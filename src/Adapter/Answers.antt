-- ===== src/Adapter/Answers.antt =====
-- What GetDataSync answers.
use cpp_client_sdk.Adapter.{
  received, get_cache_key, add_to_in_memory_cache, DataAdapter, read_from_cache_file, answer_read,
  get_data_sync, max_long_long, answer_lookup,
}
use cpp_client_sdk.Adapter.Memory.{add_to_in_memory_cache-room, add_to_in_memory_cache-full}
use cpp_client_sdk.Details.{DataAdapterResult}
use cpp_client_sdk.Dict.{Dict, find, map_get_or_null-find, IsDict}
use cpp_client_sdk.Files.{CacheDirectory}
use cpp_client_sdk.JsonLib.{JsonLib}
use cpp_client_sdk.Prelude.{
  String, ◌≡◌, refl, sym, ap, ◌∙◌, inl, inr, Bool, true, false, Option, none, some, arith, ltb,
  if◌then◌else◌, Bool-cases, Option-cases, length, All, ◌≤ℤ◌,
}
use cpp_client_sdk.Result.{StatsigResultCode, code_ok, code_eq, StatsigResult, succeed, fail}
use cpp_client_sdk.Text.{eq_iff}
use cpp_client_sdk.User.{StatsigUser}

-- A result that is added under a free key is found there.
find-add :
    (key : String) (r : DataAdapterResult) (m : Dict DataAdapterResult)
    → IsDict m
    → All (λ x. received x ≤ℤ max_long_long) m
    → find key m ≡ none
    → find key (add_to_in_memory_cache key r m) ≡ some r
find-add key r m d t h = elim (Bool-cases (ltb (length m) 10)) [
  | inl room ↦
      rw (add_to_in_memory_cache-room key r m key (ground (arith, room)), h)
        (ground (arith, eq_iff key key))
  | inr full ↦
      let (o, x, found, least, after) =
        add_to_in_memory_cache-full key r m d t (ground (arith, full)) in
      rw (after key, h) (ground (arith, eq_iff key key))
]

module _ ⦃J : JsonLib⦄ where
  -- A hit in memory changes nothing, and gives the result that is there.
  pub get_data_sync_hit :
      (a : DataAdapter) (user : StatsigUser) (r : DataAdapterResult)
      → find (get_cache_key a.sdk_key user) a.in_memory_cache ≡ some r
      → get_data_sync a user ≡ (a, succeed r)
  unfolding get_data_sync
  get_data_sync_hit a user r h =
      ap (answer_lookup a (get_cache_key a.sdk_key user))
        (map_get_or_null-find a.in_memory_cache (get_cache_key a.sdk_key user) ∙ h)

  abbrev pub after_read :
      DataAdapter
      → String
      → CacheDirectory × StatsigResult DataAdapterResult
      → DataAdapter × StatsigResult DataAdapterResult
  after_read a key (d, read) = answer_read (record a { directory = d }) key read.code read.value

  -- A miss reads the file of the key.
  pub get_data_sync_miss :
      (a : DataAdapter) (user : StatsigUser)
      → find (get_cache_key a.sdk_key user) a.in_memory_cache ≡ none
      → get_data_sync a user
        ≡ after_read a
            (get_cache_key a.sdk_key user)
            (read_from_cache_file a.directory (get_cache_key a.sdk_key user))
  unfolding get_data_sync answer_lookup
  get_data_sync_miss a user h =
      ap (answer_lookup a (get_cache_key a.sdk_key user))
        (map_get_or_null-find a.in_memory_cache (get_cache_key a.sdk_key user) ∙ h)

  abbrev IsStable : DataAdapter → String → DataAdapterResult → DataAdapter → Type 0
  IsStable a key r a' = (find key a'.in_memory_cache ≡ some r) × (a'.sdk_key ≡ a.sdk_key)

  answer_read-IsStable :
      (a : DataAdapter) (key : String) (code : StatsigResultCode) (v : Option DataAdapterResult)
      (r : DataAdapterResult)
      → IsDict a.in_memory_cache
      → All (λ x. received x ≤ℤ max_long_long) a.in_memory_cache
      → find key a.in_memory_cache ≡ none
      → (answer_read a key code v).1 ≡ succeed r
      → IsStable a key r (answer_read a key code v).0
  unfolding answer_read
  answer_read-IsStable a key code none r d t free h = absurd cc
  answer_read-IsStable a key code (some x) r d t free h = go (code_eq code code_ok) h
    where
      kept : Bool → DataAdapter × StatsigResult DataAdapterResult
      kept ok =
          if ok
          then (
            record a { in_memory_cache = add_to_in_memory_cache key x a.in_memory_cache },
            succeed x,
          )
          else (a, fail code)

      go : (ok : Bool) → (kept ok).1 ≡ succeed r → IsStable a key r (kept ok).0
      go true e = (
        find-add key x a.in_memory_cache d t free
            ∙ ap (λ (s : StatsigResult DataAdapterResult). s.value) e,
        refl,
      )
      go false e = absurd cc

  -- A read that gives a result is stable, if the in-memory cache has distinct keys and 64-bit times:
  -- whether the result came from memory or from a file, reading again gives it and changes nothing.
  get_data_sync_stable :
      (a : DataAdapter) (user : StatsigUser) (r : DataAdapterResult)
      → IsDict a.in_memory_cache
      → All (λ x. received x ≤ℤ max_long_long) a.in_memory_cache
      → (get_data_sync a user).1 ≡ succeed r
      → get_data_sync (get_data_sync a user).0 user ≡ ((get_data_sync a user).0, succeed r)
  get_data_sync_stable a user r d t h =
      elim (Option-cases (find (get_cache_key a.sdk_key user) a.in_memory_cache)) [
        | inl free ↦
            let missed = get_data_sync_miss a user free in
            let read = read_from_cache_file a.directory (get_cache_key a.sdk_key user) in
            let (found, same) =
              answer_read-IsStable (record a { directory = read.0 }) (get_cache_key a.sdk_key user)
                read.1.code read.1.value r d t free (ap (λ x. x.1) (sym missed) ∙ h) in
            get_data_sync_hit (get_data_sync a user).0 user r (rw (missed, same) found)
        | inr (x, held) ↦
            let hit = get_data_sync_hit a user x held in
            ap (λ p. get_data_sync p.0 user) hit
            ∙ hit
            ∙ ap (λ p. (a, p)) (sym (ap (λ p. p.1) hit) ∙ h)
            ∙ sym (ap (λ p. (p.0, succeed r)) hit)
      ]

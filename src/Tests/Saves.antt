-- ===== src/Tests/Saves.antt =====
-- Tests of the file of failed batches, from one session to the next.
use cpp_client_sdk.Event.{RetryableEventPayload}
use cpp_client_sdk.EventLogger.{get_failed_event_cache_key}
use cpp_client_sdk.EventLogger.Saves.{Failed, due, after_save}
use cpp_client_sdk.EventLogger.Saves.Overlap.{save_all, write_all, save_all-due, saves_overlap}
use cpp_client_sdk.Files.{CacheDirectory, read_from_cache}
use cpp_client_sdk.Json.Requests.{payload_to_json}
use cpp_client_sdk.JsonLib.{JsonLib}
use cpp_client_sdk.Prelude.{
  String, ◌≡◌, refl, sym, true, some, List, [], ◌∷◌, ◌++◌, map, value_or, ℤ, pos,
}
use cpp_client_sdk.Tests.Toy.{Toy, toy_null, toy_of_array, toy_json}
use cpp_client_sdk.Tests.Users.{reader_json, exposed_event}
use mathlib.Core.List.{Permᴰ, Memᴰ}
use mathlib.Core.Path.{subst}

abbrev empty_cache : CacheDirectory
empty_cache = record { is_created = true; files = [] }

-- A batch of one event that failed once.
abbrev failed_batch : (v : Toy) → Failed ⦃J = reader_json v⦄
failed_batch v = (exposed_event v ∷ [], pos 1)

abbrev failed_payload : (v : Toy) → RetryableEventPayload ⦃J = reader_json v⦄
failed_payload v = record { attempts = pos 1; events = exposed_event v ∷ [] }

abbrev saved_json : Toy
saved_json =
    toy_of_array (map (payload_to_json ⦃J = reader_json toy_null⦄) (failed_payload toy_null ∷ []))

abbrev saved_reader : JsonLib
saved_reader = reader_json saved_json

-- Two batches that fail while none is written.
abbrev two_failed : List (Failed ⦃J = saved_reader⦄)
two_failed = failed_batch saved_json ∷ ([], pos 2) ∷ []

abbrev due_write : Failed ⦃J = saved_reader⦄ → String × String
due_write p = value_or (due ⦃J = saved_reader⦄ "client-key" empty_cache p) ("", "")

-- The second is written first.
abbrev early_writes : List (ℤ × (String × String))
early_writes = (pos 4, due_write ([], pos 2)) ∷ []

all_due :
    (p : Failed ⦃J = saved_reader⦄)
    → due ⦃J = saved_reader⦄ "client-key" empty_cache p ≡ some (due_write p)
unfolding due
all_due p = refl

swapped_order :
    Permᴰ
      (save_all ⦃J = saved_reader⦄ "client-key" empty_cache two_failed).1
      (due_write ([], pos 2) ∷ due_write (failed_batch saved_json) ∷ [])
swapped_order =
    subst (λ ws. Permᴰ ws (due_write ([], pos 2) ∷ due_write (failed_batch saved_json) ∷ []))
      (sym (
        save_all-due ⦃J = saved_reader⦄ "client-key" empty_cache empty_cache due_write two_failed
          refl all_due))
      (Permᴰ.swap refl refl)

saves_overlap_example :
    (p : Failed ⦃J = saved_reader⦄) × Memᴰ p two_failed
    × ((read_from_cache
          (write_all ⦃J = saved_reader⦄ "client-key"
            (early_writes ++ (pos 5, due_write (failed_batch saved_json)) ∷ [])
            (save_all ⦃J = saved_reader⦄ "client-key" empty_cache two_failed).0)
          (get_failed_event_cache_key "client-key")).1
        ≡ (read_from_cache
            (after_save ⦃J = saved_reader⦄ "client-key" (pos 5) empty_cache p)
            (get_failed_event_cache_key "client-key")).1)
saves_overlap_example =
    saves_overlap ⦃J = saved_reader⦄ "client-key" empty_cache two_failed early_writes (pos 5)
      (due_write (failed_batch saved_json)) swapped_order

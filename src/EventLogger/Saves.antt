-- ===== src/EventLogger/Saves.antt =====
-- SaveFailedEvents of src/statsig/internal/event_logger.hpp with the write that it leaves to the background,
-- and what the next session finds.
pub mod Overlap
use cpp_client_sdk.Event.{StatsigEventInternal}
use cpp_client_sdk.EventLogger.{
  add_failure, get_failed_event_cache_key, read_failures, save_failed_events,
}
use cpp_client_sdk.Files.{CacheDirectory, read_from_cache, do_write}
use cpp_client_sdk.Files.Writes.{read_from_cache_again, do_write-read}
use cpp_client_sdk.Json.Requests.{payload_to_json, serialize_payloads}
use cpp_client_sdk.JsonLib.{JsonLib, ◌>>=◌}
use cpp_client_sdk.Prelude.{
  String, ◌≡◌, refl, ap, ◌∙◌, Option, none, some, List, map, if◌then◌else◌, ℤ,
}
use cpp_client_sdk.Result.{code_ok, code_eq, StatsigResult, succeed}
use mathlib.Core.List.{map-append}
use mathlib.Core.Path.{ap₂, subst}
use mathlib.Core.List.{Permᴰ, Memᴰ}

module _ ⦃J : JsonLib⦄ where
  -- A batch that failed, after so many attempts.
  abbrev pub Failed : Type 0
  Failed = List StatsigEventInternal × ℤ

module _ ⦃J : JsonLib⦄ (sdk_key : String) where
  open J use {dump, of_array}

  -- The write that a save leaves, if the JSON library can print the batches.
  unfoldable pub due : CacheDirectory → Failed → Option (String × String)
  due d p =
      let cached = (read_from_cache d (get_failed_event_cache_key sdk_key)).1 in
      let failures = add_failure (read_failures cached) (record { attempts = p.1; events = p.0 }) in
      dump (of_array (map payload_to_json failures)) >>= λ text.
      some (get_failed_event_cache_key sdk_key, text)

  pub save_due :
      (d : CacheDirectory) (p : Failed)
      → save_failed_events d sdk_key p.0 p.1
        ≡ ((read_from_cache d (get_failed_event_cache_key sdk_key)).0, due d p)
  unfolding save_failed_events serialize_payloads due
  save_due d p =
      let cached = (read_from_cache d key).1 in
      let failures = add_failure (read_failures cached) (record { attempts = p.1; events = p.0 }) in
      ap (λ w. ((read_from_cache d key).0, w))
        (printed (dump (of_array (map payload_to_json failures))))
    where
      key : String
      key = get_failed_event_cache_key sdk_key

      as_write : StatsigResult String → Option (String × String)
      as_write serialized =
          if code_eq serialized.code code_ok
          then (elim serialized.value [ none ↦ none | some text ↦ some (key, text) ])
          else none

      keep : String → Option (String × String)
      keep text = some (key, text)

      printed :
          (o : Option String) → ((o >>= λ text. some (succeed text)) >>= as_write) ≡ (o >>= keep)
      printed none = refl
      printed (some text) = refl

  -- The directory once the write of a save is made.
  pub after_save : ℤ → CacheDirectory → Failed → CacheDirectory
  unfolding save_failed_events do_write
  after_save now d p =
      let (d', write) = save_failed_events d sdk_key p.0 p.1 in do_write now write d'

  pub after_save-read :
      (now : ℤ) (d : CacheDirectory) (p : Failed) (text : String)
      → due d p ≡ some (get_failed_event_cache_key sdk_key, text)
      → (read_from_cache (after_save now d p) (get_failed_event_cache_key sdk_key)).1 ≡ some text
  unfolding after_save
  after_save-read now d p text printed =
      let key = get_failed_event_cache_key sdk_key in
      ap (λ s. (read_from_cache (do_write now s.1 s.0) key).1) (save_due d p)
      ∙ ap (λ w. (read_from_cache (do_write now w (read_from_cache d key).0) key).1) printed
      ∙ do_write-read now (read_from_cache d key).0 key text (read_from_cache_again d key).0

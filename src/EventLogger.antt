-- ===== src/EventLogger.antt =====
-- src/statsig/internal/event_logger.hpp: the queue of events and its flushes, and the failed batches
-- that wait for the next session. Each public method holds the logger's lock, so it is one step; a
-- batch that FlushImpl hands to the background goes to the end of `submitted`.
pub mod Batches
pub mod Failures
pub mod Retry
pub mod Background
pub mod Saves
use cpp_client_sdk.Diagnostics.{Diagnostics, append_event}
use cpp_client_sdk.Event.{StatsigEventInternal, RetryableEventPayload}
use cpp_client_sdk.Files.{CacheDirectory, read_from_cache}
use cpp_client_sdk.Hashing.{djb2}
use cpp_client_sdk.Json.Requests.{serialize_payloads, deserialize_payloads}
use cpp_client_sdk.JsonLib.{JsonLib, ◌>>=◌}
use cpp_client_sdk.Prelude.{
  ℕ, suc, ◌-◌, ◌^◌, String, Option, none, some, List, [], ◌∷◌, ◌++◌, ltb, if◌then◌else◌, value_or,
  length, pop_back, ℤ, pos, negsuc,
}
use cpp_client_sdk.Result.{code_ok, code_eq}
use cpp_client_sdk.Text.{concat}
use cpp_client_sdk.User.{StatsigOptions}

-- An int that is compared with a size_t.
unfoldable pub size_of_int : ℤ → ℕ
size_of_int (pos n) = n
size_of_int (negsuc n) = 2 ^ 64 - suc n

-- options.logging_max_buffer_size.value_or(kMaxQueuedEvents).
pub get_max_buffer_size : StatsigOptions → ℤ
get_max_buffer_size options = value_or options.logging_max_buffer_size (pos 50)

module _ ⦃J : JsonLib⦄ where
  pub record EventLogger : Type 0 where
    pub events : List StatsigEventInternal
    pub max_buffer_size : ℤ
    pub diagnostics : Diagnostics
    pub submitted : List (List StatsigEventInternal)

  abbrev pub new_logger : ℤ → Diagnostics → EventLogger
  new_logger max d = record { events = []; max_buffer_size = max; diagnostics = d; submitted = [] }

  -- The second half of FlushImpl, on the queue that AppendEvent leaves.
  unfoldable pub submit : EventLogger → Diagnostics → List StatsigEventInternal → EventLogger
  submit l d [] = record l { events = []; diagnostics = d }
  submit l d (e ∷ es) = record l {
    events = [];
    diagnostics = d;
    submitted = l.submitted ++ (e ∷ es) ∷ [];
  }

  unfoldable pub flush_impl : ℤ → EventLogger → EventLogger
  unfolding submit append_event
  flush_impl now l = let (d, events) = append_event now l.diagnostics l.events in submit l d events

  pub enqueue : ℤ → EventLogger → StatsigEventInternal → EventLogger
  unfolding flush_impl size_of_int
  enqueue now l event =
      let l' = record l { events = l.events ++ event ∷ [] } in
      let flushed = flush_impl now l' in
      if ltb (size_of_int l.max_buffer_size) (length l'.events) then flushed else l'

  pub flush : ℤ → EventLogger → EventLogger
  unfolding flush_impl
  flush now l = flush_impl now l

  -- The handles of the timer and of the platform events, which Shutdown resets first, are not kept.
  unfoldable pub shutdown : ℤ → EventLogger → EventLogger
  unfolding flush_impl
  shutdown now l = flush_impl now l

  -- The list that SaveFailedEvents writes, from the one that it read.
  pub add_failure : List RetryableEventPayload → RetryableEventPayload → List RetryableEventPayload
  add_failure failures payload =
      let inserted = payload ∷ failures in
      if ltb 5 (length inserted) then pop_back inserted else inserted

-- GetFailedEventCacheKey.
pub get_failed_event_cache_key : String → String
get_failed_event_cache_key sdk_key = concat "statsig.failed_events." (djb2 sdk_key)

module _ ⦃J : JsonLib⦄ where
  -- The failed batches that a file holds; an unreadable file holds none.
  pub read_failures : Option String → List RetryableEventPayload
  unfolding deserialize_payloads
  read_failures none = []
  read_failures (some text) = value_or (deserialize_payloads text).value []

  -- SaveFailedEvents: the directory after the read, and the text that is written under the key. An
  -- exception of the serializer leaves no write either.
  pub save_failed_events :
      CacheDirectory
      → String
      → List StatsigEventInternal
      → ℤ
      → CacheDirectory × Option (String × String)
  unfolding read_from_cache read_failures add_failure serialize_payloads
  save_failed_events d sdk_key events attempt =
      let key = get_failed_event_cache_key sdk_key in
      let (d', cached) = read_from_cache d key in
      let payload : RetryableEventPayload = record { attempts = attempt; events = events } in
      (
        d',
        serialize_payloads (add_failure (read_failures cached) payload) >>= λ serialized.
            if code_eq serialized.code code_ok
            then (elim serialized.value [ none ↦ none | some text ↦ some (key, text) ])
            else none,
      )

-- ===== src/EventLogger/Retry.antt =====
-- How src/statsig/internal/event_logger.hpp sends a batch, and sends the failed ones of earlier
-- sessions again. A weak pointer is what it gives when it is locked; the text that a save writes is
-- returned, since the write itself is left to the background.
use cpp_client_sdk.Diagnostics.{Diagnostics}
use cpp_client_sdk.Dict.{Dict}
use cpp_client_sdk.Event.{StatsigEventInternal, RetryableEventPayload}
use cpp_client_sdk.EventLogger.{get_failed_event_cache_key, save_failed_events}
use cpp_client_sdk.Files.{CacheDirectory, read_from_cache, delete_from_cache}
use cpp_client_sdk.Http.{HttpResponse}
use cpp_client_sdk.Json.Requests.{serialize_log_event_args, deserialize_payloads}
use cpp_client_sdk.JsonLib.{JsonLib}
use cpp_client_sdk.Network.{
  NetworkResult, has_success_code, Exchange, send_events_result, send_events,
}
use cpp_client_sdk.Network.Requests.{send_events_total, send_events_result-value}
use cpp_client_sdk.Network.Retry.{EndsAt}
use cpp_client_sdk.Prelude.{
  ℕ, String, ◌≡◌, refl, ap, ◌∙◌, Bool, true, false, ◌&&◌, not, Option, none, some, List, [], ◌∷◌,
  if◌then◌else◌, has_value, value_or, ℤ, pos, ◌+ℤ◌, leb_ℤ,
}
use cpp_client_sdk.Result.{code_ok, code_eq, succeed}

-- constants::kFailedEventPayloadRetryCount.
abbrev pub failed_event_payload_retry_count : ℤ
failed_event_payload_retry_count = pos 3

module _ ⦃J : JsonLib⦄ where
  -- The file's read directory, and the text to write under its key.
  abbrev pub Save : Type 0
  Save = CacheDirectory × Option (String × String)

  -- The callback of SendEvents, on a logger that lives.
  pub on_sent : CacheDirectory → String → List StatsigEventInternal → NetworkResult Bool → Save
  unfolding save_failed_events
  on_sent d sdk_key events result =
      if not (has_value result.value)
      then save_failed_events d sdk_key events (pos 1)
      else (d, none)

  -- The callback that RetryFailedEvents gives: no batch is kept after its last attempt.
  pub on_sent_again :
      CacheDirectory → String → List StatsigEventInternal → ℤ → NetworkResult Bool → Save
  unfolding save_failed_events
  on_sent_again d sdk_key events attempt result =
      if not (has_value result.value) && leb_ℤ attempt failed_event_payload_retry_count
      then save_failed_events d sdk_key events attempt
      else (d, none)

  -- The network service, where its weak pointer gives one: how the server answers a body, the
  -- metadata and the diagnostics of its posts.
  pub record Network : Type 0 where
    pub respond : String → ℕ → Exchange
    pub metadata : Dict String
    pub diagnostics : Diagnostics

  -- EventLogger::SendEvents. Where the arguments do not serialize the callback is not called, and where
  -- the serializer throws the program ends; the directory is then as it was.
  pub send_batch : Option Network → CacheDirectory → String → List StatsigEventInternal → Save
  unfolding on_sent
  send_batch none d sdk_key events = (d, none)
  send_batch (some net) d sdk_key events =
      elim (send_events net.respond net.metadata events net.diagnostics) [
        | none ↦ (d, none)
        | some result ↦ on_sent d sdk_key events result
      ]

  -- The task of FlushImpl, with what its weak pointer gives.
  pub flush_task :
      Bool → Option Network → CacheDirectory → String → List StatsigEventInternal → Save
  unfolding send_batch
  flush_task is_alive net d sdk_key events =
      if is_alive then send_batch net d sdk_key events else (d, none)

  -- The file, its name and the batches that RetryFailedEvents finds in it: it is deleted once read,
  -- also where its text does not parse.
  unfoldable pub take_failures :
      CacheDirectory → String → CacheDirectory × List RetryableEventPayload
  unfolding read_from_cache delete_from_cache deserialize_payloads
  take_failures d sdk_key =
      let key = get_failed_event_cache_key sdk_key in
      let (d', cached) = read_from_cache d key in
      elim cached [
        | none ↦ (d', [])
        | some text ↦
            let failures = deserialize_payloads text in
            let kept : List RetryableEventPayload =
              if code_eq failures.code code_ok then value_or failures.value [] else [] in
            (delete_from_cache d' key, kept)
      ]

  -- The loop over the batches, each with one attempt more.
  pub resend :
      Option Network
      → CacheDirectory
      → String
      → List RetryableEventPayload
      → CacheDirectory × List (String × String)
  unfolding on_sent_again
  resend net d sdk_key [] = (d, [])
  resend none d sdk_key (f ∷ fs) = (d, [])
  resend (some net) d sdk_key (f ∷ fs) =
      let saved : Save = elim (send_events net.respond net.metadata f.events net.diagnostics) [
        | none ↦ (d, none)
        | some result ↦ on_sent_again d sdk_key f.events (f.attempts +ℤ pos 1) result
      ] in
      let (d', writes) = resend (some net) saved.0 sdk_key fs in
      (d', elim saved.1 [ none ↦ writes | some w ↦ w ∷ writes ])

  -- The task of RetryFailedEvents. The constructor takes its weak pointer before any shared pointer
  -- owns the logger, so for the task that it starts `is_alive` is false.
  pub retry_failed_events :
      Bool → Option Network → CacheDirectory → String → CacheDirectory × List (String × String)
  unfolding take_failures resend
  retry_failed_events is_alive net d sdk_key =
      let (d', failures) = take_failures d sdk_key in
      let resent = resend net d' sdk_key failures in if is_alive then resent else (d, [])

  pub retry_failed_events-false :
      (net : Option Network) (d : CacheDirectory) (sdk_key : String)
      → retry_failed_events false net d sdk_key ≡ (d, [])
  unfolding retry_failed_events
  retry_failed_events-false net d sdk_key = refl

  on_sent-send_events_result :
      (d : CacheDirectory) (sdk_key : String) (events : List StatsigEventInternal)
      (answer : HttpResponse)
      → on_sent d sdk_key events (send_events_result (some answer)) ≡ (
          if has_success_code (some answer)
          then (d, none)
          else save_failed_events d sdk_key events (pos 1))
  unfolding on_sent
  on_sent-send_events_result d sdk_key events answer =
      ap (λ b. if not b then save_failed_events d sdk_key events (pos 1) else (d, none))
        (send_events_result-value answer)
      ∙ swap (has_success_code (some answer))
    where
      swap :
          (b : Bool)
          → (if not b then save_failed_events d sdk_key events (pos 1) else (d, none))
            ≡ (if b then (d, none) else save_failed_events d sdk_key events (pos 1))
      swap true = refl
      swap false = refl

  -- A batch that serializes is posted a second time exactly if the first answer has a retryable
  -- status, and it is saved for the next session exactly if the status of the last answer is no
  -- success: what the answer says of success in its body, or whether it parses, makes no difference.
  pub send_batch_saves :
      (net : Network) (d : CacheDirectory) (sdk_key : String) (events : List StatsigEventInternal)
      (body : String)
      → serialize_log_event_args events net.metadata ≡ some (succeed body)
      → (n : ℕ) × EndsAt (net.respond body) 1 2 n
        × (send_batch (some net) d sdk_key events ≡ (
            if has_success_code (some (net.respond body n).answer)
            then (d, none)
            else save_failed_events d sdk_key events (pos 1)))
  unfolding send_batch
  send_batch_saves net d sdk_key events body h =
      let (n, ends, sent) =
        send_events_total net.respond net.metadata events net.diagnostics body h in
      (
        n,
        ends,
        ap (λ o. elim o [ none ↦ (d, none) | some result ↦ on_sent d sdk_key events result ]) sent
            ∙ on_sent-send_events_result d sdk_key events (net.respond body n).answer,
      )

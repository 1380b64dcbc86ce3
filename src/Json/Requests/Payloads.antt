-- ===== src/Json/Requests/Payloads.antt =====
-- src/statsig_compat/json_serialization/retryable_event_payload_json.hpp: the file of failed batches, from
-- the session that writes it to the one that reads it.
use cpp_client_sdk.Dict.{Dict, find, is_dict, is_dict-IsDict}
use cpp_client_sdk.Event.{StatsigEventInternal, RetryableEventPayload}
use cpp_client_sdk.Json.Requests.{
  event_to_json, event_from_json, payload_to_json, payload_from_json, serialize_payloads,
  payloads_from_json, deserialize_payloads,
}
use cpp_client_sdk.Json.Requests.RoundTrip.{IsLogged, KeptWithoutExposures, event_from_json-to_json}
use cpp_client_sdk.JsonLib.{JsonLib, ◌>>=◌, bind_cases, traverse}
use cpp_client_sdk.JsonLib.Laws.{IsInt64, JsonLaws, IsPrintable, MemberLaws, KindLaws}
use cpp_client_sdk.Prelude.{String, ◌≡◌, refl, ap, ◌∙◌, Option, none, some, List, [], ◌∷◌, map}
use cpp_client_sdk.Result.{json_failure_retryable_event_payload, StatsigResult, succeed, fail}

-- Lists of equal length whose elements are related in order.
abbrev pub Each {ℓ} : {A B : Type ℓ} → (A → B → Type 0) → List A → List B → Type 0
Each R [] [] = Unit
Each R (x ∷ xs) (y ∷ ys) = R x y × Each R xs ys
Each R [] (y ∷ ys) = ⊥
Each R (x ∷ xs) [] = ⊥

module _ ⦃J : JsonLib⦄ where
  abbrev pub AreLogged : List StatsigEventInternal → Type 0
  AreLogged [] = Unit
  AreLogged (e ∷ es) = ((id : String) × IsLogged e id) × AreLogged es

  -- Batches with attempts of 64 bits, of events of users with ids.
  abbrev pub AreBatches : List RetryableEventPayload → Type 0
  AreBatches [] = Unit
  AreBatches (p ∷ ps) = (IsInt64 p.attempts × AreLogged p.events) × AreBatches ps

  abbrev pub KeptBatch : RetryableEventPayload → RetryableEventPayload → Type 0
  KeptBatch p r = (r.attempts ≡ p.attempts) × Each KeptWithoutExposures p.events r.events

module _ ⦃J : JsonLib⦄ ⦃laws : JsonLaws J⦄ ⦃members : MemberLaws J⦄ (kinds : KindLaws J) where
  open J use {Value, of_int, of_array, get_at, get_array, dump}
  open laws use {get_at-of_map, get_int-of_int}
  open kinds use {get_array-of_array}

  events_read :
      (es : List StatsigEventInternal)
      → AreLogged es
      → (rs : List StatsigEventInternal) × (traverse event_from_json (map event_to_json es)
          ≡ some rs)
        × Each KeptWithoutExposures es rs
  unfolding traverse
  events_read [] w = ([], refl, tt)
  events_read (e ∷ es) w =
      let (r, read, kept) = event_from_json-to_json kinds e w.0.0 w.0.1 in
      let (rs, reads, all_kept) = events_read es w.1 in
      (r ∷ rs, rw (read, reads) refl, (kept, all_kept))

  members_of : RetryableEventPayload → Dict Value
  members_of p =
      ("attempts", of_int p.attempts) ∷ ("events", of_array (map event_to_json p.events)) ∷ []

  payload_member :
      (p : RetryableEventPayload) (k : String)
      → get_at (payload_to_json p) k ≡ find k (members_of p)
  unfolding payload_to_json members_of
  payload_member p k =
      get_at-of_map k (members_of p) (is_dict-IsDict (members_of p) (unfold is_dict in refl))

  payload_read :
      (p : RetryableEventPayload)
      → IsInt64 p.attempts
      → AreLogged p.events
      → (r : RetryableEventPayload) × (payload_from_json (payload_to_json p) ≡ some r)
        × KeptBatch p r
  unfolding payload_from_json find members_of
  payload_read p h w =
      let (rs, read, kept) = events_read p.events w in
      (
        record { attempts = p.attempts; events = rs },
        rw
            (
              payload_member p "attempts",
              get_int-of_int p.attempts h,
              payload_member p "events",
              get_array-of_array (map event_to_json p.events),
              read,
            )
            refl,
        (refl, kept),
      )

  payloads_read :
      (ps : List RetryableEventPayload)
      → AreBatches ps
      → (rs : List RetryableEventPayload) × (traverse payload_from_json (map payload_to_json ps)
          ≡ some rs)
        × Each KeptBatch ps rs
  unfolding traverse
  payloads_read [] w = ([], refl, tt)
  payloads_read (p ∷ ps) w =
      let (r, read, kept) = payload_read p w.0.0 w.0.1 in
      let (rs, reads, all_kept) = payloads_read ps w.1 in
      (r ∷ rs, rw (read, reads) refl, (kept, all_kept))

  -- Batches that one session saves are read back by the next: as many, in order, each with its number
  -- of attempts and its events in order, every one with its name, time, user, metadata and value, but
  -- none with the exposures it had. The attempts and the times have 64 bits, the users have ids, the
  -- maps have distinct keys, and the JSON library can print the batches.
  pub deserialize-serialize_payloads :
      (ps : List RetryableEventPayload)
      → AreBatches ps
      → IsPrintable J (of_array (map payload_to_json ps))
      → (text : String) × (rs : List RetryableEventPayload) × (serialize_payloads ps
          ≡ some (succeed text))
        × (deserialize_payloads text ≡ succeed rs)
        × Each KeptBatch ps rs
  unfolding serialize_payloads deserialize_payloads payloads_from_json
  deserialize-serialize_payloads ps w printable =
      let (rs, read, kept) = payloads_read ps w in
      let (text, printed, parsed) =
        bind_cases (J.dump (of_array (map payload_to_json ps))) J.parse _ printable in
      (
        text,
        rs,
        ap (λ o. o >>= λ t. some (succeed t)) printed,
        ap (λ o. answer (o >>= payloads_from_json)) parsed
            ∙ ap (λ o. answer (o >>= traverse payload_from_json))
                (get_array-of_array (map payload_to_json ps))
            ∙ ap answer read,
        kept,
      )
    where
      answer : Option (List RetryableEventPayload) → StatsigResult (List RetryableEventPayload)
      answer none = fail json_failure_retryable_event_payload
      answer (some failures) = succeed failures

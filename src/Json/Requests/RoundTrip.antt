-- ===== src/Json/Requests/RoundTrip.antt =====
-- src/statsig_compat/json_serialization/statsig_event_json.hpp: an event that is saved for a retry and read
-- by the next session.
use cpp_client_sdk.Dict.{Dict, find, IsDict}
use cpp_client_sdk.Event.{StatsigEventInternal}
use cpp_client_sdk.Json.EventMembers.{base, metadata_of, value_of, Holds-event_to_json}
use cpp_client_sdk.Json.Members.{slot-none}
use cpp_client_sdk.Json.Requests.{
  event_to_json, value_or_null, user_member, metadata_member, exposures_member, value_member,
  event_from_json,
}
use cpp_client_sdk.Json.User.{user_to_json, user_from_json}
use cpp_client_sdk.Json.User.RoundTrip.{
  IsIdentified, is_object-user_to_json, user_from_json-to_json,
}
use cpp_client_sdk.JsonLib.{JsonLib, ◌>>=◌, value_or_initial}
use cpp_client_sdk.JsonLib.Laws.{IsInt64, JsonLaws, MemberLaws, KindLaws}
use cpp_client_sdk.Prelude.{
  String, ◌≡◌, refl, sym, ap, ◌∙◌, inl, inr, true, Option, none, some, if◌then◌else◌, has_value,
}
use cpp_client_sdk.User.{StatsigUser, empty_user}
use cpp_client_sdk.User.Keys.{SameUser}
use mathlib.Core.List.{Permᴰ}

module _ ⦃J : JsonLib⦄ where
  open J use {Value, Double}

  -- Metadata that differ in their iteration order only.
  abbrev pub SameMetadata : Option (Dict Value) → Option (Dict Value) → Type 0
  SameMetadata none none = Unit
  SameMetadata (some m) (some n) = IsDict m × Permᴰ m n
  SameMetadata none (some n) = ⊥
  SameMetadata (some m) none = ⊥

  -- The value of an event: its text, or else its number.
  abbrev pub number_without_text : Option String → Option Double → Option Double
  number_without_text none d = d
  number_without_text (some s) d = none

  -- An event of a user with an id, of a 64-bit time, whose maps have distinct keys.
  pub record IsLogged (e : StatsigEventInternal) (id : String) : Type 0 where
    pub time : IsInt64 e.time
    pub user : IsIdentified e.user id
    pub metadata : SameMetadata e.metadata e.metadata

  -- What a saved event keeps: its name, time, user, metadata and value, the user and the metadata up to
  -- iteration order, and no exposures.
  abbrev pub KeptWithoutExposures : StatsigEventInternal → StatsigEventInternal → Type 0
  KeptWithoutExposures e r =
      (r.event_name ≡ e.event_name)
      × (r.time ≡ e.time)
      × SameUser e.user r.user
      × SameMetadata e.metadata r.metadata
      × (r.string_value ≡ e.string_value)
      × (r.double_value ≡ number_without_text e.string_value e.double_value)
      × (r.secondary_exposures ≡ none)

module _ ⦃J : JsonLib⦄ ⦃laws : JsonLaws J⦄ ⦃members : MemberLaws J⦄ (kinds : KindLaws J) where
  open J use {
    Value, Double, null, is_object, is_array, is_string, is_number, get_at, of_string, of_int,
    of_double, of_array, of_map, set_key,
  }
  open laws use {get_at-of_map, get_string-of_string, get_int-of_int}
  open members use {contains_get_at, get_map-of_map, is_object-of_map, get_at_null}
  open kinds use {
    is_object_null, is_array_null, is_string_null, is_number_null, is_string-of_string,
    is_string-of_double, is_number-of_double, get_double-of_double,
  }

  -- `json.value(key, null_json)` on an object.
  or_null : Option Value → Value
  or_null none = null
  or_null (some v) = v

  value_or_null-get_at :
      (j : Value) (k : String) (o : Option Value)
      → is_object j ≡ true
      → get_at j k ≡ o
      → value_or_null j k ≡ some (or_null o)
  unfolding value_or_null value_or_initial or_null
  value_or_null-get_at j k none h e = rw (h, contains_get_at j k ∙ ap has_value e) refl
  value_or_null-get_at j k (some v) h e = rw (h, contains_get_at j k ∙ ap has_value e, e) refl

  user_slot :
      (j : Value) (u : StatsigUser) (id : String)
      → is_object j ≡ true
      → IsIdentified u id
      → get_at j "user" ≡ some (user_to_json u)
      → (v : StatsigUser) × (user_member j ≡ some v) × SameUser u v
  unfolding user_member or_null
  user_slot j u id h w e =
      let (v, read, same) = user_from_json-to_json u id w in
      (
        v,
        ap (λ o. o >>= λ x. if is_object x then user_from_json x else some empty_user)
              (value_or_null-get_at j "user" (some (user_to_json u)) h e)
            ∙ ap (λ b. if b then user_from_json (user_to_json u) else some empty_user)
                (is_object-user_to_json u id w.user_id)
            ∙ read,
        same,
      )

  metadata_slot :
      (j : Value) (o : Option (Dict Value))
      → is_object j ≡ true
      → SameMetadata o o
      → get_at j "metadata" ≡ metadata_of o
      → (r : Option (Dict Value)) × (metadata_member j ≡ some r) × SameMetadata o r
  unfolding metadata_member or_null
  metadata_slot j none h d e =
      (none, rw (value_or_null-get_at j "metadata" none h e, is_object_null) refl, tt)
  metadata_slot j (some m) h d e =
      let (n, read, p) = get_map-of_map m d.0 in
      (
        some n,
        rw (value_or_null-get_at j "metadata" (some (of_map m)) h e, is_object-of_map m, read) refl,
        (d.0, p),
      )

  exposures_lost :
      (j : Value)
      → is_object j ≡ true
      → get_at j "secondary_exposures" ≡ none
      → exposures_member j ≡ some none
  unfolding exposures_member or_null
  exposures_lost j h e =
      rw (value_or_null-get_at j "secondary_exposures" none h e, is_array_null) refl

  value_slot :
      (j : Value) (s : Option String) (d : Option Double)
      → is_object j ≡ true
      → get_at j "value" ≡ value_of s d
      → value_member j ≡ some (s, number_without_text s d)
  unfolding value_member or_null
  value_slot j (some s) d h e =
      rw
        (
          value_or_null-get_at j "value" (some (of_string s)) h e,
          is_string-of_string s,
          get_string-of_string s,
        )
        refl
  value_slot j none (some d) h e =
      rw
        (
          value_or_null-get_at j "value" (some (of_double d)) h e,
          is_string-of_double d,
          is_number-of_double d,
          get_double-of_double d,
        )
        refl
  value_slot j none none h e =
      rw (value_or_null-get_at j "value" none h e, is_string_null, is_number_null) refl

  is_object-event_to_json : (e : StatsigEventInternal) → is_object (event_to_json e) ≡ true
  unfolding find base
  is_object-event_to_json e =
      let h = Holds-event_to_json e in
      elim h.shape [
        | inr o ↦ o
        | inl n ↦
            absurd cc
              (sym (get_at_null "time") ∙ ap (λ j. get_at j "time") (sym n) ∙ h.at_key "time")
      ]

  -- An event that is saved for the next session is read back with all but the exposures it had.
  pub event_from_json-to_json :
      (e : StatsigEventInternal) (id : String)
      → IsLogged e id
      → (r : StatsigEventInternal) × (event_from_json (event_to_json e) ≡ some r)
        × KeptWithoutExposures e r
  unfolding event_from_json find base
  event_from_json-to_json e id w =
      let j = event_to_json e in
      let object = is_object-event_to_json e in
      let at = (Holds-event_to_json e).at_key in
      let (user, read_user, same_user) = user_slot j e.user id object w.user (at "user") in
      let (m, read_metadata, same_metadata) =
        metadata_slot j e.metadata object w.metadata
          (at "metadata" ∙ slot-none (metadata_of e.metadata)) in
      (
        record e {
          user = user;
          metadata = m;
          double_value = number_without_text e.string_value e.double_value;
          secondary_exposures = none;
        },
        rw
            (
              at "eventName",
              get_string-of_string e.event_name,
              at "time",
              get_int-of_int e.time w.time,
              read_user,
              read_metadata,
              exposures_lost j object (at "secondary_exposures"),
              value_slot j e.string_value e.double_value object
                  (at "value" ∙ slot-none (value_of e.string_value e.double_value)),
            )
            refl,
        (refl, refl, same_user, same_metadata, refl, refl, refl),
      )

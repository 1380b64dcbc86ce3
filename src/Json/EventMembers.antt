-- ===== src/Json/EventMembers.antt =====
-- The members of the JSON of an event, in src/statsig_compat/json_serialization/statsig_event_json.hpp.
use cpp_client_sdk.Dict.{Dict, find, is_dict, is_dict-IsDict}
use cpp_client_sdk.Event.{StatsigEventInternal}
use cpp_client_sdk.Json.ErrorArgs.{json_of_strings}
use cpp_client_sdk.Json.Members.{Holds, with_member, Holds-set_key, Holds-skip}
use cpp_client_sdk.Json.Requests.{event_to_json}
use cpp_client_sdk.Json.User.{user_to_json}
use cpp_client_sdk.JsonLib.{JsonLib}
use cpp_client_sdk.JsonLib.Laws.{JsonLaws, MemberLaws}
use cpp_client_sdk.Prelude.{String, refl, inr, Option, none, some, List, [], ◌∷◌, map}

module _ ⦃J : JsonLib⦄ ⦃laws : JsonLaws J⦄ ⦃members : MemberLaws J⦄ where
  open J use {
    Value, Double, null, is_object, is_array, is_string, is_number, get_at, of_string, of_int,
    of_double, of_array, of_map, set_key,
  }
  open laws use {get_at-of_map, get_string-of_string, get_int-of_int}
  open members use {contains_get_at, get_map-of_map, is_object-of_map, get_at_null}

  unfoldable pub base : StatsigEventInternal → Dict Value
  base e =
      ("eventName", of_string e.event_name)
      ∷ ("time", of_int e.time)
      ∷ ("user", user_to_json e.user)
      ∷ []

  abbrev pub metadata_of : Option (Dict Value) → Option Value
  metadata_of none = none
  metadata_of (some m) = some (of_map m)

  abbrev exposures_of : Option (List (Dict String)) → Option Value
  exposures_of none = none
  exposures_of (some es) = some (of_array (map json_of_strings es))

  abbrev pub value_of : Option String → Option Double → Option Value
  value_of (some s) d = some (of_string s)
  value_of none (some d) = some (of_double d)
  value_of none none = none

  abbrev members_of : StatsigEventInternal → String → Option Value
  members_of e = with_member "value" (value_of e.string_value e.double_value) (
      with_member "secondaryExposures" (exposures_of e.secondary_exposures)
        (with_member "metadata" (metadata_of e.metadata) (λ i. find i (base e))))

  Holds-base : (e : StatsigEventInternal) → Holds (of_map (base e)) (λ i. find i (base e))
  unfolding base
  Holds-base e = record {
    shape = inr (is_object-of_map (base e));
    at_key = λ i. get_at-of_map i (base e) (is_dict-IsDict (base e) (unfold is_dict in refl));
  }

  Holds-metadata :
      {j : Value} {f : String → Option Value} (o : Option (Dict Value))
      → Holds j f
      → Holds
          (elim o [ none ↦ j | some m ↦ set_key j "metadata" (of_map m) ])
          (with_member "metadata" (metadata_of o) f)
  Holds-metadata {j} {f} none h = Holds-skip j "metadata" f h
  Holds-metadata {j} {f} (some m) h = Holds-set_key j (of_map m) "metadata" f h

  Holds-exposures :
      {j : Value} {f : String → Option Value} (o : Option (List (Dict String)))
      → Holds j f
      → Holds
          (elim o [
            | none ↦ j
            | some es ↦ set_key j "secondaryExposures" (of_array (map json_of_strings es))
          ])
          (with_member "secondaryExposures" (exposures_of o) f)
  Holds-exposures {j} {f} none h = Holds-skip j "secondaryExposures" f h
  Holds-exposures {j} {f} (some es) h =
      Holds-set_key j (of_array (map json_of_strings es)) "secondaryExposures" f h

  Holds-value :
      {j : Value} {f : String → Option Value} (s : Option String) (d : Option Double)
      → Holds j f
      → Holds
          (elim s [
            | some s ↦ set_key j "value" (of_string s)
            | none ↦ elim d [ some d ↦ set_key j "value" (of_double d) | none ↦ j ]
          ])
          (with_member "value" (value_of s d) f)
  Holds-value {j} {f} (some s) d h = Holds-set_key j (of_string s) "value" f h
  Holds-value {j} {f} none (some d) h = Holds-set_key j (of_double d) "value" f h
  Holds-value {j} {f} none none h = Holds-skip j "value" f h

  pub Holds-event_to_json : (e : StatsigEventInternal) → Holds (event_to_json e) (members_of e)
  unfolding event_to_json base
  Holds-event_to_json e =
      Holds-value e.string_value e.double_value
        (Holds-exposures e.secondary_exposures (Holds-metadata e.metadata (Holds-base e)))

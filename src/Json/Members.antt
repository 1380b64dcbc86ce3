-- ===== src/Json/Members.antt =====
-- Objects that are built by optional assignments, as in src/statsig_compat/json_serialization/, member
-- by member, and their optional members as they are read.
use cpp_client_sdk.Dict.{Dict}
use cpp_client_sdk.Json.ErrorArgs.{json_of_strings}
use cpp_client_sdk.Json.InitializeResponse.{optional_string}
use cpp_client_sdk.Json.User.{opt_to_json, opt_map_to_json}
use cpp_client_sdk.JsonLib.{JsonLib}
use cpp_client_sdk.JsonLib.Laws.{JsonLaws, HasMembers, MemberLaws}
use cpp_client_sdk.Prelude.{
  String, ◌≡◌, refl, ap, ◌∙◌, inl, inr, Option, none, some, arith, if◌then◌else◌, has_value,
}
use cpp_client_sdk.Text.{str_eq}

module _ ⦃J : JsonLib⦄ ⦃laws : JsonLaws J⦄ ⦃members : MemberLaws J⦄ where
  open J use {Value, null, is_object, contains, get_at, index, of_string, of_map, set_key}
  open laws use {get_string-of_string}
  open members use {
    is_object-set_key, get_at-set_key, get_at_null, contains_get_at, index_get_at, get_map-of_map,
  }

  -- What a value under construction holds at each key.
  pub record Holds (j : Value) (f : String → Option Value) : Type 0 where
    pub shape : HasMembers J j
    pub at_key : (i : String) → get_at j i ≡ f i

  abbrev pub slot : Option Value → Option Value → Option Value
  slot none rest = rest
  slot (some v) rest = some v

  pub slot-none : (o : Option Value) → slot o none ≡ o
  slot-none none = refl
  slot-none (some v) = refl

  -- The members after an optional one is set.
  abbrev pub with_member : String → Option Value → (String → Option Value) → String → Option Value
  with_member k o f i = if str_eq k i then slot o (f i) else f i

  abbrev pub text_of : Option String → Option Value
  text_of none = none
  text_of (some s) = some (of_string s)

  abbrev pub strings_of : Option (Dict String) → Option Value
  strings_of none = none
  strings_of (some m) = some (json_of_strings m)

  pub Holds-null : Holds null (λ i. none)
  Holds-null = record { shape = inl refl; at_key = get_at_null }

  pub Holds-set_key :
      (j v : Value) (k : String) (f : String → Option Value)
      → Holds j f
      → Holds (set_key j k v) (with_member k (some v) f)
  Holds-set_key j v k f h = record {
    shape = inr (is_object-set_key j v k h.shape);
    at_key = λ i.
        get_at-set_key j v k i h.shape ∙ ap (λ o. if str_eq k i then some v else o) (h.at_key i);
  }

  with_member-none :
      (k : String) (f : String → Option Value) (i : String) → f i ≡ with_member k none f i
  with_member-none k f i = ground arith

  pub Holds-skip :
      (j : Value) (k : String) (f : String → Option Value)
      → Holds j f
      → Holds j (with_member k none f)
  Holds-skip j k f h = record { shape = h.shape; at_key = λ i. h.at_key i ∙ with_member-none k f i }

  pub Holds-opt_to_json :
      {j : Value} {f : String → Option Value} (k : String) (o : Option String)
      → Holds j f
      → Holds (opt_to_json j k o) (with_member k (text_of o) f)
  unfolding opt_to_json
  Holds-opt_to_json {j} {f} k none h = Holds-skip j k f h
  Holds-opt_to_json {j} {f} k (some s) h = Holds-set_key j (of_string s) k f h

  pub Holds-opt_map_to_json :
      {j : Value} {f : String → Option Value} (k : String) (o : Option (Dict String))
      → Holds j f
      → Holds (opt_map_to_json j k o) (with_member k (strings_of o) f)
  unfolding opt_map_to_json
  Holds-opt_map_to_json {j} {f} k none h = Holds-skip j k f h
  Holds-opt_map_to_json {j} {f} k (some m) h = Holds-set_key j (json_of_strings m) k f h

  -- Reading an optional member.
  pub optional_string_slot :
      (j : Value) (k : String) (o : Option String)
      → get_at j k ≡ text_of o
      → optional_string j k ≡ some o
  unfolding optional_string
  optional_string_slot j k none h = rw (contains_get_at j k ∙ ap has_value h) refl
  optional_string_slot j k (some s) h =
      rw
        (
          contains_get_at j k ∙ ap has_value h,
          index_get_at j (of_string s) k h,
          get_string-of_string s,
        )
        refl

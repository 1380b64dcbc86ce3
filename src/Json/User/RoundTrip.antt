-- ===== src/Json/User/RoundTrip.antt =====
-- src/statsig_compat/json_serialization/statsig_user_json.hpp: a user that is written and read.
use cpp_client_sdk.Dict.{Dict, IsDict}
use cpp_client_sdk.Json.ErrorArgs.{json_of_strings}
use cpp_client_sdk.Json.InitializeResponse.{optional_string}
use cpp_client_sdk.Json.Members.{
  Holds, slot, slot-none, with_member, text_of, strings_of, Holds-null, Holds-set_key, Holds-skip,
  Holds-opt_to_json, Holds-opt_map_to_json, optional_string_slot,
}
use cpp_client_sdk.Json.Strings.{strings_from_json, strings_slot}
use cpp_client_sdk.Json.User.{
  opt_to_json, env_to_json, user_to_json, env_from_json, optional_env, user_from_json,
  serialize_user, deserialize_user,
}
use cpp_client_sdk.JsonLib.{JsonLib, ◌>>=◌, bind_cases, value_or_initial, get_string_map}
use cpp_client_sdk.JsonLib.Laws.{JsonLaws, IsPrintable, MemberLaws}
use cpp_client_sdk.Prelude.{
  String, ◌≡◌, refl, sym, ap, ◌∙◌, inl, inr, true, Option, none, some, [], ◌∷◌, has_value, value_or,
}
use cpp_client_sdk.Result.{json_failure_statsig_user, StatsigResult, succeed, fail}
use cpp_client_sdk.User.{StatsigEnvironment, StatsigUser, MapOrder, are_users_equal}
use cpp_client_sdk.User.Keys.{SameMap, SameUser, are_users_equal-SameUser}
use mathlib.Core.List.{Permᴰ}

-- A user with an id, whose maps have distinct keys.
pub record IsIdentified (u : StatsigUser) (id : String) : Type 0 where
  pub user_id : u.user_id ≡ some id
  pub custom_ids : IsDict u.custom_ids
  pub custom : SameMap u.custom u.custom
  pub private_attributes : SameMap u.private_attributes u.private_attributes

module _ ⦃J : JsonLib⦄ ⦃laws : JsonLaws J⦄ ⦃members : MemberLaws J⦄ where
  open J use {Value, null, is_object, contains, get_at, index, of_string, of_map, set_key}
  open laws use {get_string-of_string}
  open members use {
    is_object-set_key, get_at-set_key, get_at_null, contains_get_at, index_get_at, get_map-of_map,
  }

  env_from_json-to_json : (e : StatsigEnvironment) → env_from_json (env_to_json e) ≡ some e
  unfolding env_from_json env_to_json
  env_from_json-to_json e =
      let h = Holds-opt_to_json "tier" e.tier Holds-null in
      rw
        (optional_string_slot (opt_to_json null "tier" e.tier) "tier" e.tier
          (h.at_key "tier" ∙ slot-none (text_of e.tier)))
        refl

  abbrev ids_of : Dict String → Option Value
  ids_of [] = none
  ids_of (e ∷ es) = some (json_of_strings (e ∷ es))

  abbrev env_of : Option StatsigEnvironment → Option Value
  env_of none = none
  env_of (some e) = some (env_to_json e)

  ids_slot :
      (j : Value) (m : Dict String)
      → is_object j ≡ true
      → IsDict m
      → get_at j "customIDs" ≡ ids_of m
      → (n : Dict String) × (value_or_initial j "customIDs" get_string_map [] ≡ some n) × Permᴰ m n
  unfolding value_or_initial
  ids_slot j [] o d h = ([], rw (o, contains_get_at j "customIDs" ∙ ap has_value h) refl, Permᴰ.nil)
  ids_slot j (e ∷ es) o d h =
      let (n, read, p) = strings_from_json (e ∷ es) d in
      (n, rw (o, contains_get_at j "customIDs" ∙ ap has_value h, h) read, p)

  id_slot :
      (j : Value) (id : String)
      → is_object j ≡ true
      → get_at j "userID" ≡ some (of_string id)
      → value_or_initial j "userID" J.get_string "" ≡ some id
  unfolding value_or_initial
  id_slot j id o h =
      rw (o, contains_get_at j "userID" ∙ ap has_value h, h) (get_string-of_string id)

  env_slot :
      (j : Value) (o : Option StatsigEnvironment)
      → get_at j "statsigEnvironment" ≡ env_of o
      → optional_env j ≡ some o
  unfolding optional_env
  env_slot j none h = rw (contains_get_at j "statsigEnvironment" ∙ ap has_value h) refl
  env_slot j (some e) h =
      rw (contains_get_at j "statsigEnvironment" ∙ ap has_value h, h, env_from_json-to_json e) refl

  -- The members of a user that is written.
  abbrev members_of : StatsigUser → String → Option Value
  members_of u = with_member "statsigEnvironment" (env_of u.statsig_environment) (
      with_member "privateAttributes" (strings_of u.private_attributes) (
        with_member "custom" (strings_of u.custom) (
          with_member "appVersion" (text_of u.app_version) (
            with_member "locale" (text_of u.locale) (
              with_member "country" (text_of u.country) (
                with_member "userAgent" (text_of u.user_agent) (
                  with_member "ip" (text_of u.ip) (
                    with_member "email" (text_of u.email) (
                      with_member "userID" (text_of u.user_id)
                        (with_member "customIDs" (ids_of u.custom_ids) (λ i. none)))))))))))

  Holds-ids :
      (m : Dict String)
      → Holds
          (elim m [ [] ↦ null | e ∷ es ↦ set_key null "customIDs" (json_of_strings (e ∷ es)) ])
          (with_member "customIDs" (ids_of m) (λ i. none))
  Holds-ids [] = Holds-skip null "customIDs" (λ i. none) Holds-null
  Holds-ids (e ∷ es) =
      Holds-set_key null (json_of_strings (e ∷ es)) "customIDs" (λ i. none) Holds-null

  Holds-env :
      (j : Value) (o : Option StatsigEnvironment) (f : String → Option Value)
      → Holds j f
      → Holds
          (elim o [ none ↦ j | some e ↦ set_key j "statsigEnvironment" (env_to_json e) ])
          (with_member "statsigEnvironment" (env_of o) f)
  Holds-env j none f h = Holds-skip j "statsigEnvironment" f h
  Holds-env j (some e) f h = Holds-set_key j (env_to_json e) "statsigEnvironment" f h

  Holds-user_to_json : (u : StatsigUser) → Holds (user_to_json u) (members_of u)
  unfolding user_to_json
  Holds-user_to_json u =
      let texts = Holds-opt_to_json "appVersion" u.app_version (
        Holds-opt_to_json "locale" u.locale (
          Holds-opt_to_json "country" u.country (
            Holds-opt_to_json "userAgent" u.user_agent (
              Holds-opt_to_json "ip" u.ip (
                Holds-opt_to_json "email" u.email
                  (Holds-opt_to_json "userID" u.user_id (Holds-ids u.custom_ids))))))) in
      let strings =
        Holds-opt_map_to_json "privateAttributes" u.private_attributes
          (Holds-opt_map_to_json "custom" u.custom texts) in
      Holds-env _ u.statsig_environment _ strings

  pub is_object-user_to_json :
      (u : StatsigUser) (id : String) → u.user_id ≡ some id → is_object (user_to_json u) ≡ true
  is_object-user_to_json u id e =
      let h = Holds-user_to_json u in
      elim h.shape [
        | inr o ↦ o
        | inl n ↦
            let found = h.at_key "userID" ∙ slot-none (text_of u.user_id) ∙ ap text_of e in
            absurd cc (sym (get_at_null "userID") ∙ ap (λ j. get_at j "userID") (sym n) ∙ found)
      ]

  at_user :
      (u : StatsigUser) (k : String) (o : Option Value)
      → members_of u k ≡ slot o none
      → get_at (user_to_json u) k ≡ o
  at_user u k o e = (Holds-user_to_json u).at_key k ∙ e ∙ slot-none o

  pub user_from_json-to_json :
      (u : StatsigUser) (id : String)
      → IsIdentified u id
      → (v : StatsigUser) × (user_from_json (user_to_json u) ≡ some v) × SameUser u v
  unfolding user_from_json
  user_from_json-to_json u id w =
      let j = user_to_json u in
      let object = is_object-user_to_json u id w.user_id in
      let (ids, read_ids, same_ids) =
        ids_slot j u.custom_ids object w.custom_ids
          (at_user u "customIDs" (ids_of u.custom_ids) refl) in
      let (custom, read_custom, same_custom) =
        strings_slot j "custom" u.custom w.custom (at_user u "custom" (strings_of u.custom) refl) in
      let (attributes, read_attributes, same_attributes) =
        strings_slot j "privateAttributes" u.private_attributes w.private_attributes
          (at_user u "privateAttributes" (strings_of u.private_attributes) refl) in
      (
        record u {
          user_id = some id;
          custom_ids = ids;
          custom = custom;
          private_attributes = attributes;
        },
        rw
            (
              id_slot j id object
                  (at_user u "userID" (text_of u.user_id) refl ∙ ap text_of w.user_id),
              read_ids,
              text j u.email (at_user u "email" (text_of u.email) refl),
              text j u.ip (at_user u "ip" (text_of u.ip) refl),
              text j u.user_agent (at_user u "userAgent" (text_of u.user_agent) refl),
              text j u.country (at_user u "country" (text_of u.country) refl),
              text j u.locale (at_user u "locale" (text_of u.locale) refl),
              text j u.app_version (at_user u "appVersion" (text_of u.app_version) refl),
              read_custom,
              read_attributes,
              env_slot j u.statsig_environment
                  (at_user u "statsigEnvironment" (env_of u.statsig_environment) refl),
            )
            refl,
        record {
          user_id = ap (λ o. value_or o "") w.user_id;
          custom_ids = (w.custom_ids, same_ids);
          email = refl;
          ip = refl;
          user_agent = refl;
          country = refl;
          locale = refl;
          app_version = refl;
          custom = same_custom;
          private_attributes = same_attributes;
          statsig_environment = refl;
        },
      )
    where
      text :
          {k : String} (j : Value) (o : Option String)
          → get_at j k ≡ text_of o
          → optional_string j k ≡ some o
      text {k} j o h = optional_string_slot j k o h

  -- A user with an id, whose maps have distinct keys, is read back from the text that it is written as,
  -- up to the iteration orders of its maps, if the JSON library can print it: every field reads alike,
  -- and the SDK takes both for the same user.
  pub deserialize-serialize_user :
      ⦃o : MapOrder⦄ (u : StatsigUser) (id : String)
      → IsIdentified u id
      → IsPrintable J (user_to_json u)
      → (text : String) × (v : StatsigUser) × (serialize_user u ≡ some (succeed text))
        × (deserialize_user text ≡ succeed v)
        × SameUser u v
        × (are_users_equal u v ≡ true)
  unfolding serialize_user deserialize_user
  deserialize-serialize_user u id w printable =
      let (v, read, same) = user_from_json-to_json u id w in
      let (text, printed, parsed) = bind_cases (J.dump (user_to_json u)) J.parse _ printable in
      (
        text,
        v,
        ap (λ o. o >>= λ t. some (succeed t)) printed,
        ap (λ o. answer (o >>= user_from_json)) parsed ∙ ap answer read,
        same,
        are_users_equal-SameUser u v same,
      )
    where
      answer : Option StatsigUser → StatsigResult StatsigUser
      answer none = fail json_failure_statsig_user
      answer (some user) = succeed user

-- ===== src/Json/User.antt =====
-- src/statsig_compat/json_serialization/statsig_user_json.hpp.
pub mod RoundTrip
use cpp_client_sdk.Dict.{Dict}
use cpp_client_sdk.Json.ErrorArgs.{json_of_strings}
use cpp_client_sdk.Json.InitializeResponse.{optional_string}
use cpp_client_sdk.JsonLib.{JsonLib, ◌>>=◌, value_or_initial, get_string_map}
use cpp_client_sdk.Prelude.{String, Option, none, some, [], ◌∷◌, if◌then◌else◌}
use cpp_client_sdk.Result.{json_failure_statsig_user, StatsigResult, succeed, fail}
use cpp_client_sdk.User.{StatsigEnvironment, StatsigUser}

module _ ⦃J : JsonLib⦄ where
  open J use {
    Value, null, of_string, of_map, set_key, contains, get_at, index, get_string, parse, dump,
  }

  -- OPT_TO_JSON.
  unfoldable pub opt_to_json : Value → String → Option String → Value
  opt_to_json j key none = j
  opt_to_json j key (some s) = set_key j key (of_string s)

  unfoldable pub opt_map_to_json : Value → String → Option (Dict String) → Value
  opt_map_to_json j key none = j
  opt_map_to_json j key (some m) = set_key j key (json_of_strings m)

  unfoldable pub env_to_json : StatsigEnvironment → Value
  unfolding opt_to_json
  env_to_json e = opt_to_json null "tier" e.tier

  unfoldable pub user_to_json : StatsigUser → Value
  unfolding opt_to_json opt_map_to_json env_to_json
  user_to_json u =
      let ids : Value = elim u.custom_ids [
        | [] ↦ null
        | e ∷ es ↦ set_key null "customIDs" (json_of_strings (e ∷ es))
      ] in
      let j1 = opt_to_json ids "userID" u.user_id in
      let j2 = opt_to_json j1 "email" u.email in
      let j3 = opt_to_json j2 "ip" u.ip in
      let j4 = opt_to_json j3 "userAgent" u.user_agent in
      let j5 = opt_to_json j4 "country" u.country in
      let j6 = opt_to_json j5 "locale" u.locale in
      let j7 = opt_to_json j6 "appVersion" u.app_version in
      let j8 = opt_map_to_json j7 "custom" u.custom in
      let j9 = opt_map_to_json j8 "privateAttributes" u.private_attributes in
      elim u.statsig_environment [
        | none ↦ j9
        | some e ↦ set_key j9 "statsigEnvironment" (env_to_json e)
      ]

  -- OPT_STR_FROM_JSON and OPT_STR_MAP_FROM_JSON: a key that is there must hold a string, or a map of
  -- strings.
  unfoldable pub opt_map_from_json : Value → String → Option (Option (Dict String))
  opt_map_from_json j key =
      if contains j key
      then (do v ← index j key; m ← get_string_map v; some (some m))
      else some none

  unfoldable pub env_from_json : Value → Option StatsigEnvironment
  unfolding optional_string
  env_from_json j = do tier ← optional_string j "tier"; some (record { tier = tier })

  pub optional_env : Value → Option (Option StatsigEnvironment)
  unfolding env_from_json
  optional_env j =
      if contains j "statsigEnvironment"
      then (do e_json ← get_at j "statsigEnvironment"; e ← env_from_json e_json; some (some e))
      else some none

  unfoldable pub user_from_json : Value → Option StatsigUser
  unfolding optional_string opt_map_from_json optional_env get_string_map value_or_initial
  user_from_json j = do
    user_id ← value_or_initial j "userID" get_string ""
    custom_ids ← value_or_initial j "customIDs" get_string_map []
    email ← optional_string j "email"
    ip ← optional_string j "ip"
    user_agent ← optional_string j "userAgent"
    country ← optional_string j "country"
    locale ← optional_string j "locale"
    app_version ← optional_string j "appVersion"
    custom ← opt_map_from_json j "custom"
    private_attributes ← opt_map_from_json j "privateAttributes"
    environment ← optional_env j
    some (record {
      user_id = some user_id;
      custom_ids = custom_ids;
      email = email;
      ip = ip;
      user_agent = user_agent;
      country = country;
      locale = locale;
      app_version = app_version;
      custom = custom;
      private_attributes = private_attributes;
      statsig_environment = environment;
    })

  unfoldable pub serialize_user : StatsigUser → Option (StatsigResult String)
  unfolding user_to_json
  serialize_user user = dump (user_to_json user) >>= λ text. some (succeed text)

  unfoldable pub deserialize_user : String → StatsigResult StatsigUser
  unfolding user_from_json
  deserialize_user input = elim (parse input >>= user_from_json) [
    | none ↦ fail json_failure_statsig_user
    | some user ↦ succeed user
  ]

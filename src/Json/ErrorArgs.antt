-- ===== src/Json/ErrorArgs.antt =====
-- src/statsig_compat/json_serialization/error_boundary_request_args_json.hpp and
-- src/statsig/internal/error_boundary_request_args.h.
use cpp_client_sdk.Dict.{Dict}
use cpp_client_sdk.JsonLib.{JsonLib, ◌>>=◌}
use cpp_client_sdk.Prelude.{String, Option, none, some, List, [], ◌∷◌, map}
use cpp_client_sdk.Result.{StatsigResult, succeed}

pub record ErrorBoundaryRequestArgs : Type 0 where
  pub tag : String
  pub exception : String
  pub info : List String
  pub extra : Option (Dict String)

module _ ⦃J : JsonLib⦄ where
  open J use {Value, of_string, of_array, of_map, set_key, dump}

  -- The conversion of an unordered_map of strings.
  abbrev pub json_of_strings : Dict String → Value
  json_of_strings m = of_map (map (λ e. (e.0, of_string e.1)) m)

  -- The serializers: `none` is the exception of dump().
  unfoldable pub serialize_error_args : ErrorBoundaryRequestArgs → Option (StatsigResult String)
  serialize_error_args args =
      let j = of_map (
        ("tag", of_string args.tag)
        ∷ ("exception", of_string args.exception)
        ∷ ("info", of_array (map of_string args.info))
        ∷ []) in
      dump (elim args.extra [ none ↦ j | some extra ↦ set_key j "extra" (json_of_strings extra) ])
      >>= λ text. some (succeed text)

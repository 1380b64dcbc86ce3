-- ===== src/User.antt =====
-- src/statsig/statsig_user.h, statsig_environment.h, statsig_options.h and
-- src/statsig/internal/statsig_user_internal.hpp. FromCompat and ToCompat are the identity.
pub mod Keys
use cpp_client_sdk.Dict.{Dict, assign}
use cpp_client_sdk.Dict.Sorted.{sorted_map, sort}
use cpp_client_sdk.Hashing.{djb2}
use cpp_client_sdk.Prelude.{String, Bool, Option, none, some, [], ◌∷◌, value_or, ℤ}
use cpp_client_sdk.Text.{concat, str_eq}

pub record StatsigEnvironment : Type 0 where
  pub tier : Option String

pub record StatsigUser : Type 0 where
  pub user_id : Option String
  pub custom_ids : Dict String
  pub email : Option String
  pub ip : Option String
  pub user_agent : Option String
  pub country : Option String
  pub locale : Option String
  pub app_version : Option String
  pub custom : Option (Dict String)
  pub private_attributes : Option (Dict String)
  pub statsig_environment : Option StatsigEnvironment

-- StatsigUser().
abbrev pub empty_user : StatsigUser
empty_user = record {
  user_id = none;
  custom_ids = [];
  email = none;
  ip = none;
  user_agent = none;
  country = none;
  locale = none;
  app_version = none;
  custom = none;
  private_attributes = none;
  statsig_environment = none;
}

pub data LogLevel : Type 0 where
  level_none level_error level_warn level_debug : LogLevel

-- StatsigOptions, less the pointer to a data adapter of the host program.
pub record StatsigOptions : Type 0 where
  pub api : Option String
  pub output_logger_level : Option LogLevel
  pub logging_interval_ms : Option ℤ
  pub logging_max_buffer_size : Option ℤ
  pub environment : Option StatsigEnvironment
  pub cache_directory : Option String

abbrev pub default_options : StatsigOptions
default_options = record {
  api = none;
  output_logger_level = none;
  logging_interval_ms = none;
  logging_max_buffer_size = none;
  environment = none;
  cache_directory = none;
}

-- The iteration order of a std::unordered_map that a function builds and walks.
pub record MapOrder : Type 0 where
  pub order : Dict String → Dict String

unfoldable pub unwrap_string : Option String → String
unwrap_string input = value_or input ""

unfoldable pub normalize_user : StatsigUser → StatsigOptions → StatsigUser
normalize_user user options = record {
  user_id = user.user_id;
  custom_ids = user.custom_ids;
  email = user.email;
  ip = user.ip;
  user_agent = user.user_agent;
  country = user.country;
  locale = user.locale;
  app_version = user.app_version;
  custom = user.custom;
  private_attributes = user.private_attributes;
  statsig_environment = options.environment;
}

-- `oss << pair.first << ":" << pair.second << end` for each pair.
unfoldable pub write_pairs : String → Dict String → String
write_pairs end [] = ""
write_pairs end ((k, v) ∷ m) = concat k (concat ":" (concat v (concat end (write_pairs end m))))

unfoldable pub create_sorted_map_string : Option (Dict String) → String
create_sorted_map_string none = ""
create_sorted_map_string (some unordered) = write_pairs "|" (sorted_map [] unordered)

tier_text : Option StatsigEnvironment → String
tier_text none = ""
tier_text (some e) = value_or e.tier ""

-- The eleven entries that GetFullUserHash puts into its map.
unfoldable pub hash_pairs : StatsigUser → Dict String
unfolding unwrap_string create_sorted_map_string
hash_pairs user =
    let pairs : Dict String =
      ("u", unwrap_string user.user_id)
      ∷ ("ci", create_sorted_map_string (some user.custom_ids))
      ∷ ("e", unwrap_string user.email)
      ∷ ("ip", unwrap_string user.ip)
      ∷ ("ua", unwrap_string user.user_agent)
      ∷ ("ct", unwrap_string user.country)
      ∷ ("lc", unwrap_string user.locale)
      ∷ ("av", unwrap_string user.app_version)
      ∷ ("cst", create_sorted_map_string user.custom)
      ∷ ("pa", create_sorted_map_string user.private_attributes)
      ∷ ("tr", "")
      ∷ [] in
    elim user.statsig_environment [
      | none ↦ pairs
      | some env ↦ assign "tr" (value_or env.tier "") pairs
    ]

unfoldable pub get_full_user_hash : ⦃o : MapOrder⦄ → StatsigUser → String
get_full_user_hash ⦃o⦄ user = djb2 (write_pairs "-" (o.order (hash_pairs user)))

unfoldable pub are_users_equal : ⦃o : MapOrder⦄ → StatsigUser → StatsigUser → Bool
are_users_equal left right = str_eq (get_full_user_hash left) (get_full_user_hash right)

-- acc + "," + p.first + "-" + p.second, over the pairs.
accumulate_pairs : String → Dict String → String
accumulate_pairs acc [] = acc
accumulate_pairs acc ((k, v) ∷ m) =
    accumulate_pairs (concat (concat (concat (concat acc ",") k) "-") v) m

custom_ids_text : Dict String → String
unfolding accumulate_pairs
custom_ids_text [] = ""
custom_ids_text ((k, v) ∷ m) = accumulate_pairs (concat (concat k "-") v) m

-- The text of a cache key before it is hashed.
pub cache_key_text : String → StatsigUser → String
unfolding custom_ids_text
cache_key_text sdk_key user =
    concat
      (concat
        (concat (concat (concat "uid:" (value_or user.user_id "")) "|")
          (concat "cids:" (custom_ids_text (sort user.custom_ids))))
        "|")
      (concat "k:" sdk_key)

pub make_cache_key : String → StatsigUser → String
make_cache_key sdk_key user = djb2 (cache_key_text sdk_key user)

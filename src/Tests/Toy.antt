-- ===== src/Tests/Toy.antt =====
-- A small JSON library: values with objects and arrays as chains of their members, and a parser that
-- knows the texts of the tests.
use cpp_client_sdk.Client.{StatsigContext}
use cpp_client_sdk.Details.{network, DataAdapterResult}
use cpp_client_sdk.Diagnostics.{new_diagnostics}
use cpp_client_sdk.Dict.{Dict, find, assign}
use cpp_client_sdk.ErrorBoundary.{new_boundary}
use cpp_client_sdk.EventLogger.{new_logger}
use cpp_client_sdk.JsonLib.{JsonLib, ◌>>=◌}
use cpp_client_sdk.Prelude.{
  String, ◌≡◌, refl, Bool, true, false, Option, none, some, List, [], ◌∷◌, if◌then◌else◌, has_value,
  value_or, ℤ, pos,
}
use cpp_client_sdk.Store.{new_store}
use cpp_client_sdk.Text.{str_eq}
use cpp_client_sdk.User.{StatsigUser, empty_user, default_options, MapOrder}

pub data Toy : Type 0 where
  toy_null toy_object toy_array : Toy
  toy_text : String → Toy
  toy_int : ℤ → Toy
  toy_bool : Bool → Toy
  -- The first member of an object or array, and the rest of it.
  toy_member : String → Toy → Toy → Toy
  toy_item : Toy → Toy → Toy

abbrev pub toy_members : Toy → Option (Dict Toy)
toy_members toy_object = some []
toy_members (toy_member k v rest) = toy_members rest >>= λ m. some ((k, v) ∷ m)
toy_members _ = none

abbrev pub toy_items : Toy → Option (List Toy)
toy_items toy_array = some []
toy_items (toy_item v rest) = toy_items rest >>= λ m. some (v ∷ m)
toy_items _ = none

abbrev pub toy_of_map : Dict Toy → Toy
toy_of_map [] = toy_object
toy_of_map ((k, v) ∷ m) = toy_member k v (toy_of_map m)

pub toy_members-toy_of_map : (m : Dict Toy) → toy_members (toy_of_map m) ≡ some m
toy_members-toy_of_map [] = refl
toy_members-toy_of_map ((k, v) ∷ m) = rw (toy_members-toy_of_map m) refl

abbrev pub toy_of_array : List Toy → Toy
toy_of_array [] = toy_array
toy_of_array (v ∷ vs) = toy_item v (toy_of_array vs)

abbrev pub toy_find : Toy → String → Option Toy
toy_find j k = toy_members j >>= find k

-- Assignment to a key of an object; null becomes an object first.
abbrev pub toy_set : Toy → String → Toy → Toy
toy_set toy_null k v = toy_member k v toy_object
toy_set j k v = elim (toy_members j) [ none ↦ j | some m ↦ toy_of_map (assign k v m) ]

abbrev pub toy_string : Toy → Option String
toy_string (toy_text s) = some s
toy_string _ = none

abbrev pub toy_integer : Toy → Option ℤ
toy_integer (toy_int n) = some n
toy_integer _ = none

abbrev pub toy_boolean : Toy → Option Bool
toy_boolean (toy_bool b) = some b
toy_boolean _ = none

abbrev pub toy_is_null : Toy → Bool
toy_is_null toy_null = true
toy_is_null _ = false

-- A response with one gate, whose name is kept as the hash of "a_gate".
abbrev pub sample_response : Toy
sample_response = toy_of_map (
    (
      "feature_gates",
      toy_of_map (
          (
            "a_gate",
            toy_of_map (
                ("name", toy_text "a_gate")
                ∷ ("rule_id", toy_text "a_rule")
                ∷ ("value", toy_bool true)
                ∷ ("secondary_exposures", toy_array)
                ∷ []),
          )
          ∷ []),
    )
    ∷ ("dynamic_configs", toy_object)
    ∷ ("layer_configs", toy_object)
    ∷ ("time", toy_int (pos 7))
    ∷ ("has_updates", toy_bool true)
    ∷ [])

abbrev pub sample_text : String
sample_text = "sample_response"

abbrev pub toy_parse : String → Option Toy
toy_parse s = if str_eq s sample_text then some sample_response else none

instance abbrev pub toy_json : JsonLib
toy_json = record {
  Value = Toy;
  Ordered = Toy;
  Double = ℤ;
  null = toy_null;
  of_string = toy_text;
  of_int = toy_int;
  of_bool = toy_bool;
  of_double = toy_int;
  of_array = toy_of_array;
  of_map = toy_of_map;
  set_key = toy_set;
  is_object = λ j. has_value (toy_members j);
  is_array = λ j. has_value (toy_items j);
  is_string = λ j. has_value (toy_string j);
  is_number = λ j. has_value (toy_integer j);
  contains = λ j k. has_value (toy_find j k);
  get_at = toy_find;
  index = toy_find;
  get_string = toy_string;
  get_int = toy_integer;
  get_bool = toy_boolean;
  get_double = toy_integer;
  get_array = toy_items;
  get_map = toy_members;
  parse = toy_parse;
  dump = λ j. some (value_or (toy_string j) "json");
  ordered_null = toy_null;
  ordered_empty = toy_object;
  ordered_is_null = toy_is_null;
  ordered_is_object = λ j. has_value (toy_members j);
  ordered_set = toy_set;
  ordered_index = λ j k. elim (toy_find j k) [ none ↦ toy_null | some v ↦ v ];
  to_ordered = λ j. j;
  of_ordered = λ j. j;
}

-- An unordered_map that iterates in order of insertion.
instance abbrev pub insertion_order : MapOrder
insertion_order = record { order = λ m. m }

abbrev pub sample_user : StatsigUser
sample_user = record empty_user { user_id = some "a_user" }

abbrev pub sample_result : DataAdapterResult
sample_result = record {
  source = network;
  values_str = sample_text;
  received_at = pos 9;
  full_user_hash = "";
}

abbrev pub sample_context : StatsigContext
sample_context = record {
  sdk_key = "client-key";
  user = sample_user;
  options = default_options;
  err_boundary = new_boundary "client-key";
  store = new_store;
  logger = new_logger (pos 50) new_diagnostics;
  data_adapter = record {
    sdk_key = "client-key";
    in_memory_cache = [];
    directory = record { is_created = true; files = [] };
  };
  reports = [];
}

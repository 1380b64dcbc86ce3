-- ===== src/JsonLib/Laws.antt =====
-- What the JSON library documents of objects, strings and numbers, as far as the round trips rely on
-- it: a key that an object was made with holds its value, and a string, and an integer of 64 bits,
-- read back as they are.
use cpp_client_sdk.Dict.{Dict, find, IsDict}
use cpp_client_sdk.JsonLib.{JsonLib, ◌>>=◌}
use cpp_client_sdk.Prelude.{
  ◌^◌, ◌≤◌, ◌<◌, String, ◌≡◌, ◌≢◌, ◌⊎◌, true, false, none, some, List, if◌then◌else◌, has_value, ℤ,
  pos_part, neg_part,
}
use cpp_client_sdk.Text.{concat, str_eq}
use mathlib.Core.List.{Permᴰ}

abbrev pub IsInt64 : ℤ → Type 0
IsInt64 n = (pos_part n < 2 ^ 63) × (neg_part n ≤ 2 ^ 63)

pub record JsonLaws (J : JsonLib) : Type 0 where
  pub get_at-of_map :
      (k : String) (m : Dict J.Value) → IsDict m → J.get_at (J.of_map m) k ≡ find k m
  pub get_string-of_string : (s : String) → J.get_string (J.of_string s) ≡ some s
  pub get_int-of_int : (n : ℤ) → IsInt64 n → J.get_int (J.of_int n) ≡ some n

-- The value can be printed, and its text is read back as the value, as the library promises of a value
-- whose strings are UTF-8 and whose doubles are finite.
abbrev pub IsPrintable : (J : JsonLib) → J.Value → Type 0
IsPrintable J v = (J.dump v >>= J.parse) ≡ some v

-- What the library documents of members: `j[key] = v` on an object, or on null, which becomes one,
-- sets the key and no other; null has no member; contains and operator[] agree with at where it finds
-- a member; and an object that is made from a map gives its entries back, in some order.
abbrev pub HasMembers : (J : JsonLib) → J.Value → Type 0
HasMembers J j = (j ≡ J.null) ⊎ (J.is_object j ≡ true)

pub record MemberLaws (J : JsonLib) : Type 0 where
  pub is_object-set_key :
      (j v : J.Value) (k : String) → HasMembers J j → J.is_object (J.set_key j k v) ≡ true
  pub get_at-set_key :
      (j v : J.Value) (k i : String)
      → HasMembers J j
      → J.get_at (J.set_key j k v) i ≡ (if str_eq k i then some v else J.get_at j i)
  pub get_at_null : (i : String) → J.get_at J.null i ≡ none
  pub contains_get_at : (j : J.Value) (k : String) → J.contains j k ≡ has_value (J.get_at j k)
  pub index_get_at : (j v : J.Value) (k : String) → J.get_at j k ≡ some v → J.index j k ≡ some v
  pub get_map-of_map :
      (m : Dict J.Value)
      → IsDict m
      → (n : Dict J.Value) × (J.get_map (J.of_map m) ≡ some n) × Permᴰ m n
  pub is_object-of_map : (m : Dict J.Value) → J.is_object (J.of_map m) ≡ true

-- What the library documents of the kinds of values.
pub record KindLaws (J : JsonLib) : Type 0 where
  pub is_object_null : J.is_object J.null ≡ false
  pub is_array_null : J.is_array J.null ≡ false
  pub is_string_null : J.is_string J.null ≡ false
  pub is_number_null : J.is_number J.null ≡ false
  pub is_string-of_string : (s : String) → J.is_string (J.of_string s) ≡ true
  pub is_string-of_double : (d : J.Double) → J.is_string (J.of_double d) ≡ false
  pub is_number-of_double : (d : J.Double) → J.is_number (J.of_double d) ≡ true
  pub get_double-of_double : (d : J.Double) → J.get_double (J.of_double d) ≡ some d
  pub get_array-of_array : (vs : List J.Value) → J.get_array (J.of_array vs) ≡ some vs

-- What the grammar of JSON says of the text of an object: a part of it from its start, without its end,
-- is not the text of a value.
pub record PrefixLaw (J : JsonLib) : Type 0 where
  pub parse_prefix :
      (j : J.Value) (s t : String)
      → J.is_object j ≡ true
      → J.dump j ≡ some (concat s t)
      → t ≢ ""
      → J.parse s ≡ none

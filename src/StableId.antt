-- ===== src/StableId.antt =====
-- src/statsig/internal/stable_id.hpp and uuid.hpp: the id of a device, kept in the cache directory,
-- and the text of a new one. `dis i` is what the random source gives for the place `i` of the text.
pub mod Format
use cpp_client_sdk.Files.{CacheDirectory, read_from_cache}
use cpp_client_sdk.Prelude.{
  ℕ, zero, suc, ◌+◌, ◌%◌, String, Bool, true, false, ◌||◌, Option, none, some, ◌==◌, if◌then◌else◌,
}
use cpp_client_sdk.Text.{concat, to_string}
use Prim.Native.Char.{Char}

abbrev pub hex_digits : String
hex_digits = "0123456789abcdef"

abbrev pub char_at : String → ℕ → Char
char_at String.[] n = "0"
char_at (String.◌∷◌ c s) zero = c
char_at (String.◌∷◌ c s) (suc n) = char_at s n

-- `ss << n` for an int below 16, in front of `rest`, by whether the stream has been set to hex.
pub put_int : Bool → ℕ → String → String
put_int false n rest = concat (to_string n) rest
put_int true n rest = String.◌∷◌ (char_at hex_digits n) rest

-- The rounds of v4 from the place `i` on.
module _ (dis : ℕ → ℕ) where
  pub v4_from : ℕ → ℕ → Bool → String
  unfolding put_int
  v4_from zero i is_hex = ""
  v4_from (suc rounds) i is_hex =
      let same = v4_from rounds (i + 1) is_hex in
      let hex = v4_from rounds (i + 1) true in
      if (i == 8) || (i == 13) || (i == 18) || (i == 23)
      then String.◌∷◌ "-" same
      else if i == 14
      then String.◌∷◌ "4" same
      else if i == 19
      then put_int is_hex (dis i % 4 + 8) same
      else put_int true (dis i) hex

  unfoldable pub v4 : String
  unfolding v4_from
  v4 = v4_from 36 0 false

-- constants::kStableIdKey.
abbrev pub stable_id_key : String
stable_id_key = "stable_id"

-- `stable_id_`.
pub record StableId : Type 0 where
  pub stable_id : Option String

abbrev pub new_stable_id : StableId
new_stable_id = record { stable_id = none }

-- What a call of Get leaves and gives; `write` is the file that it has written in the background.
pub record Got : Type 0 where
  pub self : StableId
  pub directory : CacheDirectory
  pub id : String
  pub write : Option (String × String)

-- Get after the read of the file.
unfoldable pub answer_stable_id : String → CacheDirectory → Option String → Got
answer_stable_id fresh d (some id) = record {
  self = record { stable_id = some id };
  directory = d;
  id = id;
  write = none;
}
answer_stable_id fresh d none = record {
  self = record { stable_id = some fresh };
  directory = d;
  id = fresh;
  write = some (stable_id_key, fresh);
}

-- Get, by what the object remembers.
unfoldable pub get_remembered : String → CacheDirectory → Option String → Got
unfolding read_from_cache answer_stable_id
get_remembered fresh d (some id) = record {
  self = record { stable_id = some id };
  directory = d;
  id = id;
  write = none;
}
get_remembered fresh d none =
    let (d', read) = read_from_cache d stable_id_key in answer_stable_id fresh d' read

unfoldable pub get_stable_id : String → CacheDirectory → StableId → Got
unfolding get_remembered
get_stable_id fresh d s = get_remembered fresh d s.stable_id

-- ===== src/JsonLib.antt =====
-- nlohmann::json and nlohmann::ordered_json, which the repository fetches at build time: a parameter
-- of the model. `none` is an exception. `index` is operator[] on a constant value, whose behaviour at
-- an absent key the library leaves open, so nothing is assumed of it there.
pub mod Laws
use cpp_client_sdk.Dict.{Dict, assign}
use cpp_client_sdk.Prelude.{
  String, ◌≡◌, refl, Bool, not, Option, none, some, List, [], ◌∷◌, if◌then◌else◌, ℤ,
}

pub record JsonLib : Type 1 where
  pub Value : Type 0
  pub Ordered : Type 0
  pub Double : Type 0
  -- Construction; `set_key j k v` is `j[k] = v`.
  pub null : Value
  pub of_string : String → Value
  pub of_int : ℤ → Value
  pub of_bool : Bool → Value
  pub of_double : Double → Value
  pub of_array : List Value → Value
  pub of_map : Dict Value → Value
  pub set_key : Value → String → Value → Value
  -- Observation.
  pub is_object : Value → Bool
  pub is_array : Value → Bool
  pub is_string : Value → Bool
  pub is_number : Value → Bool
  pub contains : Value → String → Bool
  pub get_at : Value → String → Option Value
  pub index : Value → String → Option Value
  pub get_string : Value → Option String
  pub get_int : Value → Option ℤ
  pub get_bool : Value → Option Bool
  pub get_double : Value → Option Double
  pub get_array : Value → Option (List Value)
  pub get_map : Value → Option (Dict Value)
  -- Text.
  pub parse : String → Option Value
  -- dump() throws on a text that is not UTF-8.
  pub dump : Value → Option String
  -- ordered_json: what it holds is a value with its keys in order of insertion.
  pub ordered_null : Ordered
  pub ordered_empty : Ordered
  pub ordered_is_null : Ordered → Bool
  pub ordered_is_object : Ordered → Bool
  pub ordered_set : Ordered → String → Value → Ordered
  pub ordered_index : Ordered → String → Value
  pub to_ordered : Value → Ordered
  pub of_ordered : Ordered → Value

-- Code that may throw: `none` is an exception.
infixl 5 ◌>>=◌
abbrev pub ◌>>=◌ {ℓ κ} : {A : Type ℓ} {B : Type κ} → Option A → (A → Option B) → Option B
none >>= f = none
some a >>= f = f a

pub bind_cases {ℓ κ} :
    {A : Type ℓ} {B : Type κ} (o : Option A) (f : A → Option B) (b : B)
    → (o >>= f) ≡ some b
    → (a : A) × (o ≡ some a) × (f a ≡ some b)
bind_cases none f b h = absurd cc
bind_cases (some a) f b h = (a, refl, h)

-- A loop that converts each element, and throws at the first that does not convert.
unfoldable pub traverse {ℓ κ} :
    {A : Type ℓ} {B : Type κ} → (A → Option B) → List A → Option (List B)
traverse f [] = some []
traverse f (x ∷ xs) = f x >>= λ y. traverse f xs >>= λ ys. some (y ∷ ys)

unfoldable pub traverse_entries {ℓ κ} :
    {A : Type ℓ} {B : Type κ} → (A → Option B) → Dict A → Option (Dict B)
traverse_entries f [] = some []
traverse_entries f ((k, v) ∷ m) = f v >>= λ w. traverse_entries f m >>= λ n. some ((k, w) ∷ n)

-- `result[entry.first] = f(entry.second)` for each entry.
unfoldable pub assign_entries {ℓ κ} :
    {A : Type ℓ} {B : Type κ} → (A → Option B) → Dict A → Dict B → Option (Dict B)
assign_entries f [] result = some result
assign_entries f ((k, v) ∷ m) result = f v >>= λ w. assign_entries f m (assign k w result)

-- The JSON library's conversions that the source names by their C++ types.
module _ ⦃J : JsonLib⦄ where
  open J use {Value, is_object, contains, get_at, get_string, get_array, get_map}

  -- `j.value(key, initial)` with the conversion of the type of `initial`: it throws unless `j` is an
  -- object.
  unfoldable pub value_or_initial {ℓ} :
      {A : Type ℓ} → Value → String → (Value → Option A) → A → Option A
  value_or_initial j key get initial =
      if not (is_object j)
      then none
      else if contains j key
      then (get_at j key >>= get)
      else some initial

  -- get<std::vector<std::string>>.
  unfoldable pub get_strings : Value → Option (List String)
  get_strings j = get_array j >>= traverse get_string

  -- get<std::unordered_map<std::string, std::string>>.
  unfoldable pub get_string_map : Value → Option (Dict String)
  get_string_map j = get_map j >>= traverse_entries get_string

  -- get<std::vector<std::unordered_map<std::string, std::string>>>.
  unfoldable pub get_string_maps : Value → Option (List (Dict String))
  get_string_maps j = get_array j >>= traverse get_string_map

-- ===== src/Dict.antt =====
-- std::unordered_map<std::string, V> as an association list in its iteration order, and the helpers
-- of src/statsig/internal/unordered_map_util.hpp. A new entry goes to the end; where the order shows
-- in a result, the theorems range over it.
pub mod Sorted
use cpp_client_sdk.Prelude.{
  ◌+◌, ◌-◌, String, ◌≡◌, refl, ◌≢◌, Bool, true, ◌&&◌, not, Option, none, some, List, [], ◌∷◌, arith,
  if◌then◌else◌, has_value, value_or, length,
}
use cpp_client_sdk.Text.{str_eq, eq_iff}

abbrev pub Dict {ℓ} : Type ℓ → Type ℓ
Dict V = List (String × V)

module _ {ℓ} {V : Type ℓ} where
  -- `m.find(k)`.
  unfoldable pub find : String → Dict V → Option V
  find k [] = none
  find k ((j, v) ∷ m) = if str_eq j k then some v else find k m

  -- `m[k] = v`.
  unfoldable pub assign : String → V → Dict V → Dict V
  assign k v [] = (k, v) ∷ []
  assign k v ((j, w) ∷ m) = if str_eq j k then (j, v) ∷ m else (j, w) ∷ assign k v m

  -- `m.emplace(k, v)`: an entry that is there stays.
  unfoldable pub emplace : String → V → Dict V → Dict V
  emplace k v [] = (k, v) ∷ []
  emplace k v ((j, w) ∷ m) = if str_eq j k then (j, w) ∷ m else (j, w) ∷ emplace k v m

  -- `m.erase(k)`.
  unfoldable pub erase : String → Dict V → Dict V
  erase k [] = []
  erase k ((j, w) ∷ m) = if str_eq j k then m else (j, w) ∷ erase k m

  unfoldable pub map_contains : Dict V → String → Bool
  unfolding find
  map_contains m k = has_value (find k m)

  unfoldable pub map_get_or_null : Dict V → String → Option V
  unfolding map_contains
  map_get_or_null m k = if map_contains m k then find k m else none

  pub map_get_or_null-find : (m : Dict V) (k : String) → map_get_or_null m k ≡ find k m
  unfolding map_get_or_null map_contains
  map_get_or_null-find m k = ground arith

  -- The overload on an optional map.
  unfoldable pub opt_map_get_or_null : Option (Dict V) → String → Option V
  unfolding map_get_or_null
  opt_map_get_or_null none k = none
  opt_map_get_or_null (some m) k = map_get_or_null m k

  -- No key occurs twice.
  abbrev pub Fresh : String → Dict V → Type 0
  Fresh k [] = Unit
  Fresh k ((j, v) ∷ m) = (j ≢ k) × Fresh k m

  abbrev pub IsDict : Dict V → Type 0
  IsDict [] = Unit
  IsDict ((k, v) ∷ m) = Fresh k m × IsDict m

  pub find-assign :
      (k j : String) (v : V) (m : Dict V)
      → find j (assign k v m) ≡ (if str_eq k j then some v else find j m)
  unfolding find assign
  find-assign k j v [] = refl
  find-assign k j v ((i, w) ∷ m) =
      ground (arith, eq_iff k j, eq_iff i k, eq_iff i j, find-assign k j v m)

  pub find-emplace :
      (k j : String) (v : V) (m : Dict V)
      → find j (emplace k v m) ≡ (if str_eq k j then some (value_or (find j m) v) else find j m)
  unfolding find emplace
  find-emplace k j v [] = refl
  find-emplace k j v ((i, w) ∷ m) =
      ground (arith, eq_iff k j, eq_iff i k, eq_iff i j, find-emplace k j v m)

  pub find-Fresh : (k : String) (m : Dict V) → Fresh k m → find k m ≡ none
  unfolding find
  find-Fresh k [] f = refl
  find-Fresh k ((i, w) ∷ m) f = ground (arith, eq_iff i k, find-Fresh k m f.1)

  pub find-erase :
      (k j : String) (m : Dict V)
      → IsDict m
      → find j (erase k m) ≡ (if str_eq k j then none else find j m)
  unfolding find erase
  find-erase k j [] d = ground arith
  find-erase k j ((i, w) ∷ m) d =
      ground (arith, eq_iff k j, eq_iff i k, eq_iff i j, find-erase k j m d.1, find-Fresh i m d.0)

  pub length-emplace :
      (k : String) (v : V) (m : Dict V)
      → length (emplace k v m) ≡ (if has_value (find k m) then length m else length m + 1)
  unfolding find emplace
  length-emplace k v [] = omega arith
  length-emplace k v ((i, w) ∷ m) = ground (arith, length-emplace k v m)

  pub length-erase :
      (k : String) (m : Dict V)
      → length (erase k m) ≡ (if has_value (find k m) then length m - 1 else length m)
  unfolding find erase
  length-erase k [] = omega arith
  length-erase k ((i, w) ∷ []) = ground arith
  length-erase k ((i, w) ∷ (j, x) ∷ m) = ground (arith, length-erase k ((j, x) ∷ m))

  Fresh-assign : (i k : String) (v : V) (m : Dict V) → k ≢ i → Fresh i m → Fresh i (assign k v m)
  unfolding assign
  Fresh-assign i k v [] h f = (h, tt)
  Fresh-assign i k v ((j, w) ∷ m) h f = ground (arith, Fresh-assign i k v m h f.1)

  pub assign-IsDict : (k : String) (v : V) (m : Dict V) → IsDict m → IsDict (assign k v m)
  unfolding assign
  assign-IsDict k v [] d = (tt, tt)
  assign-IsDict k v ((j, w) ∷ m) d =
      ground (arith, eq_iff j k, assign-IsDict k v m d.1, Fresh-assign j k v m)

  Fresh-emplace : (i k : String) (v : V) (m : Dict V) → k ≢ i → Fresh i m → Fresh i (emplace k v m)
  unfolding emplace
  Fresh-emplace i k v [] h f = (h, tt)
  Fresh-emplace i k v ((j, w) ∷ m) h f = ground (arith, Fresh-emplace i k v m h f.1)

  pub emplace-IsDict : (k : String) (v : V) (m : Dict V) → IsDict m → IsDict (emplace k v m)
  unfolding emplace
  emplace-IsDict k v [] d = (tt, tt)
  emplace-IsDict k v ((j, w) ∷ m) d =
      ground (arith, eq_iff j k, emplace-IsDict k v m d.1, Fresh-emplace j k v m)

  Fresh-erase : (i k : String) (m : Dict V) → Fresh i m → Fresh i (erase k m)
  unfolding erase
  Fresh-erase i k [] f = tt
  Fresh-erase i k ((j, w) ∷ m) f = ground (arith, Fresh-erase i k m f.1)

  pub erase-IsDict : (k : String) (m : Dict V) → IsDict m → IsDict (erase k m)
  unfolding erase
  erase-IsDict k [] d = tt
  erase-IsDict k ((j, w) ∷ m) d = ground (arith, erase-IsDict k m d.1, Fresh-erase j k m d.0)

  is_fresh : String → Dict V → Bool
  is_fresh k [] = true
  is_fresh k ((j, v) ∷ m) = not (str_eq j k) && is_fresh k m

  unfoldable pub is_dict : Dict V → Bool
  unfolding is_fresh
  is_dict [] = true
  is_dict ((k, v) ∷ m) = is_fresh k m && is_dict m

  is_fresh-Fresh : (k : String) (m : Dict V) → is_fresh k m ≡ true → Fresh k m
  unfolding is_fresh
  is_fresh-Fresh k [] h = tt
  is_fresh-Fresh k ((j, v) ∷ m) h = ground (arith, eq_iff j k, is_fresh-Fresh k m)

  pub is_dict-IsDict : (m : Dict V) → is_dict m ≡ true → IsDict m
  unfolding is_dict
  is_dict-IsDict [] h = tt
  is_dict-IsDict ((k, v) ∷ m) h = ground (arith, is_fresh-Fresh k m, is_dict-IsDict m)

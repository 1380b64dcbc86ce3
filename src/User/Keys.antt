-- ===== src/User/Keys.antt =====
-- What the cache key and the user hash of src/statsig/internal/statsig_user_internal.hpp depend on.
use cpp_client_sdk.Dict.{Dict, IsDict}
use cpp_client_sdk.Dict.Sorted.{sort, sorted_map-permᴰ, sort-permᴰ}
use cpp_client_sdk.Hashing.{djb2}
use cpp_client_sdk.Prelude.{
  String, ◌≡◌, refl, ap, true, Option, none, some, [], ◌∷◌, arith, value_or,
}
use cpp_client_sdk.Text.{concat, eq_iff}
use cpp_client_sdk.Text.Order.{str_lt}
use cpp_client_sdk.User.{
  StatsigUser, MapOrder, write_pairs, create_sorted_map_string, hash_pairs, get_full_user_hash,
  are_users_equal, cache_key_text, make_cache_key, accumulate_pairs, custom_ids_text,
}
use mathlib.Core.List.{Permᴰ}
use text.Mathlib.TextPositions.{eq_refl}
use text.Mathlib.TextLemmas.{append_assoc as concat_assoc}

-- For custom ids of distinct keys the cache key depends neither on their iteration order nor on any
-- field of the user but the user id and them.
make_cache_key-perm :
    (sdk_key : String) (u v : StatsigUser)
    → value_or u.user_id "" ≡ value_or v.user_id ""
    → IsDict u.custom_ids
    → Permᴰ u.custom_ids v.custom_ids
    → make_cache_key sdk_key u ≡ make_cache_key sdk_key v
unfolding make_cache_key cache_key_text
make_cache_key-perm sdk_key u v e d p = rw (e, sort-permᴰ p d)

-- One custom id whose value holds the separators `,` and `-` gets the key of two custom ids: the
-- text of a cache key does not escape them, so two different users can share a cache entry.
pub make_cache_key-separators :
    (sdk_key k j v w : String) (u : StatsigUser)
    → str_lt k j ≡ true
    → make_cache_key sdk_key (record u { custom_ids = (k, v) ∷ (j, w) ∷ [] })
      ≡ make_cache_key sdk_key
          (record u { custom_ids = (k, concat v (concat "," (concat j (concat "-" w)))) ∷ [] })
unfolding make_cache_key cache_key_text custom_ids_text accumulate_pairs sort
make_cache_key-separators sdk_key k j v w u h = rw h (simp concat_assoc)

-- The fields of two users read alike: a missing text as the empty one, a map up to its order.
abbrev pub SameMap : Option (Dict String) → Option (Dict String) → Type 0
SameMap none none = Unit
SameMap (some m) (some n) = IsDict m × Permᴰ m n
SameMap none (some n) = ⊥
SameMap (some m) none = ⊥

pub record SameUser (u v : StatsigUser) : Type 0 where
  pub user_id : value_or u.user_id "" ≡ value_or v.user_id ""
  pub custom_ids : SameMap (some u.custom_ids) (some v.custom_ids)
  pub email : value_or u.email "" ≡ value_or v.email ""
  pub ip : value_or u.ip "" ≡ value_or v.ip ""
  pub user_agent : value_or u.user_agent "" ≡ value_or v.user_agent ""
  pub country : value_or u.country "" ≡ value_or v.country ""
  pub locale : value_or u.locale "" ≡ value_or v.locale ""
  pub app_version : value_or u.app_version "" ≡ value_or v.app_version ""
  pub custom : SameMap u.custom v.custom
  pub private_attributes : SameMap u.private_attributes v.private_attributes
  pub statsig_environment : u.statsig_environment ≡ v.statsig_environment

create_sorted_map_string-SameMap :
    (m n : Option (Dict String))
    → SameMap m n
    → create_sorted_map_string m ≡ create_sorted_map_string n
unfolding create_sorted_map_string
create_sorted_map_string-SameMap none none s = refl
create_sorted_map_string-SameMap (some m) (some n) s =
    ap (write_pairs "|") (sorted_map-permᴰ s.1 s.0 [])
create_sorted_map_string-SameMap none (some n) s = elim s [ ]
create_sorted_map_string-SameMap (some m) none s = elim s [ ]

hash_pairs-SameUser : (u v : StatsigUser) → SameUser u v → hash_pairs u ≡ hash_pairs v
unfolding hash_pairs
hash_pairs-SameUser u v s = ground (
  arith,
  create_sorted_map_string-SameMap (some u.custom_ids) (some v.custom_ids) s.custom_ids,
  create_sorted_map_string-SameMap u.custom v.custom s.custom,
  create_sorted_map_string-SameMap u.private_attributes v.private_attributes s.private_attributes,
)

-- Users whose fields read alike compare equal, whatever the iteration orders: the order of the user's
-- maps and the order of the map of eleven entries do not show.
pub are_users_equal-SameUser :
    ⦃o : MapOrder⦄ (u v : StatsigUser) → SameUser u v → are_users_equal u v ≡ true
unfolding are_users_equal get_full_user_hash
are_users_equal-SameUser ⦃o⦄ u v s =
    rw (hash_pairs-SameUser u v s) (eq_refl (djb2 (write_pairs "-" (o.order (hash_pairs v)))))

pub are_users_equal_self : ⦃o : MapOrder⦄ (u : StatsigUser) → are_users_equal u u ≡ true
unfolding are_users_equal
are_users_equal_self u = (eq_iff (get_full_user_hash u) (get_full_user_hash u)).1 refl

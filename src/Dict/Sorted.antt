-- ===== src/Dict/Sorted.antt =====
-- std::map and std::sort by key: both put each entry in its place among the keys. Their results do
-- not depend on the order in which an unordered_map is iterated.
use cpp_client_sdk.Dict.{Dict, Fresh, IsDict}
use cpp_client_sdk.Prelude.{String, ◌≡◌, refl, sym, ap, ◌∙◌, ◌≢◌, [], ◌∷◌, arith, if◌then◌else◌}
use cpp_client_sdk.Text.Order.{str_lt, str_lt_total, str_lt_trans, str_lt_asym}
use mathlib.Core.List.{Permᴰ}
use mathlib.Core.Path.{subst₂}

module _ {ℓ} {V : Type ℓ} where
  -- `sorted.emplace(k, v)` on a std::map: an entry that is there stays.
  unfoldable pub sorted_emplace : String → V → Dict V → Dict V
  sorted_emplace k v [] = (k, v) ∷ []
  sorted_emplace k v ((j, w) ∷ m) =
      if str_lt k j
      then (k, v) ∷ (j, w) ∷ m
      else if str_lt j k
      then (j, w) ∷ sorted_emplace k v m
      else (j, w) ∷ m

  -- A loop that emplaces every entry of an unordered_map.
  unfoldable pub sorted_map : Dict V → Dict V → Dict V
  unfolding sorted_emplace
  sorted_map sorted [] = sorted
  sorted_map sorted ((k, v) ∷ m) = sorted_map (sorted_emplace k v sorted) m

  insert_by_key : String → V → Dict V → Dict V
  insert_by_key k v [] = (k, v) ∷ []
  insert_by_key k v ((j, w) ∷ m) =
      if str_lt k j then (k, v) ∷ (j, w) ∷ m else (j, w) ∷ insert_by_key k v m

  -- std::sort of the pairs by `left.first < right.first`, for pairs of different keys.
  unfoldable pub sort : Dict V → Dict V
  unfolding insert_by_key
  sort [] = []
  sort ((k, v) ∷ m) = insert_by_key k v (sort m)

  -- The keys of a permuted map are as distinct, and the same keys are absent.
  Fresh-perm : (k : String) {m n : Dict V} → Permᴰ m n → Fresh k m → Fresh k n
  Fresh-perm k Permᴰ.nil f = f
  Fresh-perm k (Permᴰ.cons e p) f = rw (← e) (f.0, Fresh-perm k p f.1)
  Fresh-perm k (Permᴰ.swap e d) f = rw (← e, ← d) (f.1.0, (f.0, f.1.1))
  Fresh-perm k (Permᴰ.trans p q) f = Fresh-perm k q (Fresh-perm k p f)

  IsDict-perm : {m n : Dict V} → Permᴰ m n → IsDict m → IsDict n
  IsDict-perm Permᴰ.nil d = d
  IsDict-perm (Permᴰ.cons {a} e p) d = rw (← e) (Fresh-perm a.0 p d.0, IsDict-perm p d.1)
  IsDict-perm (Permᴰ.swap {l = l} e e') d =
      subst₂ (λ x y. IsDict {V = V} (x ∷ y ∷ l)) e' e ((λ q. d.0.0 (sym q), d.1.0), (d.0.1, d.1.1))
  IsDict-perm (Permᴰ.trans p q) d = IsDict-perm q (IsDict-perm p d)

  -- Neither order of two insertions shows.
  sorted_emplace_comm :
      (k j : String) (v w : V) (m : Dict V)
      → k ≢ j
      → sorted_emplace k v (sorted_emplace j w m) ≡ sorted_emplace j w (sorted_emplace k v m)
  unfolding sorted_emplace
  sorted_emplace_comm k j v w [] h =
      ground (arith, str_lt_total k j, str_lt_asym k j, str_lt_asym j k)
  sorted_emplace_comm k j v w ((i, x) ∷ m) h = ground (
    arith,
    str_lt_total k j,
    str_lt_asym k j,
    str_lt_asym j k,
    str_lt_trans k j i,
    str_lt_trans j k i,
    str_lt_trans i k j,
    str_lt_trans i j k,
    str_lt_total k i,
    str_lt_total j i,
    str_lt_asym k i,
    str_lt_asym j i,
    sorted_emplace_comm k j v w m h,
  )

  insert_by_key_comm :
      (k j : String) (v w : V) (m : Dict V)
      → k ≢ j
      → insert_by_key k v (insert_by_key j w m) ≡ insert_by_key j w (insert_by_key k v m)
  unfolding insert_by_key
  insert_by_key_comm k j v w [] h =
      ground (arith, str_lt_total k j, str_lt_asym k j, str_lt_asym j k)
  insert_by_key_comm k j v w ((i, x) ∷ m) h = ground (
    arith,
    str_lt_total k j,
    str_lt_asym k j,
    str_lt_asym j k,
    str_lt_trans k j i,
    str_lt_trans j k i,
    insert_by_key_comm k j v w m h,
  )

  -- The result of the loop does not depend on the order of the entries.
  pub sorted_map-permᴰ :
      {m n : Dict V} → Permᴰ m n → IsDict m → (s : Dict V) → sorted_map s m ≡ sorted_map s n
  unfolding sorted_map
  sorted_map-permᴰ Permᴰ.nil d s = refl
  sorted_map-permᴰ (Permᴰ.cons {a} e p) d s =
      rw (← e) (sorted_map-permᴰ p d.1 (sorted_emplace a.0 a.1 s))
  sorted_map-permᴰ (Permᴰ.swap {a} {b} {l = l} e e') d s =
      rw (← e, ← e')
        (ap (λ t. sorted_map t l) (sorted_emplace_comm b.0 a.0 b.1 a.1 s (λ q. d.0.0 q)))
  sorted_map-permᴰ (Permᴰ.trans p q) d s =
      sorted_map-permᴰ p d s ∙ sorted_map-permᴰ q (IsDict-perm p d) s

  pub sort-permᴰ : {m n : Dict V} → Permᴰ m n → IsDict m → sort m ≡ sort n
  unfolding sort
  sort-permᴰ Permᴰ.nil d = refl
  sort-permᴰ (Permᴰ.cons {a} e p) d = rw (← e) (ap (insert_by_key a.0 a.1) (sort-permᴰ p d.1))
  sort-permᴰ (Permᴰ.swap {a} {b} {l = l} e e') d =
      rw (← e, ← e') (insert_by_key_comm a.0 b.0 a.1 b.1 (sort l) (λ q. d.0.0 (sym q)))
  sort-permᴰ (Permᴰ.trans p q) d = sort-permᴰ p d ∙ sort-permᴰ q (IsDict-perm p d)

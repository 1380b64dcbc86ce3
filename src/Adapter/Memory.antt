-- ===== src/Adapter/Memory.antt =====
-- The in-memory cache: how large it gets, which entry it gives up, and which it keeps.
use cpp_client_sdk.Adapter.{
  received, oldest_key, add_to_in_memory_cache, max_long_long, evict_oldest,
}
use cpp_client_sdk.Details.{DataAdapterResult}
use cpp_client_sdk.Dict.{
  Dict, find, emplace, erase, Fresh, IsDict, find-emplace, find-Fresh, find-erase, length-emplace,
  length-erase, emplace-IsDict, erase-IsDict,
}
use cpp_client_sdk.Prelude.{
  suc, ◌≤◌, ◌<◌, String, ◌≡◌, refl, sym, ap, ◌⊎◌, inl, inr, Bool, true, false, none, some, [], ◌∷◌,
  arith, ltb, if◌then◌else◌, Bool-cases, value_or, length, All, ℤ, ◌≤ℤ◌, ltb_ℤ,
}
use cpp_client_sdk.Text.{str_eq, eq_iff}
use mathlib.Core.Path.{subst}

-- The key of an entry of the dictionary, none of which was received before it.
record Oldest (m : Dict DataAdapterResult) (o : String) : Type 0 where
  entry : DataAdapterResult
  found : find o m ≡ some entry
  least : All (λ e. entry.received_at ≤ℤ received e) m

abbrev Before : ℤ → String × DataAdapterResult → Type 0
Before t e = t ≤ℤ received e

All-mono : (t u : ℤ) (m : Dict DataAdapterResult) → u ≤ℤ t → All (Before t) m → All (Before u) m
All-mono t u [] h a = tt
All-mono t u (e ∷ m) h a = (omega (arith, h, a.0), All-mono t u m h a.1)

-- The scan either keeps its start, and nothing is earlier, or finds the least entry after it.
find-skip :
    (o j : String) (x e : DataAdapterResult) (m : Dict DataAdapterResult)
    → Fresh j m
    → find o m ≡ some e
    → find o ((j, x) ∷ m) ≡ some e
unfolding find
find-skip o j x e m f h = ground (arith, eq_iff j o, find-Fresh j m f, h)

pub find-here :
    (j : String) (x : DataAdapterResult) (m : Dict DataAdapterResult) → find j ((j, x) ∷ m) ≡ some x
unfolding find
find-here j x m = ground (arith, eq_iff j j)

oldest_key_cases :
    (k : String) (t : ℤ) (m : Dict DataAdapterResult)
    → IsDict m
    → ((oldest_key k t m ≡ k) × All (Before t) m)
      ⊎ ((o : Oldest m (oldest_key k t m)) × (o.entry.received_at ≤ℤ t))
unfolding oldest_key
oldest_key_cases k t [] d = inl (refl, tt)
oldest_key_cases k t ((j, x) ∷ m) d = go (ltb_ℤ x.received_at t) refl (
    oldest_key_cases (if ltb_ℤ x.received_at t then j else k)
      (if ltb_ℤ x.received_at t then x.received_at else t) m d.1)
  where
    go :
        (early : Bool)
        → ltb_ℤ x.received_at t ≡ early
        → ((oldest_key (if early then j else k) (if early then x.received_at else t) m
              ≡ (if early then j else k))
            × All (Before (if early then x.received_at else t)) m)
          ⊎ ((o : Oldest m
                (oldest_key (if early then j else k) (if early then x.received_at else t) m))
              × (o.entry.received_at ≤ℤ (if early then x.received_at else t)))
        → ((oldest_key (if early then j else k) (if early then x.received_at else t) m ≡ k)
            × All (Before t) ((j, x) ∷ m))
          ⊎ ((o : Oldest
                ((j, x) ∷ m)
                (oldest_key (if early then j else k) (if early then x.received_at else t) m))
              × (o.entry.received_at ≤ℤ t))
    go true h (inl (same, later)) = inr (
      subst (Oldest ((j, x) ∷ m)) (sym same)
          (record { entry = x; found = find-here j x m; least = (omega arith, later) }),
      ground (arith, h),
    )
    go true h (inr (o, earlier)) = inr (
      record {
        entry = o.entry;
        found = find-skip (oldest_key j x.received_at m) j x o.entry m d.0 o.found;
        least = (earlier, o.least);
      },
      ground (arith, h, earlier),
    )
    go false h (inl (same, later)) = inl (same, (ground (arith, h), later))
    go false h (inr (o, earlier)) = inr (
      record {
        entry = o.entry;
        found = find-skip (oldest_key k t m) j x o.entry m d.0 o.found;
        least = (ground (arith, h, earlier), o.least);
      },
      earlier,
    )

-- What a cache that is full enough gives up is its oldest entry.
evict_oldest-Oldest :
    (e : String × DataAdapterResult) (m : Dict DataAdapterResult)
    → IsDict (e ∷ m)
    → All (λ x. received x ≤ℤ max_long_long) (e ∷ m)
    → (o : String) × Oldest (e ∷ m) o × (evict_oldest (e ∷ m) ≡ erase o (e ∷ m))
unfolding evict_oldest
evict_oldest-Oldest (k, x) m d h = elim (oldest_key_cases k max_long_long ((k, x) ∷ m) d) [
  | inl (same, later) ↦ (
    k,
    record {
      entry = x;
      found = find-here k x m;
      least = All-mono max_long_long x.received_at ((k, x) ∷ m) h.0 later;
    },
    ap (λ o. erase o ((k, x) ∷ m)) same,
  )
  | inr (o, earlier) ↦ (oldest_key k max_long_long ((k, x) ∷ m), o, refl)
]

add_cases :
    (key : String) (r : DataAdapterResult) (m : Dict DataAdapterResult)
    → add_to_in_memory_cache key r m
      ≡ (if ltb (length m) 10 then emplace key r m else emplace key r (evict_oldest m))
unfolding add_to_in_memory_cache
add_cases key r m = refl

add_full :
    (key : String) (r : DataAdapterResult) (m : Dict DataAdapterResult)
    → 10 ≤ length m
    → add_to_in_memory_cache key r m ≡ emplace key r (evict_oldest m)
add_full key r m h = rw (add_cases key r m) (ground (arith, h))

add_room :
    (key : String) (r : DataAdapterResult) (m : Dict DataAdapterResult)
    → length m < 10
    → add_to_in_memory_cache key r m ≡ emplace key r m
add_room key r m h = rw (add_cases key r m) (ground (arith, h))

-- While the cache holds fewer than ten entries, adding keeps every entry that is there, also the one
-- under the added key: the new result is found only if the key was free.
pub add_to_in_memory_cache-room :
    (key : String) (r : DataAdapterResult) (m : Dict DataAdapterResult) (j : String)
    → length m < 10
    → find j (add_to_in_memory_cache key r m)
      ≡ (if str_eq key j then some (value_or (find j m) r) else find j m)
add_to_in_memory_cache-room key r m j h = rw (add_room key r m h) (find-emplace key j r m)

-- A full cache of distinct keys, whose times are 64-bit, gives up exactly one entry, which no entry
-- is older than, and the new result is found under its key unless another entry held it.
pub add_to_in_memory_cache-full :
    (key : String) (r : DataAdapterResult) (m : Dict DataAdapterResult)
    → IsDict m
    → All (λ x. received x ≤ℤ max_long_long) m
    → 10 ≤ length m
    → (o : String) × (x : DataAdapterResult) × (find o m ≡ some x)
      × All (λ e. x.received_at ≤ℤ received e) m
      × ((j : String)
          → find j (add_to_in_memory_cache key r m) ≡ (
              if str_eq key j
              then some (value_or (if str_eq o j then none else find j m) r)
              else (if str_eq o j then none else find j m)))
add_to_in_memory_cache-full key r [] d t h = absurd (omega arith)
add_to_in_memory_cache-full key r (e ∷ m) d t h =
    let (o, old, gone) = evict_oldest-Oldest e m d t in
    (
      o,
      old.entry,
      old.found,
      old.least,
      λ j.
          rw
            (
              add_full key r (e ∷ m) h,
              gone,
              find-emplace key j r (erase o (e ∷ m)),
              find-erase o j (e ∷ m) d,
            )
            refl,
    )

room-bound :
    (key : String) (r : DataAdapterResult) (m : Dict DataAdapterResult)
    → length m < 10
    → length (emplace key r m) ≤ 10
room-bound key r m h = ground (arith, length-emplace key r m)

-- Adding to a cache of distinct keys leaves distinct keys, and at most ten of them if there were at
-- most ten, provided that the times are 64-bit.
add_to_in_memory_cache-bound :
    (key : String) (r : DataAdapterResult) (m : Dict DataAdapterResult)
    → IsDict m
    → All (λ x. received x ≤ℤ max_long_long) m
    → length m ≤ 10
    → IsDict (add_to_in_memory_cache key r m) × (length (add_to_in_memory_cache key r m) ≤ 10)
add_to_in_memory_cache-bound key r [] d t h =
    rw (add_room key r [] (omega arith))
      (emplace-IsDict key r [] tt, room-bound key r [] (omega arith))
add_to_in_memory_cache-bound key r (e ∷ m) d t h = elim (Bool-cases (ltb (suc (length m)) 10)) [
  | inl room ↦
      rw (add_room key r (e ∷ m) (ground (arith, room)))
        (emplace-IsDict key r (e ∷ m) d, room-bound key r (e ∷ m) (ground (arith, room)))
  | inr full ↦
      let (o, old, gone) = evict_oldest-Oldest e m d t in
      rw (add_full key r (e ∷ m) (ground (arith, full)), gone)
        (
          emplace-IsDict key r (erase o (e ∷ m)) (erase-IsDict o (e ∷ m) d),
          room-bound key r (erase o (e ∷ m)) (ground (arith, length-erase o (e ∷ m), old.found)),
        )
]

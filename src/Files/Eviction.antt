-- ===== src/Files/Eviction.antt =====
-- What a run of the cache eviction leaves.
use cpp_client_sdk.Dict.{Dict, find, IsDict, find-erase, erase-IsDict}
use cpp_client_sdk.Files.{
  max_cached_evaluations_count, CacheDirectory, delete_file, cache_paths, sort_youngest_first,
  get_cache_paths_sorted_youngest_first, run_cache_eviction, insert_younger, back, evict,
}
use cpp_client_sdk.JsonLib.{◌>>=◌}
use cpp_client_sdk.Prelude.{
  ℕ, zero, suc, ◌+◌, ◌≤◌, ◌<◌, String, ◌≡◌, refl, sym, ap, ◌∙◌, inl, inr, Bool, true, false, ◌||◌,
  Option, none, some, List, [], ◌∷◌, map, arith, ltb, leb, if◌then◌else◌, Bool-cases, length,
  pop_back, length-pop_back, ℤ, ◌≤ℤ◌, ltb_ℤ,
}
use cpp_client_sdk.Text.{str_eq}

-- `p` is one of the paths.
pub listed : String → List String → Bool
listed p [] = false
listed p (q ∷ qs) = str_eq q p || listed p qs

-- Everything but the first `n` paths.
abbrev pub drop {ℓ} : {A : Type ℓ} → ℕ → List A → List A
drop zero xs = xs
drop (suc n) [] = []
drop (suc n) (x ∷ xs) = drop n xs

listed-drop-pop_back :
    (p : String) (n : ℕ) (paths : List String)
    → n < length paths
    → listed p (drop n paths) ≡ (str_eq (back paths) p || listed p (drop n (pop_back paths)))
unfolding listed back
listed-drop-pop_back p n [] h = absurd (omega arith)
listed-drop-pop_back p zero (q ∷ []) h = refl
listed-drop-pop_back p (suc n) (q ∷ []) h = absurd (omega arith)
listed-drop-pop_back p zero (q ∷ r ∷ ps) h =
    ground (arith, listed-drop-pop_back p zero (r ∷ ps) (omega arith))
listed-drop-pop_back p (suc n) (q ∷ r ∷ ps) h = listed-drop-pop_back p n (r ∷ ps) (omega arith)

drop_all {ℓ} : {A : Type ℓ} (n : ℕ) (xs : List A) → length xs ≤ n → drop n xs ≡ []
drop_all zero [] h = refl
drop_all zero (x ∷ xs) h = absurd (omega arith)
drop_all (suc n) [] h = refl
drop_all (suc n) (x ∷ xs) h = drop_all n xs (omega arith)

find-evict :
    (fuel : ℕ) (paths : List String) (d : CacheDirectory) (p : String)
    → length paths ≤ fuel + 9
    → IsDict d.files
    → find p (evict fuel paths d).files ≡ (if listed p (drop 9 paths) then none else find p d.files)
unfolding evict
find-evict zero paths d p h i = rw (drop_all 9 paths (omega arith)) (unfold listed in refl)
find-evict (suc fuel) paths d p h i =
    elim (Bool-cases (leb max_cached_evaluations_count (length paths))) [
      | inl full ↦ rw full (
          find-evict fuel (pop_back paths) (delete_file d (back paths)) p
            (omega (arith, length-pop_back paths)) (unfold delete_file in erase-IsDict _ d.files i)
          ∙ unfold delete_file in
            ground (
              arith,
              listed-drop-pop_back p 9 paths (ground arith),
              find-erase (back paths) p d.files i,
            ))
      | inr few ↦ rw few (rw (drop_all 9 paths (ground arith)) (unfold listed in refl))
    ]

-- Times fall along the list.
abbrev pub NoneYounger : ℤ → Dict ℤ → Type 0
NoneYounger t [] = Unit
NoneYounger t ((p, u) ∷ ps) = (u ≤ℤ t) × NoneYounger t ps

abbrev pub IsYoungestFirst : Dict ℤ → Type 0
IsYoungestFirst [] = Unit
IsYoungestFirst ((p, t) ∷ ps) = NoneYounger t ps × IsYoungestFirst ps

NoneYounger-mono : (t u : ℤ) (ps : Dict ℤ) → u ≤ℤ t → NoneYounger u ps → NoneYounger t ps
NoneYounger-mono t u [] h n = tt
NoneYounger-mono t u ((p, x) ∷ ps) h n = (omega (arith, n.0), NoneYounger-mono t u ps h n.1)

NoneYounger-insert :
    (s : ℤ) (p : String) (t : ℤ) (ps : Dict ℤ)
    → t ≤ℤ s
    → NoneYounger s ps
    → NoneYounger s (insert_younger p t ps)
unfolding insert_younger
NoneYounger-insert s p t [] h n = (h, tt)
NoneYounger-insert s p t ((q, u) ∷ ps) h n = elim (Bool-cases (ltb_ℤ t u)) [
  | inl later ↦ rw later (n.0, NoneYounger-insert s p t ps h n.1)
  | inr first ↦ rw first (h, n)
]

insert_younger-IsYoungestFirst :
    (p : String) (t : ℤ) (ps : Dict ℤ)
    → IsYoungestFirst ps
    → IsYoungestFirst (insert_younger p t ps)
unfolding insert_younger
insert_younger-IsYoungestFirst p t [] y = (tt, tt)
insert_younger-IsYoungestFirst p t ((q, u) ∷ ps) y = elim (Bool-cases (ltb_ℤ t u)) [
  | inl later ↦
      rw later
        (NoneYounger-insert u p t ps (ground arith) y.0, insert_younger-IsYoungestFirst p t ps y.1)
  | inr first ↦ rw first ((ground arith, NoneYounger-mono t u ps (ground arith) y.0), y)
]

sort-IsYoungestFirst : (ps : Dict ℤ) → IsYoungestFirst (sort_youngest_first ps)
unfolding sort_youngest_first
sort-IsYoungestFirst [] = tt
sort-IsYoungestFirst ((p, t) ∷ ps) =
    insert_younger-IsYoungestFirst p t (sort_youngest_first ps) (sort-IsYoungestFirst ps)

evict_few :
    (fuel : ℕ) (paths : List String) (d : CacheDirectory)
    → length paths < 10
    → evict fuel paths d ≡ d
unfolding evict
evict_few zero paths d h = refl
evict_few (suc fuel) paths d h = ground arith

-- In a directory that is there, of files with distinct names, an eviction goes by a list of the
-- matching files with falling write times: of these the first nine stay and the others are deleted;
-- every other file stays.
pub run_cache_eviction_exact :
    (d : CacheDirectory) (prefix : String)
    → d.is_created ≡ true
    → IsDict d.files
    → (ps : Dict ℤ) × (d' : CacheDirectory) × (ps
        ≡ sort_youngest_first (cache_paths prefix d.files))
      × IsYoungestFirst ps
      × (run_cache_eviction d prefix ≡ some d')
      × ((p : String)
          → find p d'.files
            ≡ (if listed p (drop 9 (map (λ e. e.0) ps)) then none else find p d.files))
unfolding run_cache_eviction get_cache_paths_sorted_youngest_first
run_cache_eviction_exact d prefix c i = (
  ps,
  evict (length paths) paths d,
  refl,
  sort-IsYoungestFirst (cache_paths prefix d.files),
  ran,
  λ p. find-evict (length paths) paths d p (omega arith) i,
)
  where
    ps : Dict ℤ
    ps = sort_youngest_first (cache_paths prefix d.files)

    paths : List String
    paths = map (λ (e : String × ℤ). e.0) ps

    trim : List String → Option CacheDirectory
    trim qs =
        if ltb (length qs) max_cached_evaluations_count
        then some d
        else some (evict (length qs) qs d)

    ran : run_cache_eviction d prefix ≡ some (evict (length paths) paths d)
    ran =
        ap (λ (b : Bool). (if b then some paths else none) >>= trim) c
        ∙ elim (Bool-cases (ltb (length paths) max_cached_evaluations_count)) [
          | inl few ↦ rw few (ap some (sym (evict_few (length paths) paths d (ground arith))))
          | inr full ↦ rw full refl
        ]

-- In a directory that is there an eviction does not throw.
pub run_cache_eviction_total :
    (d : CacheDirectory) (prefix : String)
    → d.is_created ≡ true
    → (d' : CacheDirectory) × (run_cache_eviction d prefix ≡ some d')
unfolding run_cache_eviction get_cache_paths_sorted_youngest_first
run_cache_eviction_total d prefix c =
    let paths = map (λ (e : String × ℤ). e.0) (sort_youngest_first (cache_paths prefix d.files)) in
    elim (Bool-cases (ltb (length paths) max_cached_evaluations_count)) [
      | inl few ↦ (d, rw c (rw few refl))
      | inr full ↦ (evict (length paths) paths d, rw c (rw full refl))
    ]

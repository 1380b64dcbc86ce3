-- ===== src/Shareable.antt =====
-- src/statsig/internal/shareable.hpp, and the static Get and Shutdown that AsyncHelper, Diagnostics,
-- ErrorBoundary and PlatformEventsHelper build on it: one shared object for each SDK key.
use cpp_client_sdk.Dict.{
  Dict, find, assign, erase, IsDict, find-assign, find-erase, assign-IsDict, erase-IsDict,
}
use cpp_client_sdk.Prelude.{
  String, ◌≡◌, refl, sym, ap, ap₂, ◌∙◌, false, Option, none, some, List, [], ◌∷◌, ◌++◌, arith,
  if◌then◌else◌, value_or,
}
use cpp_client_sdk.Text.{str_eq, eq_iff}

pub data RegistryCall {ℓ} (T : Type ℓ) : Type ℓ where
  gets : String → T → RegistryCall T
  forgets : String → RegistryCall T

module _ {ℓ} {T : Type ℓ} where
  -- A null pointer is `none`.
  unfoldable pub get_shared : String → Dict T → Option T
  unfolding find
  get_shared sdk_key instances = find sdk_key instances

  unfoldable pub add_shared : String → T → Dict T → Dict T
  unfolding assign
  add_shared sdk_key instance_ instances = assign sdk_key instance_ instances

  unfoldable pub remove_shared : String → Dict T → Dict T
  unfolding erase
  remove_shared sdk_key instances = erase sdk_key instances

  -- The static `Get` after its lookup: `seen` is what the lookup gave, and `made` the object that the
  -- call makes where that is nothing. The registry is locked for the lookup and again for the
  -- addition, and other threads may call in between.
  unfoldable pub finish_get : String → T → Option T → Dict T → T × Dict T
  unfolding add_shared
  finish_get sdk_key made seen instances = elim seen [
    | some found ↦ (found, instances)
    | none ↦ (made, add_shared sdk_key made instances)
  ]

  -- The static `Get` where no other thread calls between its lookup and its addition.
  unfoldable pub get_instance : String → T → Dict T → T × Dict T
  unfolding get_shared finish_get
  get_instance sdk_key made instances =
      finish_get sdk_key made (get_shared sdk_key instances) instances

  -- Calls of `Get` for one key that all have looked before any of them goes on, each with the object
  -- that it makes: what they give, and the registry after them.
  pub finish_gets : String → Option T → List T → Dict T → List T × Dict T
  unfolding finish_get
  finish_gets sdk_key seen [] instances = ([], instances)
  finish_gets sdk_key seen (made ∷ more) instances =
      let (got, after) = finish_get sdk_key made seen instances in
      let (others, last) = finish_gets sdk_key seen more after in (got ∷ others, last)

  -- The static `Shutdown` of Diagnostics and ErrorBoundary.
  unfoldable pub shutdown_instance : String → Dict T → Dict T
  unfolding remove_shared
  shutdown_instance sdk_key instances = remove_shared sdk_key instances

  -- The objects that a sequence of calls gets.
  unfoldable pub run_registry : List (RegistryCall T) → Dict T → List T
  unfolding get_instance shutdown_instance
  run_registry [] m = []
  run_registry (gets k made ∷ cs) m =
      let (got, m') = get_instance k made m in got ∷ run_registry cs m'
  run_registry (forgets k ∷ cs) m = run_registry cs (shutdown_instance k m)

  -- The same of an assignment of objects to keys, of which no order or repetition shows.
  abbrev pub put_at : (String → Option T) → String → Option T → String → Option T
  put_at g k v j = if str_eq k j then v else g j

  pub spec_registry : List (RegistryCall T) → (String → Option T) → List T
  spec_registry [] g = []
  spec_registry (gets k made ∷ cs) g =
      value_or (g k) made ∷ spec_registry cs (put_at g k (some (value_or (g k) made)))
  spec_registry (forgets k ∷ cs) g = spec_registry cs (put_at g k none)

  abbrev Holds : Dict T → (String → Option T) → Type ℓ
  Holds m g = IsDict m × ((j : String) → find j m ≡ g j)

  get_instance-value :
      (k : String) (made : T) (m : Dict T) → (get_instance k made m).0 ≡ value_or (find k m) made
  unfolding get_instance finish_get get_shared
  get_instance-value k made m = ground arith

  get_instance-IsDict :
      (k : String) (made : T) (m : Dict T) → IsDict m → IsDict (get_instance k made m).1
  unfolding get_instance finish_get get_shared add_shared
  get_instance-IsDict k made m d = ground (arith, assign-IsDict k made m d)

  get_instance-find :
      (k j : String) (made : T) (m : Dict T)
      → find j (get_instance k made m).1
        ≡ (if str_eq k j then some (value_or (find k m) made) else find j m)
  unfolding get_instance finish_get get_shared add_shared
  get_instance-find k j made m = ground (arith, eq_iff k j, find-assign k j made m)

  get_instance-Holds :
      (k : String) (made : T) (m : Dict T) (g : String → Option T)
      → Holds m g
      → ((get_instance k made m).0 ≡ value_or (g k) made)
        × Holds (get_instance k made m).1 (put_at g k (some (value_or (g k) made)))
  get_instance-Holds k made m g (d, h) = (
    get_instance-value k made m ∙ ap (λ o. value_or o made) (h k),
    (get_instance-IsDict k made m d, λ j. rw (sym (h k), sym (h j)) (get_instance-find k j made m)),
  )

  shutdown_instance-Holds :
      (k : String) (m : Dict T) (g : String → Option T)
      → Holds m g
      → Holds (shutdown_instance k m) (put_at g k none)
  unfolding shutdown_instance remove_shared
  shutdown_instance-Holds k m g (d, h) =
      (erase-IsDict k m d, λ j. ground (arith, find-erase k j m d, h j))

  run_registry_refines_from :
      (cs : List (RegistryCall T)) (m : Dict T) (g : String → Option T)
      → Holds m g
      → run_registry cs m ≡ spec_registry cs g
  unfolding run_registry spec_registry
  run_registry_refines_from [] m g h = refl
  run_registry_refines_from (gets k made ∷ cs) m g h =
      let (same, holds) = get_instance-Holds k made m g h in
      ap₂ ◌∷◌ same (run_registry_refines_from cs _ _ holds)
  run_registry_refines_from (forgets k ∷ cs) m g h =
      run_registry_refines_from cs _ _ (shutdown_instance-Holds k m g h)

  -- Where no call falls between the lookup and the addition of a Get, the registry is an assignment of
  -- objects to keys: whatever calls are made on an empty one, each Get gives the object that the last
  -- Get made for its key since the last Shutdown of that key, and makes one only where there is none.
  run_registry_refines :
      (cs : List (RegistryCall T)) → run_registry cs [] ≡ spec_registry cs (λ k. none)
  unfolding find
  run_registry_refines cs = run_registry_refines_from cs [] (λ k. none) (tt, λ j. refl)

  all_miss :
      (sdk_key : String) (made : List T) (last : T) (instances : Dict T)
      → let (got, after) = finish_gets sdk_key none (made ++ last ∷ []) instances in
        (got ≡ made ++ last ∷ [])
        × ((other : T) → get_instance sdk_key other after ≡ (last, after))
        × ((key : String)
            → str_eq sdk_key key ≡ false
            → get_shared key after ≡ get_shared key instances)
  unfolding finish_gets finish_get get_instance get_shared add_shared
  all_miss sdk_key [] last instances = (
    refl,
    λ other. rw (find-assign sdk_key sdk_key last instances, (eq_iff sdk_key sdk_key).1 refl) refl,
    λ key differs. find-assign sdk_key key last instances ∙ rw differs refl,
  )
  all_miss sdk_key (x ∷ made) last instances =
      let (got, kept, others) = all_miss sdk_key made last (add_shared sdk_key x instances) in
      (
        ap (λ xs. x ∷ xs) got,
        kept,
        λ key differs. others key differs ∙ find-assign sdk_key key x instances ∙ rw differs refl,
      )

  -- Calls of Get for one key that all look before any of them adds, while the registry holds nothing
  -- for the key, are each given an object of their own; the registry keeps the one that was added
  -- last, which any later Get is given, and what it holds for other keys stays.
  pub overlapping_gets :
      (sdk_key : String) (made : List T) (last : T) (instances : Dict T)
      → get_shared sdk_key instances ≡ none
      → let (got, after) =
          finish_gets sdk_key (get_shared sdk_key instances) (made ++ last ∷ []) instances in
        (got ≡ made ++ last ∷ [])
        × ((other : T) → get_instance sdk_key other after ≡ (last, after))
        × ((key : String)
            → str_eq sdk_key key ≡ false
            → get_shared key after ≡ get_shared key instances)
  overlapping_gets sdk_key made last instances none_there =
      rw none_there (all_miss sdk_key made last instances)

-- ===== src/EventLogger/Saves/Overlap.antt =====
-- Saves of failed batches in src/statsig/internal/event_logger.hpp that overlap: each reads the file before
-- any of their writes is made.
use cpp_client_sdk.EventLogger.{
  add_failure, get_failed_event_cache_key, read_failures, save_failed_events,
}
use cpp_client_sdk.EventLogger.Saves.{Failed, due, save_due, after_save, after_save-read}
use cpp_client_sdk.Files.{CacheDirectory, read_from_cache, do_write}
use cpp_client_sdk.Files.Writes.{read_from_cache_again, do_write-read, do_write_created}
use cpp_client_sdk.Json.Requests.{payload_to_json}
use cpp_client_sdk.JsonLib.{JsonLib, ◌>>=◌}
use cpp_client_sdk.Prelude.{
  String, ◌≡◌, refl, sym, ap, ◌∙◌, ◌⊎◌, inl, inr, true, Option, none, some, List, [], ◌∷◌, ◌++◌,
  map, Option-cases, All, All-permᴰ, All-last, ℤ,
}
use mathlib.Core.List.{map-append}
use mathlib.Core.Path.{ap₂, subst}
use mathlib.Core.List.{Permᴰ, Memᴰ}

module _ ⦃J : JsonLib⦄ (sdk_key : String) where
  open J use {dump, of_array}

  -- Saves of batches none of which has been written when the next one reads: the directory, and the
  -- writes that are due.
  pub save_all : CacheDirectory → List Failed → CacheDirectory × List (String × String)
  unfolding save_failed_events
  save_all d [] = (d, [])
  save_all d (p ∷ ps) =
      let (d', write) = save_failed_events d sdk_key p.0 p.1 in
      let (d'', writes) = save_all d' ps in
      (d'', elim write [ none ↦ writes | some w ↦ w ∷ writes ])

  abbrev pub add_due : Option (String × String) → List (String × String) → List (String × String)
  add_due write writes = elim write [ none ↦ writes | some w ↦ w ∷ writes ]

  pub save_all-cons :
      (d : CacheDirectory) (p : Failed) (ps : List Failed)
      → save_all d (p ∷ ps) ≡ (
          let rest = save_all (read_from_cache d (get_failed_event_cache_key sdk_key)).0 ps in
          (rest.0, add_due (due sdk_key d p) rest.1))
  unfolding save_all
  save_all-cons d p ps =
      ap (λ s. ((save_all s.0 ps).0, add_due s.1 (save_all s.0 ps).1)) (save_due sdk_key d p)

  due-same :
      (d d' : CacheDirectory) (p : Failed)
      → (read_from_cache d' (get_failed_event_cache_key sdk_key)).1
        ≡ (read_from_cache d (get_failed_event_cache_key sdk_key)).1
      → due sdk_key d' p ≡ due sdk_key d p
  unfolding due
  due-same d d' p same =
      let key = get_failed_event_cache_key sdk_key in
      ap
        (λ cached.
          dump (
            of_array (
              map payload_to_json
                (add_failure (read_failures cached) (record { attempts = p.1; events = p.0 }))))
          >>= λ text. some (key, text))
        same

  save_all-created :
      (d : CacheDirectory) (ps : List Failed)
      → d.is_created ≡ true
      → (save_all d ps).0.is_created ≡ true
  save_all-created d [] there = unfold save_all in there
  save_all-created d (p ∷ ps) there =
      let key = get_failed_event_cache_key sdk_key in
      ap (λ s. s.0.is_created) (save_all-cons d p ps)
      ∙ save_all-created (read_from_cache d key).0 ps (read_from_cache_again d key).0

  pub write_all : List (ℤ × (String × String)) → CacheDirectory → CacheDirectory
  unfolding do_write
  write_all [] d = d
  write_all ((now, w) ∷ writes) d = write_all writes (do_write now (some w) d)

  write_all-last :
      (writes : List (ℤ × (String × String))) (now : ℤ) (key content : String) (d : CacheDirectory)
      → d.is_created ≡ true
      → (read_from_cache (write_all (writes ++ (now, (key, content)) ∷ []) d) key).1 ≡ some content
  unfolding write_all
  write_all-last [] now key content d there = do_write-read now d key content there
  write_all-last ((at, w) ∷ writes) now key content d there =
      write_all-last writes now key content (do_write at (some w) d) (do_write_created at w d there)

  -- A write that is due stems from one of the batches.
  abbrev StemsFrom : CacheDirectory → List Failed → String × String → Type 0
  StemsFrom d ps w =
      (p : Failed) × Memᴰ p ps
      × (text : String) × (w ≡ (get_failed_event_cache_key sdk_key, text))
      × (due sdk_key d p ≡ some (get_failed_event_cache_key sdk_key, text))

  due_cases :
      (d : CacheDirectory) (p : Failed)
      → (due sdk_key d p ≡ none)
        ⊎ ((text : String) × (due sdk_key d p ≡ some (get_failed_event_cache_key sdk_key, text)))
  unfolding due
  due_cases d p =
      let key = get_failed_event_cache_key sdk_key in
      let failures =
        add_failure (read_failures (read_from_cache d key).1)
          (record { attempts = p.1; events = p.0 }) in
      elim (Option-cases (dump (of_array (map payload_to_json failures)))) [
        | inl e ↦ inl (ap (λ o. o >>= λ text. some (key, text)) e)
        | inr (text, e) ↦ inr (text, ap (λ o. o >>= λ text. some (key, text)) e)
      ]

  -- Where all can be printed, each leaves the write that it would leave by itself.
  pub save_all-due :
      (d d' : CacheDirectory) (f : Failed → String × String) (ps : List Failed)
      → (read_from_cache d' (get_failed_event_cache_key sdk_key)).1
        ≡ (read_from_cache d (get_failed_event_cache_key sdk_key)).1
      → ((p : Failed) → due sdk_key d p ≡ some (f p))
      → (save_all d' ps).1 ≡ map f ps
  save_all-due d d' f [] same h = unfold save_all in refl
  save_all-due d d' f (p ∷ ps) same h =
      let key = get_failed_event_cache_key sdk_key in
      let again = read_from_cache_again d' key in
      ap (λ s. s.1) (save_all-cons d' p ps)
      ∙ ap₂ add_due (due-same d d' p same ∙ h p)
          (save_all-due d (read_from_cache d' key).0 f ps (again.1 ∙ same) h)

  -- A write that is due stems from one of the batches, in any case.
  save_all-StemsFrom :
      (d d' : CacheDirectory) (ps qs : List Failed)
      → (read_from_cache d' (get_failed_event_cache_key sdk_key)).1
        ≡ (read_from_cache d (get_failed_event_cache_key sdk_key)).1
      → ((p : Failed) → Memᴰ p ps → Memᴰ p qs)
      → All (StemsFrom d qs) (save_all d' ps).1
  save_all-StemsFrom d d' [] qs same within = unfold save_all in tt
  save_all-StemsFrom d d' (p ∷ ps) qs same within =
      let key = get_failed_event_cache_key sdk_key in
      let again = read_from_cache_again d' key in
      let d'' = (read_from_cache d' key).0 in
      let rest = save_all-StemsFrom d d'' ps qs (again.1 ∙ same) (λ q m. within q (Memᴰ.tail m)) in
      let left : (o : Option (String × String))
          → due sdk_key d p ≡ o
          → (save_all d' (p ∷ ps)).1 ≡ add_due o (save_all d'' ps).1 =
        λ o e.
          ap (λ s. s.1) (save_all-cons d' p ps)
          ∙ ap (λ w. add_due w (save_all d'' ps).1) (due-same d d' p same ∙ e) in
      elim (due_cases d p) [
        | inl e ↦ subst (All (StemsFrom d qs)) (sym (left none e)) rest
        | inr (text, e) ↦
            subst (All (StemsFrom d qs)) (sym (left (some (key, text)) e))
              ((p, within p (Memᴰ.head refl), text, refl, e), rest)
      ]

  save_all-there :
      (d : CacheDirectory) (ps : List Failed) (p : Failed)
      → Memᴰ p ps
      → (save_all d ps).0.is_created ≡ true
  save_all-there d [] p m = elim m [ ]
  save_all-there d (q ∷ ps) p m =
      let key = get_failed_event_cache_key sdk_key in
      ap (λ s. s.0.is_created) (save_all-cons d q ps)
      ∙ save_all-created (read_from_cache d key).0 ps (read_from_cache_again d key).0

  -- If several batches fail and each of their saves reads the file before any of the writes that they
  -- leave is made, then whatever order these writes are made in, the file holds what it would hold if
  -- only one of the batches had been saved: the others are lost.
  pub saves_overlap :
      (d : CacheDirectory) (ps : List Failed) (writes : List (ℤ × (String × String))) (now : ℤ)
      (w : String × String)
      → Permᴰ (save_all d ps).1 (map (λ x. x.1) (writes ++ (now, w) ∷ []))
      → (p : Failed) × Memᴰ p ps
        × ((read_from_cache
              (write_all (writes ++ (now, w) ∷ []) (save_all d ps).0)
              (get_failed_event_cache_key sdk_key)).1
            ≡ (read_from_cache (after_save sdk_key now d p) (get_failed_event_cache_key sdk_key)).1)
  saves_overlap d ps writes now w order =
      let key = get_failed_event_cache_key sdk_key in
      let stems = All-permᴰ (StemsFrom d ps) order (save_all-StemsFrom d d ps ps refl (λ p m. m)) in
      let (p, m, text, e, printed) =
        All-last (StemsFrom d ps) (map (λ x. x.1) writes) w
          (subst (All (StemsFrom d ps)) (map-append (λ x. x.1) writes ((now, w) ∷ [])) stems) in
      (
        p,
        m,
        ap (λ x. (read_from_cache (write_all (writes ++ (now, x) ∷ []) (save_all d ps).0) key).1) e
            ∙ write_all-last writes now key text (save_all d ps).0 (save_all-there d ps p m)
            ∙ sym (after_save-read sdk_key now d p text printed),
      )

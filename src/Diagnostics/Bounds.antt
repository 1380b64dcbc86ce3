-- ===== src/Diagnostics/Bounds.antt =====
-- How many markers the diagnostics hold, and what becomes of them.
use cpp_client_sdk.Diagnostics.{
  max_diagnostics_markers, Diagnostics, new_diagnostics, set_user, mark, diagnostics_event,
  append_event,
}
use cpp_client_sdk.Event.{StatsigEventInternal}
use cpp_client_sdk.JsonLib.{JsonLib}
use cpp_client_sdk.Prelude.{
  ◌+◌, ◌≤◌, ◌≡◌, refl, sym, ap, ◌∙◌, inl, inr, true, false, List, [], ◌∷◌, ◌++◌, map, append-nil,
  append_assoc, arith, ltb, Bool-cases, length, take, length-append, take_all, take-append_left, ℤ,
}
use cpp_client_sdk.User.{StatsigUser}

module _ ⦃J : JsonLib⦄ where
  open J use {Value, Ordered, of_ordered, of_array}

  pub mark_all : Diagnostics → List Ordered → Diagnostics
  mark_all d [] = d
  mark_all d (m ∷ ms) = mark_all (mark d m) ms

  mark_full :
      (d : Diagnostics) (m : Ordered)
      → ltb max_diagnostics_markers (length d.markers) ≡ true
      → mark d m ≡ d
  unfolding mark
  mark_full d m h = rw h

  mark_room :
      (d : Diagnostics) (m : Ordered)
      → ltb max_diagnostics_markers (length d.markers) ≡ false
      → mark d m ≡ record d { markers = d.markers ++ of_ordered m ∷ [] }
  unfolding mark
  mark_room d m h = rw h

  mark_all-markers :
      (d : Diagnostics) (ms : List Ordered)
      → length d.markers ≤ max_diagnostics_markers + 1
      → (mark_all d ms).markers
        ≡ take (max_diagnostics_markers + 1) (d.markers ++ map of_ordered ms)
  unfolding mark_all
  mark_all-markers d [] h = rw append-nil (sym (take_all (max_diagnostics_markers + 1) d.markers h))
  mark_all-markers d (m ∷ ms) h =
      elim (Bool-cases (ltb max_diagnostics_markers (length d.markers))) [
        | inl full ↦
            rw (mark_full d m full, mark_all)
              (mark_all-markers d ms h
                ∙ take-append_left 31 d.markers (map of_ordered ms) (ground arith)
                ∙ sym (take-append_left 31 d.markers (map of_ordered (m ∷ ms)) (ground arith)))
        | inr room ↦
            rw (mark_room d m room, mark_all)
              (mark_all-markers (record d { markers = d.markers ++ of_ordered m ∷ [] }) ms
                  (ground (arith, length-append d.markers (of_ordered m ∷ [])))
                ∙ ap (take (max_diagnostics_markers + 1))
                    (append_assoc d.markers (of_ordered m ∷ []) (map of_ordered ms)))
      ]

  -- Of the markers of an initialization the diagnostics keep the first 31 and drop the rest, one more
  -- than kMaxDiagnosticsMarkers.
  pub mark_all-new :
      (ms : List Ordered) → (mark_all new_diagnostics ms).markers ≡ take 31 (map of_ordered ms)
  mark_all-new ms = mark_all-markers new_diagnostics ms (omega arith)

  -- Flushing the diagnostics turns the markers kept since the last flush into exactly one event at
  -- the end of the queue and empties them; with no marker the queue and the diagnostics stay.
  append_event-mark_all :
      (now : ℤ) (user : StatsigUser) (ms : List Ordered) (events : List StatsigEventInternal)
      → let d = set_user (mark_all new_diagnostics ms) user in
        append_event now d events ≡ (elim ms [
          | [] ↦ (d, events)
          | x ∷ xs ↦ (record d { markers = [] }, events ++ diagnostics_event now d ∷ [])
        ])
  unfolding append_event set_user
  append_event-mark_all now user [] events = rw (mark_all-new []) refl
  append_event-mark_all now user (x ∷ xs) events = rw (mark_all-new (x ∷ xs)) refl

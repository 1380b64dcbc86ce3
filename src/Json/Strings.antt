-- ===== src/Json/Strings.antt =====
-- Maps of strings of src/statsig_compat/json_serialization/ that are written and read: they keep their
-- entries, in some order.
use cpp_client_sdk.Dict.{Dict, Fresh, IsDict}
use cpp_client_sdk.Json.ErrorArgs.{json_of_strings}
use cpp_client_sdk.Json.Members.{strings_of}
use cpp_client_sdk.Json.User.{opt_map_from_json}
use cpp_client_sdk.JsonLib.{JsonLib, ◌>>=◌, bind_cases, traverse_entries, get_string_map}
use cpp_client_sdk.JsonLib.Laws.{JsonLaws, MemberLaws}
use cpp_client_sdk.Prelude.{
  String, ◌≡◌, refl, sym, ap, ◌∙◌, Option, none, some, [], ◌∷◌, map, has_value,
}
use cpp_client_sdk.User.Keys.{SameMap}
use mathlib.Core.List.{Permᴰ}
use mathlib.Core.List.Permᴰ.{refl as perm_refl}

module _ ⦃J : JsonLib⦄ ⦃laws : JsonLaws J⦄ ⦃members : MemberLaws J⦄ where
  open J use {Value, null, is_object, contains, get_at, index, of_string, of_map, set_key}
  open laws use {get_string-of_string}
  open members use {
    is_object-set_key, get_at-set_key, get_at_null, contains_get_at, index_get_at, get_map-of_map,
  }

  text_entry : String × String → String × Value
  text_entry e = (e.0, of_string e.1)

  texts_read : (m : Dict String) → traverse_entries J.get_string (map text_entry m) ≡ some m
  unfolding traverse_entries text_entry
  texts_read [] = refl
  texts_read ((k, s) ∷ m) = rw (get_string-of_string s, texts_read m) refl

  read_entry : String × Value → Option (String × String)
  read_entry e = J.get_string e.1 >>= λ s. some (e.0, s)

  read_cons :
      (e : String × Value) (a : Dict Value) (m : Dict String)
      → traverse_entries J.get_string (e ∷ a) ≡ some m
      → (s : String × String) × (t : Dict String) × (read_entry e ≡ some s)
        × (traverse_entries J.get_string a ≡ some t)
        × (s ∷ t ≡ m)
  unfolding traverse_entries read_entry
  read_cons e a m h =
      let (s, hs, h1) =
        bind_cases (J.get_string e.1)
          (λ w. traverse_entries J.get_string a >>= λ t. some ((e.0, w) ∷ t)) m h in
      let (t, ht, h2) =
        bind_cases (traverse_entries J.get_string a) (λ t. some ((e.0, s) ∷ t)) m h1 in
      ((e.0, s), t, ap (λ o. o >>= λ w. some (e.0, w)) hs, ht, cc)

  read_join :
      (e : String × Value) (a : Dict Value) (s : String × String) (t : Dict String)
      → read_entry e ≡ some s
      → traverse_entries J.get_string a ≡ some t
      → traverse_entries J.get_string (e ∷ a) ≡ some (s ∷ t)
  unfolding traverse_entries read_entry
  read_join e a s t hs ht =
      let (w, hw, h1) = bind_cases (J.get_string e.1) (λ w. some (e.0, w)) s hs in rw (hw, ht) cc

  -- Strings that read from entries read from them in any order.
  texts_read-perm :
      {a b : Dict Value} (m : Dict String)
      → Permᴰ a b
      → traverse_entries J.get_string a ≡ some m
      → (n : Dict String) × (traverse_entries J.get_string b ≡ some n) × Permᴰ m n
  texts_read-perm m Permᴰ.nil h = (m, h, perm_refl m)
  texts_read-perm m (Permᴰ.cons {a = e} {b = e'} {l₁ = l} {l₂ = l'} same p) h =
      let (s, t, hs, ht, em) = read_cons e l m h in
      let (n, hn, q) = texts_read-perm t p ht in
      (
        s ∷ n,
        read_join e' l' s n (ap read_entry (sym same) ∙ hs) hn,
        rw (sym em) (Permᴰ.cons refl q),
      )
  texts_read-perm m (Permᴰ.swap {a = e} {b = f} {a' = e'} {b' = f'} {l = l} p q) h =
      let (s, t, hs, ht, em) = read_cons e (f ∷ l) m h in
      let (r, n, hr, hn, et) = read_cons f l t ht in
      (
        r ∷ s ∷ n,
        read_join e' (f' ∷ l) r (s ∷ n) (ap read_entry (sym q) ∙ hr)
            (read_join f' l s n (ap read_entry (sym p) ∙ hs) hn),
        rw (sym em, sym et) (Permᴰ.swap refl refl),
      )
  texts_read-perm m (Permᴰ.trans p q) h =
      let (n, hn, d) = texts_read-perm m p h in
      let (k, hk, d') = texts_read-perm n q hn in (k, hk, Permᴰ.trans d d')

  Fresh-texts : (k : String) (m : Dict String) → Fresh k m → Fresh k (map text_entry m)
  unfolding text_entry
  Fresh-texts k [] f = tt
  Fresh-texts k (e ∷ m) f = (f.0, Fresh-texts k m f.1)

  IsDict-texts : (m : Dict String) → IsDict m → IsDict (map text_entry m)
  unfolding text_entry
  IsDict-texts [] d = tt
  IsDict-texts ((k, s) ∷ m) d = (Fresh-texts k m d.0, IsDict-texts m d.1)

  pub strings_from_json :
      (m : Dict String)
      → IsDict m
      → (n : Dict String) × (get_string_map (json_of_strings m) ≡ some n) × Permᴰ m n
  unfolding get_string_map text_entry
  strings_from_json m d =
      let (a, e, p) = get_map-of_map (map text_entry m) (IsDict-texts m d) in
      let (n, read, q) = texts_read-perm m p (texts_read m) in
      (n, ap (λ o. o >>= traverse_entries J.get_string) e ∙ read, q)

  pub strings_slot :
      (j : Value) (k : String) (o : Option (Dict String))
      → SameMap o o
      → get_at j k ≡ strings_of o
      → (r : Option (Dict String)) × (opt_map_from_json j k ≡ some r) × SameMap o r
  unfolding opt_map_from_json
  strings_slot j k none d h = (none, rw (contains_get_at j k ∙ ap has_value h) refl, tt)
  strings_slot j k (some m) d h =
      let (n, read, p) = strings_from_json m d.0 in
      (
        some n,
        rw (contains_get_at j k ∙ ap has_value h, index_get_at j (json_of_strings m) k h, read)
            refl,
        (d.0, p),
      )

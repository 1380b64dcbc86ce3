-- ===== src/StableId/Format.antt =====
-- What a new id looks like, and that an id is kept.
use cpp_client_sdk.Files.{CacheDirectory, read_from_cache, do_write}
use cpp_client_sdk.Files.Writes.{read_from_cache_again, do_write-read}
use cpp_client_sdk.Prelude.{
  ℕ, zero, suc, ◌+◌, ◌%◌, ◌<◌, String, ◌≡◌, refl, ap, ◌∙◌, inl, inr, Bool, true, false, ◌&&◌, ◌||◌,
  Option, none, some, arith, leb, ◌==◌, if◌then◌else◌, Bool-cases, ℤ,
}
use cpp_client_sdk.StableId.{
  hex_digits, char_at, put_int, v4_from, v4, stable_id_key, StableId, new_stable_id,
  answer_stable_id, get_remembered, get_stable_id,
}
use cpp_client_sdk.Text.{str_length}
use Prim.Native.Char.{Char, code}

-- Characters by their codes: a hex digit in lower case, and the digits 8, 9, a and b.
abbrev pub is_hex_code : ℕ → Bool
is_hex_code c = (leb 48 c && leb c 57) || (leb 97 c && leb c 102)

abbrev pub is_variant_code : ℕ → Bool
is_variant_code c = (c == 56) || (c == 57) || (c == 97) || (c == 98)

-- A dash (45) at the places 8, 13, 18 and 23, a 4 (52) at 14, a variant digit at 19.
abbrev pub fits : ℕ → ℕ → Bool
fits i c =
    if (i == 8) || (i == 13) || (i == 18) || (i == 23)
    then c == 45
    else if i == 14
    then c == 52
    else if i == 19
    then is_variant_code c
    else is_hex_code c

abbrev pub all_fit : ℕ → String → Bool
all_fit i String.[] = true
all_fit i (String.◌∷◌ c s) = fits i (code c) && all_fit (i + 1) s

abbrev all_hex : String → Bool
all_hex String.[] = true
all_hex (String.◌∷◌ c s) = is_hex_code (code c) && all_hex s

char_at-all_hex :
    (s : String) (n : ℕ)
    → n < str_length s
    → all_hex s ≡ true
    → is_hex_code (code (char_at s n)) ≡ true
unfolding str_length
char_at-all_hex String.[] n h a = absurd (omega arith)
char_at-all_hex (String.◌∷◌ c s) zero h a = ground (arith, a)
char_at-all_hex (String.◌∷◌ c s) (suc n) h a = char_at-all_hex s n (omega arith) (ground (arith, a))

hex_digit-is_hex_code : (n : ℕ) → n < 16 → is_hex_code (code (char_at hex_digits n)) ≡ true
unfolding str_length
hex_digit-is_hex_code n h = char_at-all_hex hex_digits n h refl

variant-is_variant_code :
    (k : ℕ) → k < 4 → is_variant_code (code (char_at hex_digits (k + 8))) ≡ true
variant-is_variant_code zero h = refl
variant-is_variant_code (suc zero) h = refl
variant-is_variant_code (suc (suc zero)) h = refl
variant-is_variant_code (suc (suc (suc zero))) h = refl
variant-is_variant_code (suc (suc (suc (suc k)))) h = absurd (omega arith)

abbrev is_dash : ℕ → Bool
is_dash i = (i == 8) || (i == 13) || (i == 18) || (i == 23)

-- The character at the place `i`, drawn from `n`.
abbrev place_char : ℕ → ℕ → Char
place_char i n =
    if is_dash i
    then "-"
    else if i == 14
    then "4"
    else if i == 19
    then char_at hex_digits (n % 4 + 8)
    else char_at hex_digits n

place_char-fits : (i n : ℕ) → n < 16 → fits i (code (place_char i n)) ≡ true
place_char-fits i n h = elim (Bool-cases (is_dash i)) [
  | inl dash ↦ rw dash refl
  | inr b ↦ elim (Bool-cases (i == 14)) [
    | inl four ↦ rw (b, four) refl
    | inr c ↦ elim (Bool-cases (i == 19)) [
      | inl variant ↦ rw (b, c, variant) (variant-is_variant_code (n % 4) (omega arith))
      | inr e ↦ rw (b, c, e) (hex_digit-is_hex_code n h)
    ]
  ]
]

module _ (dis : ℕ → ℕ) (small : (i : ℕ) → dis i < 16) where
  v4_from-place_char :
      (rounds i : ℕ)
      → v4_from dis (suc rounds) i true
        ≡ String.◌∷◌ (place_char i (dis i)) (v4_from dis rounds (i + 1) true)
  unfolding v4_from put_int
  v4_from-place_char rounds i = elim (Bool-cases (is_dash i)) [
    | inl dash ↦ rw dash refl
    | inr b ↦ elim (Bool-cases (i == 14)) [
      | inl four ↦ rw (b, four) refl
      | inr c ↦ elim (Bool-cases (i == 19)) [
        | inl variant ↦ rw (b, c, variant) refl
        | inr e ↦ rw (b, c, e) refl
      ]
    ]
  ]

  all_fit-v4_from :
      (rounds i : ℕ)
      → (str_length (v4_from dis rounds i true) ≡ rounds)
        × (all_fit i (v4_from dis rounds i true) ≡ true)
  unfolding v4_from str_length
  all_fit-v4_from zero i = (refl, refl)
  all_fit-v4_from (suc rounds) i =
      let (long, fit) = all_fit-v4_from rounds (i + 1) in
      let step_ = v4_from-place_char rounds i in
      let here = place_char-fits i (dis i) (small i) in
      (ap str_length step_ ∙ ap suc long, ap (all_fit i) step_ ∙ rw here fit)

  -- The first digit sets the stream to hex.
  v4_from-start : v4_from dis 36 0 false ≡ v4_from dis 36 0 true
  unfolding v4_from
  v4_from-start = refl

  -- A new id has 36 characters: dashes at 8, 13, 18 and 23, a 4 at 14, one of 8, 9, a and b at 19,
  -- and hex digits elsewhere, if the random source gives numbers below 16.
  v4-fits : (str_length (v4 dis) ≡ 36) × (all_fit 0 (v4 dis) ≡ true)
  unfolding v4
  v4-fits = rw v4_from-start (all_fit-v4_from 36 0)

-- An answer is remembered.
answer_stable_id_again :
    (fresh later : String) (d : CacheDirectory) (read : Option String)
    → (let got = answer_stable_id fresh d read in
        get_remembered later got.directory got.self.stable_id
        ≡ record { self = got.self; directory = got.directory; id = got.id; write = none })
unfolding answer_stable_id get_remembered
answer_stable_id_again fresh later d none = refl
answer_stable_id_again fresh later d (some id) = refl

get_remembered_again :
    (fresh later : String) (d : CacheDirectory) (memo : Option String)
    → (let got = get_remembered fresh d memo in
        get_remembered later got.directory got.self.stable_id
        ≡ record { self = got.self; directory = got.directory; id = got.id; write = none })
unfolding get_remembered
get_remembered_again fresh later d none =
    answer_stable_id_again fresh later (read_from_cache d stable_id_key).0
      (read_from_cache d stable_id_key).1
get_remembered_again fresh later d (some id) = refl

-- The write that is due leaves the answer in the file.
answer_stable_id_file :
    (fresh : String) (now : ℤ) (d : CacheDirectory) (read : Option String)
    → d.is_created ≡ true
    → (read_from_cache d stable_id_key).1 ≡ read
    → (let got = answer_stable_id fresh d read in
        (read_from_cache (do_write now got.write got.directory) stable_id_key).1 ≡ some got.id)
unfolding answer_stable_id
answer_stable_id_file fresh now d none there e = do_write-read now d stable_id_key fresh there
answer_stable_id_file fresh now d (some id) there e = unfold do_write in e

-- The id is kept: asked again, the object gives it and touches nothing.
get_stable_id_again :
    (fresh later : String) (d : CacheDirectory) (s : StableId)
    → (let got = get_stable_id fresh d s in
        get_stable_id later got.directory got.self
        ≡ record { self = got.self; directory = got.directory; id = got.id; write = none })
unfolding get_stable_id
get_stable_id_again fresh later d s = get_remembered_again fresh later d s.stable_id

-- Once the write that is due has been made, the object of a later session gives the id that a new
-- object gave, whatever id it would make itself.
pub get_stable_id_kept :
    (fresh later : String) (now : ℤ) (d : CacheDirectory)
    → (let got = get_stable_id fresh d new_stable_id in
        (get_stable_id later (do_write now got.write got.directory) new_stable_id).id ≡ got.id)
unfolding get_stable_id get_remembered answer_stable_id
get_stable_id_kept fresh later now d =
    let (there, same) = read_from_cache_again d stable_id_key in
    let (d', read) = read_from_cache d stable_id_key in
    rw (answer_stable_id_file fresh now d' read there same) refl

-- ===== src/Hashing.antt =====
-- src/statsig/internal/hashing.hpp: DJB2 over the bytes of a string, in a 64-bit word of which the
-- low 32 bits are printed. `char` is signed, so a byte from 128 up is sign-extended.
use cpp_client_sdk.Prelude.{
  ℕ, ◌+◌, ◌-◌, ◌*◌, ◌%◌, ◌^◌, ◌<◌, String, ◌≡◌, refl, sym, ap, ◌∙◌, ◌↔◌, List, [], ◌∷◌, arith, ltb,
  if◌then◌else◌,
}
use cpp_client_sdk.Text.{codes, to_string, to_string_injective}

abbrev word : ℕ
word = 2 ^ 64

abbrev word32 : ℕ
word32 = 2 ^ 32

-- static_cast<unsigned long>(character).
unfoldable pub char_to_word : ℕ → ℕ
char_to_word b = if ltb b 128 then b else word - 256 + b

-- (hash << 5) - hash + static_cast<unsigned long>(character), at 64 bits.
unfoldable pub djb2_step : ℕ → ℕ → ℕ
djb2_step hash b = ((hash * 32) % word + (word - hash) + char_to_word b) % word

unfoldable pub djb2_loop : ℕ → List ℕ → ℕ
djb2_loop hash [] = hash
djb2_loop hash (b ∷ bs) = djb2_loop (djb2_step hash b) bs

unfoldable pub djb2 : String → String
djb2 value = to_string (djb2_loop 0 (codes value) % word32)

-- The same hash at 32 bits, as the other SDKs compute it: multiply by 31 and add the signed byte.
pub polynomial_hash : ℕ → List ℕ → ℕ
polynomial_hash hash [] = hash
polynomial_hash hash (b ∷ bs) =
    polynomial_hash ((31 * hash + (if ltb b 128 then b else word32 - 256 + b)) % word32) bs

djb2_step_mod :
    (hash b : ℕ)
    → hash < word
    → djb2_step hash b % word32
      ≡ (31 * (hash % word32) + (if ltb b 128 then b else word32 - 256 + b)) % word32
unfolding djb2_step char_to_word
djb2_step_mod hash b h = ground arith

djb2_loop_mod :
    (bs : List ℕ) (hash : ℕ)
    → hash < word
    → djb2_loop hash bs % word32 ≡ polynomial_hash (hash % word32) bs
unfolding djb2_loop polynomial_hash
djb2_loop_mod [] hash h = refl
djb2_loop_mod (b ∷ bs) hash h =
    djb2_loop_mod bs (djb2_step hash b) (unfold djb2_step in omega arith)
    ∙ ap (λ n. polynomial_hash n bs) (djb2_step_mod hash b h)

-- DJB2 prints, in decimal, the 32-bit polynomial hash with multiplier 31 of the signed bytes: the
-- wider word that the loop runs in does not show.
pub djb2-polynomial_hash :
    (value : String) → djb2 value ≡ to_string (polynomial_hash 0 (codes value))
unfolding djb2
djb2-polynomial_hash value = ap to_string (djb2_loop_mod (codes value) 0 (omega arith))

-- Two names get the same key exactly when their 32-bit hashes collide: the decimal print adds no
-- collision.
djb2-eq_iff :
    (s t : String) → (djb2 s ≡ djb2 t) ↔ (polynomial_hash 0 (codes s) ≡ polynomial_hash 0 (codes t))
unfolding djb2
djb2-eq_iff s t = (
  λ e. sym (low s) ∙ to_string_injective _ _ (small _) (small _) e ∙ low t,
  λ e. ap to_string (low s ∙ e ∙ sym (low t)),
)
  where
    low : (r : String) → djb2_loop 0 (codes r) % word32 ≡ polynomial_hash 0 (codes r)
    low r = djb2_loop_mod (codes r) 0 (omega arith)

    small : (n : ℕ) → n % word32 < 10 ^ 20
    small n = omega arith

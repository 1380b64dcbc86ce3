-- ===== src/Text.antt =====
-- std::string: a text with one character for each byte of the string.
pub mod Order
use Prim.Native.Char.{code, Char}
use Prim.Native.String.{String, ◌++◌, ◌∷◌, []}
pub use text.Mathlib.Text.{◌==◌ as str_eq}
pub use text.Mathlib.TextEquality.{eq_iff}
use cpp_client_sdk.Prelude.{
  ℕ, zero, suc, ◌+◌, ◌-◌, ◌*◌, ◌/◌, ◌%◌, ◌^◌, ◌<◌, ◌≡◌, refl, sym, ap, ◌∙◌, Bool, true, false,
  arith, ltb, if◌then◌else◌, ℤ, pos, negsuc,
}
use native.Mathlib.Nat.{pow-suc}
use mathlib.Core.List

-- The bytes of a string.
abbrev pub codes : String → List.List ℕ
codes [] = List.[]
codes (c ∷ s) = List.◌∷◌ (code c) (codes s)

abbrev pub concat : String → String → String
concat s t = s ++ t

-- `s.length()`.
unfoldable pub str_length : String → ℕ
str_length [] = 0
str_length (c ∷ s) = suc (str_length s)

-- `s.substr(0, n)`.
unfoldable pub substr : String → ℕ → String
substr s zero = ""
substr [] (suc n) = ""
substr (c ∷ s) (suc n) = c ∷ substr s n

digit : ℕ → Char
digit zero = "0"
digit (suc zero) = "1"
digit (suc (suc zero)) = "2"
digit (suc (suc (suc zero))) = "3"
digit (suc (suc (suc (suc zero)))) = "4"
digit (suc (suc (suc (suc (suc zero))))) = "5"
digit (suc (suc (suc (suc (suc (suc zero)))))) = "6"
digit (suc (suc (suc (suc (suc (suc (suc zero))))))) = "7"
digit (suc (suc (suc (suc (suc (suc (suc (suc zero)))))))) = "8"
digit (suc (suc (suc (suc (suc (suc (suc (suc (suc n))))))))) = "9"

-- The decimal digits of `n` in front of `rest`, at most `fuel` of them.
digits : ℕ → ℕ → String → String
digits zero n rest = rest
digits (suc fuel) n rest =
    let more = digits fuel (n / 10) (digit (n % 10) ∷ rest) in
    if ltb n 10 then digit n ∷ rest else more

-- `std::to_string` of a number of at most 64 bits, which has at most 20 digits.
unfoldable pub to_string : ℕ → String
unfolding digits digit
to_string n = digits 20 n ""

unfoldable pub to_string_ℤ : ℤ → String
unfolding to_string
to_string_ℤ (pos n) = to_string n
to_string_ℤ (negsuc n) = "-" ++ to_string (suc n)

-- The number that a run of digits stands for, after `acc`.
digits_value : ℕ → String → ℕ
digits_value acc [] = acc
digits_value acc (c ∷ s) = digits_value (acc * 10 + (code c - 48)) s

code-digit : (n : ℕ) → n < 10 → code (digit n) - 48 ≡ n
unfolding digit
code-digit zero h = refl
code-digit (suc zero) h = refl
code-digit (suc (suc zero)) h = refl
code-digit (suc (suc (suc zero))) h = refl
code-digit (suc (suc (suc (suc zero)))) h = refl
code-digit (suc (suc (suc (suc (suc zero))))) h = refl
code-digit (suc (suc (suc (suc (suc (suc zero)))))) h = refl
code-digit (suc (suc (suc (suc (suc (suc (suc zero))))))) h = refl
code-digit (suc (suc (suc (suc (suc (suc (suc (suc zero)))))))) h = refl
code-digit (suc (suc (suc (suc (suc (suc (suc (suc (suc n))))))))) h = omega arith

digits_value-digits :
    (fuel n : ℕ) (rest : String)
    → n < 10 ^ fuel
    → digits_value 0 (digits fuel n rest) ≡ digits_value n rest
unfolding digits digits_value
digits_value-digits zero n rest h = ap (λ m. digits_value m rest) (omega arith)
digits_value-digits (suc fuel) n rest h = ground (
  arith,
  pow-suc 10 fuel,
  code-digit n,
  code-digit (n % 10),
  digits_value-digits fuel (n / 10) (digit (n % 10) ∷ rest),
)

-- Reading the digits back gives the number.
digits_value-to_string : (n : ℕ) → n < 10 ^ 20 → digits_value 0 (to_string n) ≡ n
unfolding to_string digits_value
digits_value-to_string n h = digits_value-digits 20 n "" h

pub to_string_injective : (m n : ℕ) → m < 10 ^ 20 → n < 10 ^ 20 → to_string m ≡ to_string n → m ≡ n
to_string_injective m n hm hn e =
    sym (digits_value-to_string m hm) ∙ ap (digits_value 0) e ∙ digits_value-to_string n hn

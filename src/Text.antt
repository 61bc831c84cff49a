-- ===== src/Text.antt =====
-- The functions of package `strings` that the services use, on texts as lists of characters, and the
-- pattern of `ILIKE` by which the listings search.
pub mod Laws
pub mod Like
pub mod Decimal
use Prim.Native.Char.{Char, char, code, IsScalar}
use Prim.Native.String
use mathlib.Core.List.{reverse}
use rentcar_backend.Base.{
  ℕ, ◌+◌, ◌-◌, ◌≡◌, ◌==◌, nat_eq, if◌then◌else◌, Bool, true, ◌&&◌, ◌||◌, leb, ltb, String, List, [],
  ◌∷◌, arith, ◌⊎◌, refl, false, inl, inr, map,
}

abbrev pub chars : String → List Char
chars String.[] = []
chars (String.◌∷◌ c s) = c ∷ chars s

abbrev pub of_chars : List Char → String
of_chars [] = String.[]
of_chars (c ∷ cs) = String.◌∷◌ c (of_chars cs)

unfoldable pub is_space_code : ℕ → Bool
is_space_code n =
    leb 9 n && leb n 13
    || n == 32
    || n == 0x85
    || n == 0xA0
    || n == 0x1680
    || leb 0x2000 n && leb n 0x200A
    || n == 0x2028
    || n == 0x2029
    || n == 0x202F
    || n == 0x205F
    || n == 0x3000

-- `unicode.IsSpace`
abbrev pub is_space : Char → Bool
is_space c = is_space_code (code c)

abbrev pub skip_space : List Char → List Char
skip_space [] = []
skip_space (c ∷ cs) = let rest = skip_space cs in if is_space c then rest else c ∷ cs

unfoldable pub trim_chars : List Char → List Char
trim_chars cs = reverse (skip_space (reverse (skip_space cs)))

-- `strings.TrimSpace`
abbrev pub trim_space : String → String
trim_space s = of_chars (trim_chars (chars s))

-- A test with its outcome.
abbrev pub checked : (b : Bool) → (b ≡ true) ⊎ (b ≡ false)
checked true = inl refl
checked false = inr refl

-- The case of letters beyond ASCII, by the tables of package `unicode`.
pub record Unicode : Type 0 where
  pub lower : Char → Char
  pub upper : Char → Char

pub small-IsScalar : (n : ℕ) → leb n 1000 ≡ true → IsScalar n
small-IsScalar n h = ground arith

abbrev pub is_ascii_upper : ℕ → Bool
is_ascii_upper n = leb b'A' n && leb n b'Z'

abbrev pub is_ascii_lower : ℕ → Bool
is_ascii_lower n = leb b'a' n && leb n b'z'

pub lowered-le : (n : ℕ) → is_ascii_upper n ≡ true → leb (n + 32) 1000 ≡ true
lowered-le n h = ground arith

pub raised-le : (n : ℕ) → is_ascii_lower n ≡ true → leb (n - 32) 1000 ≡ true
raised-le n h = ground arith

module _ (u : Unicode) where
  -- `unicode.ToLower` and `unicode.ToUpper`
  unfoldable pub to_lower_char : Char → Char
  to_lower_char c =
      if ltb (code c) 128
      then elim (checked (is_ascii_upper (code c))) [
        | inl h ↦ char (code c + 32) (small-IsScalar (code c + 32) (lowered-le (code c) h))
        | inr _ ↦ c
      ]
      else u.lower c

  unfoldable pub to_upper_char : Char → Char
  to_upper_char c =
      if ltb (code c) 128
      then elim (checked (is_ascii_lower (code c))) [
        | inl h ↦ char (code c - 32) (small-IsScalar (code c - 32) (raised-le (code c) h))
        | inr _ ↦ c
      ]
      else u.upper c

  -- `strings.ToLower` and `strings.ToUpper`
  abbrev pub to_lower : String → String
  to_lower s = of_chars (map to_lower_char (chars s))

  abbrev pub to_upper : String → String
  to_upper s = of_chars (map to_upper_char (chars s))

-- ===== src/Text/Decimal.antt =====
-- Decimal numbers: `strconv.Itoa`, `%0wd` of package `fmt`, and `strconv.Atoi`, on code points.
use Prim.Native.Char.{Char, char, nul}
use rentcar_backend.Base.{
  ℕ, zero, suc, ◌+◌, ◌-◌, ◌*◌, ◌/◌, ◌%◌, ◌<◌, ◌≡◌, refl, ◌∙◌, ap, ◌==◌, nat_eq, if◌then◌else◌, Bool,
  true, ◌&&◌, leb, ltb, String, List, [], ◌∷◌, Option, none, some, arith, Bool-cases, inl, inr, map,
}
use rentcar_backend.Text.{of_chars, small-IsScalar, checked}

-- The digits of a number in front of a text, at least `width` of them. A round takes a digit, so the
-- number and the width together bound the rounds.
abbrev digits_from : ℕ → ℕ → ℕ → List ℕ → List ℕ
digits_from zero width n text = text
digits_from (suc fuel) width n text =
    let rest = digits_from fuel (width - 1) (n / 10) ((b'0' + n % 10) ∷ text) in
    if n == 0 && width == 0 then text else rest

-- `%0wd`
unfoldable pub padded : ℕ → ℕ → List ℕ
padded width n = digits_from (n + width + 1) width n []

-- `strconv.Itoa` of a number that is not below 0
abbrev pub itoa : ℕ → List ℕ
itoa n = padded 1 n

ascii : ℕ → Char
ascii n = elim (checked (leb n 1000)) [ inl h ↦ char n (small-IsScalar n h) | inr _ ↦ nul ]

unfoldable pub decimal : ℕ → ℕ → String
unfolding padded ascii
decimal width n = of_chars (map ascii (padded width n))

abbrev pub is_digit : ℕ → Bool
is_digit c = leb b'0' c && leb c b'9'

abbrev pub all_digits : List ℕ → Bool
all_digits [] = true
all_digits (c ∷ cs) = is_digit c && all_digits cs

-- The number that digits stand for.
abbrev pub value_from : ℕ → List ℕ → ℕ
value_from acc [] = acc
value_from acc (c ∷ cs) = value_from (acc * 10 + (c - b'0')) cs

-- Digits, at least one, of a number below the bound.
unfoldable pub parse_below : ℕ → List ℕ → Option ℕ
parse_below bound [] = none
parse_below bound (c ∷ cs) =
    if all_digits (c ∷ cs) && ltb (value_from 0 (c ∷ cs)) bound
    then some (value_from 0 (c ∷ cs))
    else none

value-digits :
    (fuel width n : ℕ) (text : List ℕ)
    → n + width < fuel
    → value_from 0 (digits_from fuel width n text) ≡ value_from n text
value-digits zero width n text h = absurd (omega arith)
value-digits (suc fuel) width n text h = elim (Bool-cases (n == 0 && width == 0)) [
  | inl done ↦ rw done (let zero_n : n ≡ 0 = ground arith in rw zero_n refl)
  | inr more ↦ rw more (
      value-digits fuel (width - 1) (n / 10) ((b'0' + n % 10) ∷ text) (ground arith)
      ∙ ap (λ k. value_from k text)
          (let e : n / 10 * 10 + (b'0' + n % 10 - b'0') ≡ n = omega arith in e))
]

digits-all :
    (fuel width n : ℕ) (text : List ℕ)
    → all_digits text ≡ true
    → all_digits (digits_from fuel width n text) ≡ true
digits-all zero width n text h = h
digits-all (suc fuel) width n text h =
    let digit : is_digit (b'0' + n % 10) ≡ true = ground arith in
    ground (arith, digits-all fuel (width - 1) (n / 10) ((b'0' + n % 10) ∷ text))

-- The digits of a number, however many zeros stand in front, are read as the number.
pub value-padded : (width n : ℕ) → value_from 0 (padded width n) ≡ n
unfolding padded
value-padded width n = value-digits (n + width + 1) width n [] (omega arith)

pub padded_digits : (width n : ℕ) → all_digits (padded width n) ≡ true
unfolding padded
padded_digits width n = digits-all (n + width + 1) width n [] refl

cons-digits :
    (fuel width n c : ℕ) (text : List ℕ)
    → (d : ℕ) × (ds : List ℕ) × (digits_from fuel width n (c ∷ text) ≡ d ∷ ds)
cons-digits zero width n c text = (c, text, refl)
cons-digits (suc fuel) width n c text = elim (Bool-cases (n == 0 && width == 0)) [
  | inl done ↦ (c, text, rw done refl)
  | inr more ↦
      (let (d, ds, e) = cons-digits fuel (width - 1) (n / 10) (b'0' + n % 10) (c ∷ text) in
        (d, ds, rw more e))
]

-- A number has a digit.
pub itoa-cons : (n : ℕ) → (d : ℕ) × (ds : List ℕ) × (itoa n ≡ d ∷ ds)
unfolding padded
itoa-cons n =
    let (d, ds, e) = cons-digits (n + 1) 0 (n / 10) (b'0' + n % 10) [] in
    (d, ds, let fuel : n + 1 + 1 ≡ suc (n + 1) = omega arith in rw fuel (ground (arith, e)))

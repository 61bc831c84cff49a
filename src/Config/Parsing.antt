-- ===== src/Config/Parsing.antt =====
-- The parsers of the standard library that internal/config/config.go uses: `strconv.Atoi`, `strconv.ParseBool` and
-- `time.ParseDuration`.
use mathlib.Core.Option
use rentcar_backend.Base.{
  ℕ, zero, suc, ◌+◌, ◌*◌, ◌/◌, ◌^◌, ◌==◌, nat_eq, string_eq, if◌then◌else◌, Bool, true, false, ◌&&◌,
  ◌||◌, leb, ltb, String, List, [], ◌∷◌, Option, none, some, ℤ, pos, negsuc,
}
use rentcar_backend.Listing.{length}
use rentcar_backend.Dates.{codes}
use rentcar_backend.Text.Decimal.{is_digit, value_from, parse_below}

abbrev pub negated : ℕ → ℤ
negated zero = pos 0
negated (suc n) = negsuc n

unfoldable pub parse_signed : List ℕ → Option ℤ
unfolding parse_below
parse_signed [] = none
parse_signed (c ∷ cs) =
    if c == b'-'
    then Option.map negated (parse_below (2 ^ 63 + 1) cs)
    else if c == b'+'
    then Option.map pos (parse_below (2 ^ 63) cs)
    else Option.map pos (parse_below (2 ^ 63) (c ∷ cs))

-- `strconv.ParseInt(value, 10, 64)` and, on 64 bits, `strconv.Atoi`
abbrev pub parse_int : String → Option ℤ
parse_int value = parse_signed (codes value)

abbrev is_one_of : String → List String → Bool
is_one_of s [] = false
is_one_of s (t ∷ ts) = s == t || is_one_of s ts

-- `strconv.ParseBool`
unfoldable pub parse_bool : String → Option Bool
parse_bool s =
    if is_one_of s ("1" ∷ "t" ∷ "T" ∷ "TRUE" ∷ "true" ∷ "True" ∷ [])
    then some true
    else if is_one_of s ("0" ∷ "f" ∷ "F" ∷ "FALSE" ∷ "false" ∷ "False" ∷ [])
    then some false
    else none

-- The digits at the start of a text, and the rest.
abbrev span_digits : List ℕ → List ℕ × List ℕ
span_digits [] = ([], [])
span_digits (c ∷ cs) =
    let (ds, rest) = span_digits cs in if is_digit c then (c ∷ ds, rest) else ([], c ∷ cs)

abbrev is_number_part : ℕ → Bool
is_number_part c = c == b'.' || is_digit c

-- The unit at the start of a text: what stands before a digit or a point.
abbrev span_unit : List ℕ → List ℕ × List ℕ
span_unit [] = ([], [])
span_unit (c ∷ cs) =
    let (us, rest) = span_unit cs in if is_number_part c then ([], c ∷ cs) else (c ∷ us, rest)

abbrev same_codes : List ℕ → List ℕ → Bool
same_codes [] [] = true
same_codes (c ∷ cs) (d ∷ ds) = c == d && same_codes cs ds
same_codes _ _ = false

-- `unitMap`, in nanoseconds; the last two are the micro sign and the letter mu.
abbrev unit_of : List ℕ → Option ℕ
unit_of u =
    if same_codes u (b'n' ∷ b's' ∷ [])
    then some 1
    else if same_codes u (b'u' ∷ b's' ∷ [])
        || same_codes u (0xB5 ∷ b's' ∷ [])
        || same_codes u (0x3BC ∷ b's' ∷ [])
    then some 1_000
    else if same_codes u (b'm' ∷ b's' ∷ [])
    then some 1_000_000
    else if same_codes u (b's' ∷ [])
    then some 1_000_000_000
    else if same_codes u (b'm' ∷ [])
    then some 60_000_000_000
    else if same_codes u (b'h' ∷ [])
    then some 3_600_000_000_000
    else none

abbrev fraction_of : List ℕ → List ℕ × List ℕ
fraction_of [] = ([], [])
fraction_of (c ∷ cs) = if c == b'.' then span_digits cs else ([], c ∷ cs)

-- A number with its unit, added to what was read before; every step that leaves 2 ^ 63 is an error. A fraction
-- of the unit is cut to whole nanoseconds.
abbrev part_value : ℕ → List ℕ → List ℕ → ℕ → Option ℕ
part_value sum whole part unit =
    let v = value_from 0 whole * unit in
    let f = value_from 0 part * unit / 10 ^ length part in
    if leb (sum + v + f) (2 ^ 63) then some (sum + v + f) else none

abbrev is_empty : List ℕ → Bool
is_empty [] = true
is_empty (_ ∷ _) = false

-- The loop of `time.ParseDuration`; each round takes a character at least.
abbrev parts_from : ℕ → ℕ → List ℕ → Option ℕ
parts_from zero sum cs = if is_empty cs then some sum else none
parts_from (suc fuel) sum [] = some sum
parts_from (suc fuel) sum (c ∷ cs) =
    let (whole, after) = span_digits (c ∷ cs) in
    let (part, later) = fraction_of after in
    let (name, rest) = span_unit later in
    if is_empty whole && is_empty part then none else elim (unit_of name) [
      | none ↦ none
      | some unit ↦ elim (part_value sum whole part unit) [
        | none ↦ none
        | some sum' ↦ parts_from fuel sum' rest
      ]
    ]

abbrev all_parts : List ℕ → Option ℕ
all_parts [] = none
all_parts (c ∷ cs) =
    if same_codes (c ∷ cs) (b'0' ∷ []) then some 0 else parts_from (length (c ∷ cs)) 0 (c ∷ cs)

-- A duration that is not below 0 is below 2 ^ 63.
abbrev below_limit : Option ℕ → Option ℤ
below_limit none = none
below_limit (some d) = if ltb d (2 ^ 63) then some (pos d) else none

abbrev signed_duration : List ℕ → Option ℤ
signed_duration [] = none
signed_duration (c ∷ cs) =
    if c == b'-'
    then Option.map negated (all_parts cs)
    else if c == b'+'
    then below_limit (all_parts cs)
    else below_limit (all_parts (c ∷ cs))

-- `time.ParseDuration`
unfoldable pub parse_duration : String → Option ℤ
parse_duration s = signed_duration (codes s)

-- ===== src/Dates.antt =====
-- The dates of package `time` that the services use: `time.Parse(time.DateOnly, …)`, the same for a
-- month, and the calendar. A date is the number of days since 0000-01-01.
pub mod Calendar
pub mod Civil
use Prim.Native.Char.{code}
use Prim.Native.String
use rentcar_backend.Base.{
  ℕ, zero, suc, ◌+◌, ◌-◌, ◌*◌, ◌/◌, ◌%◌, ◌==◌, nat_eq, string_eq, if◌then◌else◌, Bool, true, false,
  not, ◌&&◌, ◌||◌, leb, String, List, [], ◌∷◌, Option, none, some,
}

-- The code points of a text.
abbrev pub codes : String → List ℕ
codes String.[] = []
codes (String.◌∷◌ c s) = code c ∷ codes s

abbrev is_digit : ℕ → Bool
is_digit c = leb b'0' c && leb c b'9'

abbrev digit : ℕ → ℕ
digit c = c - b'0'

abbrev all_digits : List ℕ → Bool
all_digits [] = true
all_digits (c ∷ cs) = is_digit c && all_digits cs

unfoldable pub is_leap : ℕ → Bool
is_leap y = y % 4 == 0 && (not (y % 100 == 0) || y % 400 == 0)

-- `daysIn`
unfoldable pub days_in : ℕ → ℕ → ℕ
unfolding is_leap
days_in month year =
    if month == 2
    then (if is_leap year then 29 else 28)
    else if month == 4 || month == 6 || month == 9 || month == 11
    then 30
    else 31

-- The days of the years before a year, with one leap day in each leap year.
unfoldable pub days_before_year : ℕ → ℕ
days_before_year y = 365 * y + (y + 3) / 4 - (y + 99) / 100 + (y + 399) / 400

-- The days of the first `m` months of a year.
unfoldable pub days_of_months : ℕ → ℕ → ℕ
unfolding days_in
days_of_months zero year = 0
days_of_months (suc m) year = days_of_months m year + days_in (m + 1) year

unfoldable pub to_date : ℕ → ℕ → ℕ → ℕ
unfolding days_before_year days_of_months
to_date year month day = days_before_year year + days_of_months (month - 1) year + (day - 1)

abbrev two : ℕ → ℕ → ℕ
two a b = digit a * 10 + digit b

abbrev four : ℕ → ℕ → ℕ → ℕ → ℕ
four a b c d = two a b * 100 + two c d

is_valid_date : ℕ → ℕ → ℕ → Bool
unfolding days_in
is_valid_date year month day =
    leb 1 month && leb month 12 && leb 1 day && leb day (days_in month year)

parse_codes : List ℕ → Option ℕ
unfolding is_valid_date to_date
parse_codes (a ∷ b ∷ c ∷ d ∷ h ∷ e ∷ f ∷ k ∷ g ∷ i ∷ []) =
    if all_digits (a ∷ b ∷ c ∷ d ∷ e ∷ f ∷ g ∷ i ∷ [])
      && h == b'-'
      && k == b'-'
      && is_valid_date (four a b c d) (two e f) (two g i)
    then some (to_date (four a b c d) (two e f) (two g i))
    else none
parse_codes _ = none

-- `time.Parse(time.DateOnly, value)`: exactly YYYY-MM-DD, and a day of the calendar.
unfoldable pub parse_date : String → Option ℕ
unfolding parse_codes
parse_date s = parse_codes (codes s)

parse_month_codes : List ℕ → Option (ℕ × ℕ)
parse_month_codes (a ∷ b ∷ c ∷ d ∷ h ∷ e ∷ f ∷ []) =
    if all_digits (a ∷ b ∷ c ∷ d ∷ e ∷ f ∷ []) && h == b'-' && leb 1 (two e f) && leb (two e f) 12
    then some (four a b c d, two e f)
    else none
parse_month_codes _ = none

-- `time.Parse("2006-01", value)`, as a year and a month.
unfoldable pub parse_month : String → Option (ℕ × ℕ)
unfolding parse_month_codes
parse_month s = parse_month_codes (codes s)

-- The zero `time.Time`, which is 0001-01-01.
abbrev pub zero_date : ℕ
zero_date = 366

-- `IsZero`
abbrev pub is_zero_date : ℕ → Bool
is_zero_date d = d == zero_date

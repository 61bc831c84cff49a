-- ===== src/Cars/Service.antt =====
-- internal/service/car_service.go.
use Prim.Native.Char.{Char}
use rentcar_backend.Base.{
  ℕ, ◌-◌, ◌==◌, nat_eq, string_eq, if◌then◌else◌, Bool, not, ◌&&◌, ◌||◌, ltb, String, Option, none,
  some, Outcome, ok, err,
}
use rentcar_backend.AppError.{Error, new}
use rentcar_backend.Models.{Car, CarStatus, available, maintenance, inactive, car_status_eq}
use rentcar_backend.Text.{Unicode, trim_space, to_upper}
use rentcar_backend.Dates.{days_before_year}
use rentcar_backend.Store.{Action, ◌>>=◌, ◌>>◌, require, gets, call, today}
use rentcar_backend.Rentals.Repository.{when}
use rentcar_backend.Rentals.Service.Handlers.{lift}
use rentcar_backend.Rentals.Service.Listing.{parse_optional_date}
use rentcar_backend.Cars.Repository
use rentcar_backend.Cars.Listing
use rentcar_backend.Cars.Listing.{CarListFilter, CarListResult}

-- `CarInput`; the rate is in cents, and a number of seats below 0 does not pass the binding.
pub record CarInput : Type 0 where
  pub brand : String
  pub model : String
  pub year : ℕ
  pub plate_number : String
  pub daily_rate : ℕ
  pub seats : ℕ
  pub fuel : String
  pub transmission : String
  pub status : CarStatus
  pub image : String

-- `CarListInput`
pub record CarListInput : Type 0 where
  pub search : String
  pub status : CarStatus
  pub min_year : ℕ
  pub max_year : ℕ
  pub min_daily_rate : ℕ
  pub max_daily_rate : ℕ
  pub available_on : String
  pub page : ℕ
  pub page_size : ℕ

abbrev or_default : String → String → String
or_default default s = if s == "" then default else s

-- The fields as `normalizeCarInput` leaves them.
abbrev pub trimmed : Unicode → CarInput → CarInput
trimmed u i = record i {
  brand = trim_space i.brand;
  model = trim_space i.model;
  plate_number = to_upper u (trim_space i.plate_number);
  fuel = or_default "Petrol" (trim_space i.fuel);
  transmission = or_default "Automatic" (trim_space i.transmission);
  image = trim_space i.image;
  seats = if i.seats == 0 then 5 else i.seats;
}

-- `normalizeCarInput`
unfoldable pub normalize_car_input : Unicode → CarInput → Outcome Error CarInput
normalize_car_input u input =
    let i = trimmed u input in
    if ltb i.seats 1 || ltb 12 i.seats then err (new 400 "seats must be between 1 and 12") else ok i

-- `year > time.Now().Year()+1`: the year before the given one has not begun.
abbrev pub is_far_future : ℕ → ℕ → Bool
is_far_future day year = ltb day (days_before_year (year - 1))

abbrev pub car_of : ℕ → CarInput → Car
car_of id i = record {
  id = id;
  brand = i.brand;
  model = i.model;
  year = i.year;
  plate_number = i.plate_number;
  daily_rate = i.daily_rate;
  seats = i.seats;
  fuel = i.fuel;
  transmission = i.transmission;
  status = i.status;
  image = i.image;
  created_at = 0;
  updated_at = 0;
}

-- The input that `Create` and `Update` go on with.
abbrev pub checked_input : Unicode → CarInput → Action CarInput
checked_input u input = do
  i ← lift (normalize_car_input u input)
  day ← gets today
  require (when (is_far_future day i.year) (new 400 "year cannot be in the far future"))
  gets (λ w. i)

-- `Create`
unfoldable pub create : Unicode → CarInput → Action Car
create u input = do i ← checked_input u input; call (Repository.create (car_of 0 i))

abbrev default_status : Car → Car
default_status c = record c {
  status = if c.status == CarStatus.other "" then available else c.status;
}

-- `Update`
unfoldable pub update : Unicode → ℕ → CarInput → Action Car
update u id input = do
  i ← checked_input u input
  call (Repository.update_by_id (default_status (car_of id i)))

-- `Delete` and `FindByID`
unfoldable pub delete : ℕ → Action (Unit {0})
delete id = call (Repository.delete id)

unfoldable pub find_by_id : ℕ → Action Car
find_by_id id = call (Repository.find_by_id id)

abbrev is_listed_status : CarStatus → Bool
is_listed_status s = s == CarStatus.other "" || s == available || s == maintenance || s == inactive

-- The checks of `List`
unfoldable pub list_error : CarListInput → Option Error
list_error i =
    if not (is_listed_status i.status)
    then some (new 400 "invalid car status")
    else if ltb 0 i.min_year && ltb 0 i.max_year && ltb i.max_year i.min_year
    then some (new 400 "min_year cannot be greater than max_year")
    else when
        (ltb 0 i.min_daily_rate && ltb 0 i.max_daily_rate && ltb i.max_daily_rate i.min_daily_rate)
        (new 400 "min_rate cannot be greater than max_rate")

abbrev date_or_error : Option ℕ → Outcome Error ℕ
date_or_error none = err (new 400 "invalid available_on")
date_or_error (some d) = ok d

-- `List`
unfoldable pub list : (Char → Char) → CarListInput → Action CarListResult
list fold input = do
  require (list_error input)
  day ← lift (date_or_error (parse_optional_date input.available_on))
  call (
      Listing.list fold (record {
        search = input.search;
        status = input.status;
        min_year = input.min_year;
        max_year = input.max_year;
        min_daily_rate = input.min_daily_rate;
        max_daily_rate = input.max_daily_rate;
        available_on = day;
        page = input.page;
        page_size = input.page_size;
      }))

-- ===== src/Tests/Lists.antt =====
-- The theorems on the listings at concrete tables.
use Prim.Native.Char.{Char}
use rentcar_backend.Base.{
  ℕ, ◌+◌, ◌-◌, ◌≤◌, ◌≡◌, refl, [], ◌∷◌, none, some, ok, true, not, ◌&&◌, All, count,
}
use rentcar_backend.Models.{CarStatus, Notification, info, approved}
use rentcar_backend.Text.{trim_chars}
use rentcar_backend.Dates.{parse_month, to_date, days_in, days_before_year, days_of_months, is_leap}
use rentcar_backend.Listing.{length, page_rows, total_pages}
use rentcar_backend.Store.{World, exec, attempt, call, today}
use rentcar_backend.Cars.Repository as CarRepository
use rentcar_backend.Cars.Repository.{is_free}
use rentcar_backend.Cars.Listing.{CarListFilter, CarListResult, list, matches, normalize}
use rentcar_backend.Cars.Free.{IsFreeOn, list_free}
use rentcar_backend.Rentals.Listings.{rental_range, list_calendar_ranges, list_maintenance_ranges}
use rentcar_backend.Rentals.Calendar.{
  CalendarInput, CalendarResult, availability_calendar, month_calendar,
}
use rentcar_backend.Rentals.Blocked.{has, within}
use rentcar_backend.Rentals.Calendared.{month_of, availability_calendar_lem}
use rentcar_backend.Notices.Notifications.{mark_read, mark_rows, count_unread_by_user_id}
use rentcar_backend.Notices.Reading.{count_unread-mark_read}
use rentcar_backend.Tests.Data.{may_first, cobalt, wanted, no_rentals, one_rental, request_at}

abbrev same_letter : Char → Char
same_letter c = c

abbrev on_may_tenth : CarListFilter
on_may_tenth = record {
  search = "";
  status = CarStatus.other "";
  min_year = 0;
  max_year = 0;
  min_daily_rate = 0;
  max_daily_rate = 0;
  available_on = may_first + 9;
  page = 1;
  page_size = 0;
}

abbrev before_booking : World
before_booking = request_at may_first no_rentals

abbrev one_car : CarListResult
one_car = record { items = cobalt ∷ []; total = 1; page = 1; page_size = 12; total_pages = 1 }

list_run : (list same_letter on_may_tenth before_booking).0 ≡ ok one_car
unfolding list exec attempt page_rows total_pages trim_chars call
list_run = refl

list_free_example :
    All (IsFreeOn before_booking.db (may_first + 9)) one_car.items
    × (length one_car.items ≤ 100)
    × (one_car.total
        ≡ count
            (matches same_letter (normalize on_may_tenth) before_booking.db)
            before_booking.db.cars)
list_free_example = list_free same_letter on_may_tenth one_car before_booking refl refl list_run

abbrev booked_may : World
booked_may = request_at may_first (one_rental approved)

abbrev may : CalendarInput
may = record { car_id = 1; month = "2024-05" }

abbrev may_result : CalendarResult
may_result = record {
  car_id = 1;
  month = "2024-05";
  blocked_days = (may_first + 9) ∷ (may_first + 10) ∷ (may_first + 11) ∷ (may_first + 12) ∷ [];
  ranges = rental_range (record wanted { id = 1; status = approved }) ∷ [];
}

calendar_run : (availability_calendar true may booked_may).0 ≡ ok may_result
unfolding availability_calendar month_calendar call exec attempt list_calendar_ranges
    list_maintenance_ranges CarRepository.find_by_id parse_month to_date days_in days_before_year
    days_of_months is_leap today
calendar_run = refl

availability_calendar_lem_example :
    (m : ℕ × ℕ) × (parse_month (month_of (today booked_may) may) ≡ some m)
    × ((d : ℕ)
        → has d may_result.blocked_days ≡ (
            within (to_date m.0 m.1 1) (to_date m.0 m.1 1 + days_in m.1 m.0 - 1) d
            && not (is_free 1 d d booked_may.db)))
availability_calendar_lem_example =
    availability_calendar_lem may may_result booked_may refl calendar_run

abbrev notice : Notification
notice = record {
  id = 1;
  user_id = some 1;
  title = "Booked";
  message = "The car is booked.";
  kind = info;
  read_at = none;
  created_at = 0;
}

abbrev noticed : World
noticed =
    request_at may_first (record no_rentals { notifications = notice ∷ []; next_notification = 2 })

read_run : (mark_read 1 1 noticed).0 ≡ ok tt
unfolding mark_read exec attempt mark_rows
read_run = refl

abbrev once_read : World
once_read = (mark_read 1 1 noticed).1

unread_before : (count_unread_by_user_id 1 noticed).0 ≡ ok 1
unfolding count_unread_by_user_id exec attempt
unread_before = refl

unread_after : (count_unread_by_user_id 1 once_read).0 ≡ ok 0
unfolding count_unread_by_user_id mark_read exec attempt mark_rows
unread_after = refl

count_unread-mark_read_example : 0 + 1 ≡ 1
count_unread-mark_read_example =
    count_unread-mark_read 1 1 1 0 noticed once_read (refl, tt) refl read_run refl unread_before
      unread_after

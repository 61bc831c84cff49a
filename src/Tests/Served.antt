-- ===== src/Tests/Served.antt =====
-- The theorems on requests, the audit log, reports and the configuration at concrete inputs.
use rentcar_backend.Base.{
  ◌+◌, ◌*◌, ◌≤◌, ◌≡◌, ◌≢◌, ◌↔◌, ◌⊎◌, refl, ◌==◌, string_eq, if◌then◌else◌, true, false, List, [],
  ◌∷◌, none, some, ok, find,
}
use rentcar_backend.Models.{customer, admin, card, confirmed, PaymentStatus}
use rentcar_backend.Listing.{length}
use rentcar_backend.Text.Decimal.{decimal}
use rentcar_backend.Dates.{days_before_year, days_of_months}
use rentcar_backend.Dates.Civil.{date_text}
use rentcar_backend.Store.{World, call, exec, attempt}
use rentcar_backend.Users.Platform.{Platform}
use rentcar_backend.Middleware.Access.{stored_checker, require_auth}
use rentcar_backend.Middleware.Routes.{seeded}
use rentcar_backend.Coherence.{IsCoherent}
use rentcar_backend.Config.{load, validate, get_env, get_int, get_duration}
use rentcar_backend.Config.Validated.{IsAccepted, validate-IsAccepted}
use rentcar_backend.Reports.Repository as Reports
use rentcar_backend.Reports.Repository.{ReportSummary}
use rentcar_backend.Reports.Totals.{revenue_of, summary_top_cars}
use rentcar_backend.Web.Json.{Fields, number, end, field, value_of}
use rentcar_backend.Web.Replies.{Context}
use rentcar_backend.Web.Trail.{is_ignored, changes_between}
use rentcar_backend.Web.Trail.Order.{IsAscending}
use rentcar_backend.Web.Trail.Changes.{names, changes_between_lem}
use rentcar_backend.Web.Rentals.{new_rental_handler, notification_service}
use rentcar_backend.Web.Payments.{new_payment_handler, invoice_service}
use rentcar_backend.Web.Serving.{
  Server, Moment, request, tick, run, serve, create_payment, confirm_payment,
}
use rentcar_backend.Web.Serving.Coherent.{run-IsCoherent}
use rentcar_backend.Web.Serving.Guarded.{guarded_answer, serve_guarded}
use rentcar_backend.Tests.Accounts.{demo, settings}
use rentcar_backend.Tests.Data.{may_first, day_ns, one_rental, request_at}
use rentcar_backend.Tests.Run.{accepted, accepted-IsCoherent}

-- A library for which the token of the administrator is "b".
abbrev two_users : Platform
two_users = record demo {
  parse_with_claims = λ token key now. ok (
    true,
    record {
      user_id = 1;
      role = if token == "b" then admin else customer;
      subject = "1";
      issued_at = 0;
      expires_at = 0;
    },
  );
}

abbrev server : Server
server = record {
  platform = two_users;
  settings = settings;
  json = λ s. some s;
  rates = λ s. none;
  checker = stored_checker seeded;
  rentals = new_rental_handler (notification_service ∷ []);
  payments = new_payment_handler (invoice_service ∷ []);
  car_audits = true;
  maintenance_audits = true;
  user_audits = true;
}

abbrev first_rental : Context
first_rental = record {
  param = λ s. "1";
  query = λ s. "";
  caller = none;
  request_id = "r";
  client_ip = "10.0.0.1";
  user_agent = "";
  forwarded_proto = "";
  refresh_cookie = none;
  environment = "";
}

-- The payment of the approved rental is asked for and confirmed, and the worker runs.
abbrev one_day : List Moment
one_day =
    record {
      event =
          request first_rental "Bearer a"
            (create_payment (ok (record { rental_id = 1; method = card })));
      now = (may_first + 1) * day_ns;
      faults = [];
    }
    ∷ record {
      event = request first_rental "Bearer b" confirm_payment;
      now = (may_first + 2) * day_ns;
      faults = [];
    }
    ∷ record { event = tick; now = (may_first + 9) * day_ns; faults = [] }
    ∷ []

run-IsCoherent_example : IsCoherent (run server one_day accepted)
run-IsCoherent_example = run-IsCoherent server one_day accepted accepted-IsCoherent

abbrev cheap : Fields
cheap = field "daily_rate" (number "40") (field "seats" (number "4") end)

abbrev dear : Fields
dear = field "daily_rate" (number "50") (field "seats" (number "4") end)

changes_between_lem_example :
    IsAscending (names (changes_between cheap dear))
    × ((find (λ c. c.field_name == "daily_rate") (changes_between cheap dear)
          ≡ some (record { field_name = "daily_rate"; before = number "40"; after = number "50" }))
        ↔ ((is_ignored "daily_rate" ≡ false)
            × (value_of "daily_rate" cheap ≢ value_of "daily_rate" dear)))
    × ((find (λ c. c.field_name == "daily_rate") (changes_between cheap dear) ≡ none) ↔ (
        (is_ignored "daily_rate" ≡ true)
        ⊎ (value_of "daily_rate" cheap ≡ value_of "daily_rate" dear)))
changes_between_lem_example = changes_between_lem cheap dear "daily_rate"

-- The environment of a process that sets nothing.
validate_run : validate (load (λ key. "")) ≡ none
unfolding validate load get_env get_int get_duration
validate_run = refl

validate-IsAccepted_example : IsAccepted (load (λ key. ""))
validate-IsAccepted_example = validate-IsAccepted (load (λ key. "")) validate_run

-- A paid rental in the report of its day.
abbrev reported : World
reported = request_at 1 (record (one_rental confirmed) {
  payments =
      record {
        id = 1;
        rental_id = 1;
        amount = 16_000;
        status = PaymentStatus.paid;
        method = card;
        paid_at = some 0;
        created_at = 0;
        updated_at = 0;
      }
      ∷ [];
})

abbrev one_paid : ReportSummary
one_paid = record {
  start_date = "0000-01-01";
  end_date = "0000-01-02";
  revenue = 16_000;
  total_rentals = 1;
  active_rentals = 1;
  pending_payments = 0;
  cancelled = 0;
  top_cars =
      record { car_id = 1; label = "Chevrolet Cobalt"; rental_count = 1; revenue = 16_000 } ∷ [];
}

report_run : (Reports.summary 0 day_ns reported).0 ≡ ok one_paid
unfolding Reports.summary Reports.totals Reports.top_cars call exec attempt date_text decimal
    days_before_year days_of_months
report_run = refl

summary_top_cars_example : (length one_paid.top_cars ≤ 5) × (revenue_of one_paid.top_cars ≤ 16_000)
summary_top_cars_example = summary_top_cars 0 day_ns reported one_paid refl (refl, tt) report_run

-- A customer who asks for the confirmation of a payment.
serve_guarded_example :
    serve server first_rental "Bearer a" confirm_payment (request_at may_first accepted)
    ≡ guarded_answer server first_rental confirm_payment
        (request_at may_first accepted)
        (require_auth two_users "secret" (request_at may_first accepted).now "Bearer a")
serve_guarded_example =
    serve_guarded server first_rental confirm_payment (request_at may_first accepted) "Bearer a"
      refl refl

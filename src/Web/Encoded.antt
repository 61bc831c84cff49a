-- ===== src/Web/Encoded.antt =====
-- The models as JSON objects, by the tags of internal/models: a key for each field, in the order of the
-- struct, `-` and empty `omitempty` fields left out. Times are in UTC and their years have four digits.
use Prim.Native.String.{◌++◌}
use rentcar_backend.Base.{
  ℕ, ◌*◌, ◌/◌, ◌%◌, ◌==◌, string_eq, if◌then◌else◌, String, Option, none, some,
}
use rentcar_backend.Dates.Civil.{time_text, fraction}
use rentcar_backend.Models.{User, Car, Payment, Rental, CarMaintenance}
use rentcar_backend.Models.Texts.{
  rental_status_text, payment_status_text, payment_method_text, maintenance_status_text,
  car_status_text, role_text,
}
use rentcar_backend.Text.Decimal.{decimal}
use rentcar_backend.Web.Json.{Value, Fields, null, number, text, object, end, field}

-- A whole number, and a number of cents as a `float64`.
abbrev whole : ℕ → Value
whole n = number (decimal 1 n)

abbrev amount : ℕ → Value
amount cents = number (decimal 1 (cents / 100) ++ fraction 2 (cents % 100))

abbrev time : ℕ → Value
time t = text (time_text t)

abbrev midnight : ℕ → Value
midnight day = time (day * 86_400_000_000_000)

abbrev nullable : Option ℕ → Value
nullable none = null
nullable (some t) = time t

-- A field under `omitempty`
abbrev field_if : String → Option Value → Fields → Fields
field_if key none rest = rest
field_if key (some v) rest = field key v rest

abbrev text_if : String → Option Value
text_if s = if s == "" then none else some (text s)

unfoldable pub payment_fields : Payment → Fields
payment_fields p = field "id" (whole p.id) (
    field "rental_id" (whole p.rental_id) (
      field "amount" (amount p.amount) (
        field "method" (text (payment_method_text p.method)) (
          field "status" (text (payment_status_text p.status)) (
            field "paid_at" (nullable p.paid_at) (
              field "created_at" (time p.created_at)
                (field "updated_at" (time p.updated_at) end)))))))

unfoldable pub user_fields : User → Fields
user_fields u = field "id" (whole u.id) (
    field "name" (text u.name) (
      field "email" (text u.email) (
        field "phone" (text u.phone) (
          field "role" (text (role_text u.role)) (
            field_if "email_verified_at"
              (elim u.email_verified_at [ none ↦ none | some t ↦ some (time t) ])
              (field "created_at" (time u.created_at)
                (field "updated_at" (time u.updated_at) end)))))))

unfoldable pub car_fields : Car → Fields
car_fields c = field "id" (whole c.id) (
    field "brand" (text c.brand) (
      field "model" (text c.model) (
        field "year" (whole c.year) (
          field "plate_number" (text c.plate_number) (
            field "daily_rate" (amount c.daily_rate) (
              field "seats" (whole c.seats) (
                field "fuel" (text c.fuel) (
                  field "transmission" (text c.transmission) (
                    field "status" (text (car_status_text c.status)) (
                      field_if "image" (text_if c.image) (
                        field "created_at" (time c.created_at)
                          (field "updated_at" (time c.updated_at) end))))))))))))

unfoldable pub rental_fields : Rental → Fields
unfolding payment_fields user_fields car_fields
rental_fields r = field "id" (whole r.row.id) (
    field "user_id" (whole r.row.user_id) (
      field "car_id" (whole r.row.car_id) (
        field "start_date" (midnight r.row.start_date) (
          field "end_date" (midnight r.row.end_date) (
            field "total_amount" (amount r.row.total_amount) (
              field "status" (text (rental_status_text r.row.status)) (
                field_if "payment"
                  (elim r.payment [ none ↦ none | some p ↦ some (object (payment_fields p)) ])
                  (field_if "user"
                    (elim r.user [ none ↦ none | some u ↦ some (object (user_fields u)) ])
                    (field_if "car"
                      (elim r.car [ none ↦ none | some c ↦ some (object (car_fields c)) ])
                      (field "created_at" (time r.row.created_at)
                        (field "updated_at" (time r.row.updated_at) end)))))))))))

unfoldable pub maintenance_fields : CarMaintenance → Fields
maintenance_fields m = field "id" (whole m.id) (
    field "car_id" (whole m.car_id) (
      field "start_date" (midnight m.start_date) (
        field "end_date" (midnight m.end_date) (
          field "reason" (text m.reason) (
            field "status" (text (maintenance_status_text m.status)) (
              field "notes" (text m.notes) (
                field_if "created_by"
                  (elim m.created_by [ none ↦ none | some id ↦ some (whole id) ])
                  (field "created_at" (time m.created_at)
                    (field "updated_at" (time m.updated_at) end)))))))))

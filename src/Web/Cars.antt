-- ===== src/Web/Cars.antt =====
-- internal/handler/car_handler.go. How `strconv.ParseFloat` reads a rate, in cents, is an argument.
use rentcar_backend.Base.{
  ℕ, ◌==◌, string_eq, if◌then◌else◌, Bool, not, String, Option, none, some, Outcome,
}
use rentcar_backend.AppError.{base, new, not_found}
use rentcar_backend.Models.{Car, available, car_status_eq}
use rentcar_backend.Models.Texts.{car_status_of}
use Prim.Native.Char.{Char}
use rentcar_backend.Text.{Unicode}
use rentcar_backend.Store.{Action, pure, ◌>>=◌, ◌>>◌, require}
use rentcar_backend.Rentals.Repository.{when}
use rentcar_backend.Rentals.Service.Handlers.{lift}
use rentcar_backend.Cars.Listing.{CarListResult}
use rentcar_backend.Cars.Service as Service
use rentcar_backend.Cars.Service.{CarInput, CarListInput}
use rentcar_backend.Notices.Audits.{Json}
use rentcar_backend.Web.Json.{Fields}
use rentcar_backend.Web.Encoded.{car_fields}
use rentcar_backend.Web.Params.{id_param, optional, or_error}
use rentcar_backend.Web.Rentals.{flag}
use rentcar_backend.Web.Replies.{Context, Reply, ok_reply, created_reply}
use rentcar_backend.Web.Trail.{audit, audit_metadata}
use rentcar_backend.Web.Validator.{BindError, bound}

-- `strconv.ParseFloat` of a text that is not empty
abbrev pub RateParser : Type 0
RateParser = String → Option ℕ

-- `parseOptionalFloat`
abbrev pub parse_optional_rate : RateParser → String → Option ℕ
parse_optional_rate parse value = if value == "" then some 0 else parse value

abbrev optional_rate : RateParser → Context → String → String → Action ℕ
optional_rate parse c name text =
    lift (or_error (new 400 text) (parse_optional_rate parse (c.query name)))

-- `parseCarListInput`
unfoldable pub parse_car_list_input : RateParser → Context → Action CarListInput
parse_car_list_input parse c = do
  min_year ← optional c "min_year" "invalid min_year"
  max_year ← optional c "max_year" "invalid max_year"
  min_rate ← optional_rate parse c "min_rate" "invalid min_rate"
  max_rate ← optional_rate parse c "max_rate" "invalid max_rate"
  page ← optional c "page" "invalid page"
  page_size ← optional c "page_size" "invalid page_size"
  pure (record {
    search = c.query "q";
    status = car_status_of (c.query "status");
    min_year = min_year;
    max_year = max_year;
    min_daily_rate = min_rate;
    max_daily_rate = max_rate;
    available_on = c.query "available_on";
    page = page;
    page_size = page_size;
  })

-- `List`, of the cars that are available
unfoldable pub list : (Char → Char) → RateParser → Context → Action (Reply CarListResult)
list fold parse c = do
  input ← parse_car_list_input parse c
  found ← Service.list fold (record input { status = available })
  pure (ok_reply found)

-- `ListAdmin`
unfoldable pub list_admin : (Char → Char) → RateParser → Context → Action (Reply CarListResult)
list_admin fold parse c = do
  input ← parse_car_list_input parse c
  found ← Service.list fold input
  pure (ok_reply found)

-- `findCarByID`
unfoldable pub find_car_by_id : Context → Action Car
find_car_by_id c = do id ← id_param c; Service.find_by_id id

-- `GetByID`
unfoldable pub get_by_id : Context → Action (Reply Car)
get_by_id c = do
  car ← find_car_by_id c
  require (when (not (car.status == available)) (base not_found))
  pure (ok_reply car)

-- `GetAdminByID`
unfoldable pub get_admin_by_id : Context → Action (Reply Car)
get_admin_by_id c = do car ← find_car_by_id c; pure (ok_reply car)

-- `has_audit` says whether `NewCarHandler` was given a service of audits.
module _ (json : Json) (u : Unicode) (has_audit : Bool) (c : Context) where
  abbrev log : String → ℕ → Option Car → Option Car → Action (Unit {0})
  log action id before after = audit json has_audit c action "car" id (
      audit_metadata (elim before [ none ↦ none | some b ↦ some (car_fields b) ])
        (elim after [ none ↦ none | some a ↦ some (car_fields a) ]))

  -- `Create`
  unfoldable pub create : Outcome BindError CarInput → Action (Reply Car)
  create body = do
    input ← bound u body
    car ← Service.create u input
    log "car.created" car.id none (some car)
    pure (created_reply car)

  -- `Update`
  unfoldable pub update : Outcome BindError CarInput → Action (Reply Car)
  update body = do
    id ← id_param c
    before ← Service.find_by_id id
    input ← bound u body
    car ← Service.update u id input
    log "car.updated" car.id (some before) (some car)
    pure (ok_reply car)

  -- `Delete`
  unfoldable pub delete : Action (Reply Fields)
  delete = do
    id ← id_param c
    before ← Service.find_by_id id
    Service.delete id
    log "car.deleted" id (some before) none
    pure (ok_reply (flag "deleted"))

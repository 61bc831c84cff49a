-- ===== src/Web/Params.antt =====
-- How the handlers read identifiers and numbers: `parseID`, `parseOptionalID` and `parseOptionalInt`, over
-- `strconv.ParseInt` and `strconv.Atoi` with 64 bits. A number below 0 is 0 from there on, which is no row's
-- identifier and stands for no filter as it does.
use mathlib.Core.Option
use rentcar_backend.Base.{
  ℕ, ◌==◌, nat_eq, string_eq, if◌then◌else◌, String, Option, none, some, Outcome, ok, err, ℤ, pos,
  negsuc,
}
use rentcar_backend.AppError.{Error, base, new, invalid_id}
use rentcar_backend.Config.Parsing.{parse_int}
use rentcar_backend.Store.{Action}
use rentcar_backend.Rentals.Service.Handlers.{lift}
use rentcar_backend.Web.Replies.{Context, user_of}

abbrev pub number : ℤ → ℕ
number (pos n) = n
number (negsuc n) = 0

-- `parseID`
abbrev pub parse_id : String → Option ℕ
parse_id value = Option.map number (parse_int value)

-- `parseOptionalID` and `parseOptionalInt`
abbrev pub parse_optional : String → Option ℕ
parse_optional value = if value == "" then some 0 else parse_id value

abbrev pub or_error : {A : Type 0} → Error → Option A → Outcome Error A
or_error e none = err e
or_error e (some a) = ok a

-- The identifier in the path, the user of the context, and a number of the query with the error that
-- its parser's becomes.
abbrev pub id_param : Context → Action ℕ
id_param c = lift (or_error (base invalid_id) (parse_id (c.param "id")))

abbrev pub user_id : Context → Action ℕ
user_id c = lift (user_of c.caller)

abbrev pub optional : Context → String → String → Action ℕ
optional c name text = lift (or_error (new 400 text) (parse_optional (c.query name)))

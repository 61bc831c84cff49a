-- ===== src/Web/Replies.antt =====
-- What a handler reads of gin's context, and what it answers: pkg/response/response.go. A handler is a
-- chain of calls that ends with a reply or an error; `response.Error(c, status, text)` answers as
-- `response.FromError` does with an error of that status and text.
use rentcar_backend.Base.{
  ℕ, Bool, true, false, String, List, [], Option, none, some, Outcome, ok, err,
}
use rentcar_backend.AppError.{Error, base, unauthorized, status_code, message}
use rentcar_backend.Models.{Rental, UserRole}
use rentcar_backend.Store.{World, Action, pure, ◌>>=◌, catch}
use rentcar_backend.Middleware.Access.{Caller}

-- The path and query parameters, the caller that `RequireAuth` has set, the identifier of the request,
-- and headers; `environment` is the variable APP_ENV of the process.
pub record Context : Type 0 where
  pub param : String → String
  pub query : String → String
  pub caller : Option Caller
  pub request_id : String
  pub client_ip : String
  pub user_agent : String
  pub forwarded_proto : String
  pub refresh_cookie : Option String
  pub environment : String

-- `http.Cookie`, but for its fixed name, path, `HttpOnly` and `SameSite`; no age where `MaxAge` is -1.
pub record Cookie : Type 0 where
  pub value : String
  pub max_age : Option ℕ
  pub secure : Bool

-- A call of `SendRentalStatusUpdate`, whose error is dropped.
pub record RentalMail : Type 0 where
  pub to_email : String
  pub to_name : String
  pub rental : Rental

-- An answer that is no error: its status, what stands under `data`, the cookie that is set, and the
-- emails that the handler has handed to the sender.
pub record Reply (A : Type 0) : Type 0 where
  pub status : ℕ
  pub payload : A
  pub cookie : Option Cookie
  pub mails : List RentalMail

-- `OK` and `Created`
abbrev pub ok_reply : {A : Type 0} → A → Reply A
ok_reply a = record { status = 200; payload = a; cookie = none; mails = [] }

abbrev pub created_reply : {A : Type 0} → A → Reply A
created_reply a = record { status = 201; payload = a; cookie = none; mails = [] }

-- What is written: a reply, or the status, the message and the identifier of the request.
pub data Response (A : Type 0) : Type 0 where
  sent : Reply A → Response A
  refused : ℕ → String → String → Response A

-- `FromError`
abbrev pub from_error : {A : Type 0} → Context → Error → Response A
from_error c e = refused (status_code e) (message e) c.request_id

abbrev answered : {A : Type 0} → Context → Outcome Error (Reply A) → Response A
answered c (ok r) = sent r
answered c (err e) = from_error c e

-- A request that has come to its handler.
unfoldable pub respond : {A : Type 0} → Context → Action (Reply A) → World → Response A × World
respond c m w = (answered c (m w).0, (m w).1)

-- `c.Get("user_id")`, which is there behind `RequireAuth`
abbrev pub user_of : Option Caller → Outcome Error ℕ
user_of none = err (base unauthorized)
user_of (some caller) = ok caller.user_id

-- `roleFromContext`
abbrev pub role_from_context : Context → UserRole
role_from_context c = elim c.caller [ none ↦ UserRole.other "" | some caller ↦ caller.role ]

-- A call whose result and error are dropped, and one that is left out where a service is missing.
abbrev pub dropped : {A : Type 0} → Action A → Action (Unit {0})
dropped m = catch m >>= λ _. pure tt

abbrev pub given : Bool → Action (Unit {0}) → Action (Unit {0})
given b m = elim b [ true ↦ m | false ↦ pure tt ]

-- ===== src/Web/Users.antt =====
-- internal/handler/user_handler.go.
use rentcar_backend.Base.{
  ◌==◌, string_eq, if◌then◌else◌, Bool, ◌||◌, String, Option, none, some, Outcome, ok, err,
}
use rentcar_backend.AppError.{Error, base, new, unauthorized, invalid_auth, email_not_verified}
use rentcar_backend.Models.{User, UserRole}
use rentcar_backend.Models.Texts.{role_of}
use rentcar_backend.Text.{Unicode}
use rentcar_backend.Store.{Action, pure, fail, ◌>>=◌, ◌>>◌, catch}
use rentcar_backend.Rentals.Service.Handlers.{lift}
use rentcar_backend.Notices.Audits.{Json}
use rentcar_backend.Users.Inputs.{
  Settings, RegisterInput, ProfileInput, SessionMeta, AuthResponse, EmailVerificationResponse,
}
use rentcar_backend.Users.Listing.{UserListFilter, UserListResult}
use rentcar_backend.Users.Platform.{Platform, Draw}
use rentcar_backend.Users.Profiles as Profiles
use rentcar_backend.Users.Service as Service
use rentcar_backend.Web.Json.{Fields}
use rentcar_backend.Web.Encoded.{user_fields}
use rentcar_backend.Web.Params.{id_param, user_id, optional}
use rentcar_backend.Web.Rentals.{flag}
use rentcar_backend.Web.Replies.{Context, Reply, ok_reply, created_reply}
use rentcar_backend.Web.Trail.{audit, audit_metadata}
use rentcar_backend.Web.Validator.{BindError, bound, message}

-- `sessionMeta`
abbrev pub session_meta : Context → SessionMeta
session_meta c = record { user_agent = c.user_agent; ip_address = c.client_ip }

-- `secureCookie`
abbrev pub secure_cookie : Context → Bool
secure_cookie c = c.environment == "production" || c.forwarded_proto == "https"

-- `setRefreshTokenCookie` and the answer behind it: the token moves from the result into the cookie; 30 days
-- in seconds.
unfoldable pub with_refresh_cookie : Context → AuthResponse → Reply AuthResponse
with_refresh_cookie c r =
    if r.refresh_token == ""
    then ok_reply r
    else record (ok_reply (record r { refresh_token = "" })) {
      cookie =
          some (record {
            value = r.refresh_token;
            max_age = some 2_592_000;
            secure = secure_cookie c;
          });
    }

-- `clearRefreshTokenCookie` and the answer behind it.
unfoldable pub without_cookie : {A : Type 0} → Context → A → Reply A
without_cookie c a = record (ok_reply a) {
  cookie = some (record { value = ""; max_age = none; secure = secure_cookie c });
}

-- The error of `refreshTokenFromRequest`: that of the binding, or `ErrUnauthorized`.
pub data TokenError : Type 0 where
  unbound : BindError → TokenError
  missing : TokenError

abbrev cookie_token : Option String → Outcome TokenError String
cookie_token none = err missing
cookie_token (some token) = if token == "" then err missing else ok token

abbrev token_or_cookie : Context → String → Outcome TokenError String
token_or_cookie c token = if token == "" then cookie_token c.refresh_cookie else ok token

-- `refreshTokenFromRequest`; `none` is a request with no body.
unfoldable pub refresh_token_from_request :
    Context → Option (Outcome BindError String) → Outcome TokenError String
refresh_token_from_request c none = token_or_cookie c ""
refresh_token_from_request c (some (ok token)) = token_or_cookie c token
refresh_token_from_request c (some (err e)) = err (unbound e)

-- `errors.Is(err, apperror.ErrEmailNotVerified)`, which no cause of a wrapped error is
abbrev pub login_answer : Error → Error
login_answer (base email_not_verified) = base email_not_verified
login_answer e = base invalid_auth

abbrev login_outcome : Outcome Error AuthResponse → Outcome Error AuthResponse
login_outcome (ok r) = ok r
login_outcome (err e) = err (login_answer e)

-- `parseUserListInput`
unfoldable pub parse_user_list_input : Context → Action UserListFilter
parse_user_list_input c = do
  page ← optional c "page" "invalid page"
  page_size ← optional c "page_size" "invalid page_size"
  pure (record {
    search = c.query "q";
    role = role_of (c.query "role");
    page = page;
    page_size = page_size;
  })

-- `LogoutAll`
unfoldable pub logout_all : Context → Action (Reply Fields)
logout_all c = do
  user ← user_id c
  Profiles.logout_all user
  pure (without_cookie c (flag "logged_out"))

-- `Me`
unfoldable pub me : Context → Action (Reply User)
me c = do user ← user_id c; found ← Profiles.find_by_id user; pure (ok_reply found)

module _ (p : Platform) (s : Settings) (c : Context) where
  -- `Register`
  unfoldable pub register :
      Draw → Outcome BindError RegisterInput → Action (Reply EmailVerificationResponse)
  register d body = do
    input ← bound p.unicode body
    result ← Service.register p s d input
    pure (created_reply result)

  -- `VerifyEmail`, of an address and a code
  unfoldable pub verify_email :
      Draw → Outcome BindError (String × String) → Action (Reply AuthResponse)
  verify_email d body = do
    (email, text) ← bound p.unicode body
    result ← Service.verify_email p s d email text (session_meta c)
    pure (with_refresh_cookie c result)

  -- `ResendEmailVerification`
  unfoldable pub resend_email_verification :
      Draw → Outcome BindError String → Action (Reply EmailVerificationResponse)
  resend_email_verification d body = do
    email ← bound p.unicode body
    result ← Service.resend_email_verification p s d email
    pure (ok_reply result)

  -- `Login`, of an address and a password
  unfoldable pub login : Draw → Outcome BindError (String × String) → Action (Reply AuthResponse)
  login d body = do
    (email, password) ← bound p.unicode body
    tried ← catch (Service.login p s d email password (session_meta c))
    result ← lift (login_outcome tried)
    pure (with_refresh_cookie c result)

  -- The answer of `Refresh` where the request has no token.
  abbrev pub token_error : TokenError → Error
  token_error missing = base unauthorized
  token_error (unbound e) = new 400 (message p.unicode e)

  abbrev pub exchanged : Draw → Outcome TokenError String → Action (Reply AuthResponse)
  exchanged d (err e) = fail (token_error e)
  exchanged d (ok token) = do
    result ← Service.refresh p s d token (session_meta c)
    pure (with_refresh_cookie c result)

  -- `Refresh`
  unfoldable pub refresh : Draw → Option (Outcome BindError String) → Action (Reply AuthResponse)
  unfolding refresh_token_from_request
  refresh d body = exchanged d (refresh_token_from_request c body)

  abbrev pub ended : Outcome TokenError String → Action (Reply Fields)
  ended (err missing) = pure (without_cookie c (flag "logged_out"))
  ended (err (unbound e)) = fail (new 400 (message p.unicode e))
  ended (ok token) = do Service.logout p s token; pure (without_cookie c (flag "logged_out"))

  -- `Logout`
  unfoldable pub logout : Option (Outcome BindError String) → Action (Reply Fields)
  unfolding refresh_token_from_request
  logout body = ended (refresh_token_from_request c body)

  -- `UpdateProfile`
  unfoldable pub update_profile : Outcome BindError ProfileInput → Action (Reply User)
  update_profile body = do
    user ← user_id c
    input ← bound p.unicode body
    found ← Profiles.update_profile p s user input
    pure (ok_reply found)

  -- `List`
  unfoldable pub list : Action (Reply UserListResult)
  list = do input ← parse_user_list_input c; found ← Profiles.list p s input; pure (ok_reply found)

-- `UpdateRole`, of the role in the body; `has_audit` says whether `NewUserHandler` was given a service of audits.
unfoldable pub update_role :
    Json → Unicode → Bool → Context → Outcome BindError UserRole → Action (Reply Fields)
update_role json u has_audit c body = do
  actor ← user_id c
  id ← id_param c
  role ← bound u body
  before ← Profiles.find_by_id id
  Profiles.update_role actor id role
  audit json has_audit c "user.role_updated" "user" id (
      audit_metadata (some (user_fields before))
        (some (user_fields (record before { role = role }))))
  pure (ok_reply (flag "updated"))

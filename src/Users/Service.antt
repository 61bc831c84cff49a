-- ===== src/Users/Service.antt =====
-- internal/service/user_service.go, but for profiles and roles. Each method takes the random numbers that it draws, and the time
-- of the request is read once.
use Prim.Native.String.{◌++◌}
use rentcar_backend.Base.{
  ℕ, ◌+◌, ◌-◌, ◌/◌, ◌==◌, nat_eq, string_eq, if◌then◌else◌, Bool, true, false, not, leb, ltb,
  String, Option, none, some, Outcome, ok, err,
}
use rentcar_backend.AppError.{
  Error, base, new, external, unauthorized, not_found, invalid_auth, email_not_verified,
}
use rentcar_backend.Models.{User, customer, AuthToken, user_role_eq}
use rentcar_backend.Text.{trim_space, to_lower}
use rentcar_backend.Text.Decimal.{decimal}
use rentcar_backend.Store.{Action, pure, fail, ◌>>=◌, ◌>>◌, require, gets, call, catch}
use rentcar_backend.Rentals.Repository.{when}
use rentcar_backend.Rentals.Service.Handlers.{lift}
use rentcar_backend.Users.Repository
use rentcar_backend.Users.Tokens
use rentcar_backend.Users.Platform.{Platform, Draw, raw, generate_token, generate_refresh_token}
use rentcar_backend.Users.Inputs.{
  max_attempts, cooldown, second, Settings, RegisterInput, SessionMeta, AuthResponse,
  EmailVerificationResponse, normalize_phone,
}

abbrev pub is_absent : {A : Type 0} → Option A → Bool
is_absent none = true
is_absent (some _) = false

module _ (p : Platform) (s : Settings) where
  -- `normalizeEmail`
  abbrev pub normalize_email : String → String
  normalize_email email = to_lower p.unicode (trim_space email)

  -- `hashEmailVerificationCode`
  abbrev pub code_hash : String → String → String
  code_hash email text = p.mac s.jwt_secret (normalize_email email ++ ":" ++ trim_space text)

  -- `generateEmailVerificationCode`
  abbrev generate_code : Draw → Outcome Error String
  generate_code d = elim d.code [ ok n ↦ ok (decimal 6 n) | err c ↦ err (external c) ]

  -- `sendEmailVerification`
  unfoldable pub send_email_verification : Draw → User → Action EmailVerificationResponse
  send_email_verification d user = do
    text ← lift (generate_code d)
    now ← gets (λ w. w.now)
    call (
        Repository.save_email_verification user.id (code_hash user.email text)
          (now + s.email_verify_ttl))
    require (
        when (not (p.send user.email user.name text)) (new 502 "could not send verification email"))
    pure (record { email = user.email; expires_in = s.email_verify_ttl / second })

  abbrev pub session_token : User → SessionMeta → ℕ → String → AuthToken
  session_token user meta now refresh = record {
    id = 0;
    user_id = user.id;
    token_hash = p.digest refresh;
    user_agent = meta.user_agent;
    ip_address = meta.ip_address;
    expires_at = now + s.refresh_ttl;
    revoked_at = none;
    last_used_at = none;
    created_at = 0;
  }

  abbrev pub auth_response : User → String → String → AuthResponse
  auth_response user access refresh = record {
    access_token = access;
    refresh_token = refresh;
    expires_in = s.access_ttl / second;
    user = user;
  }

  -- The end of `createAuthResponse`: the refresh token is stored.
  abbrev pub open_session : User → SessionMeta → ℕ → String → String → Action AuthResponse
  open_session user meta now access refresh = do
    call (Tokens.create (session_token user meta now refresh))
    pure (auth_response user access refresh)

  -- `createAuthResponse`
  unfoldable pub create_auth_response : Draw → User → SessionMeta → Action AuthResponse
  create_auth_response d user meta = do
    require (when (is_absent user.email_verified_at) (base email_not_verified))
    now ← gets (λ w. w.now)
    access ← lift (generate_token p user s.jwt_secret now s.access_ttl)
    refresh ← lift (generate_refresh_token p d)
    open_session user meta now access refresh

  abbrev pub new_user : String → String → String → String → User
  new_user name email phone hash = record {
    id = 0;
    name = name;
    email = email;
    phone = phone;
    password_hash = hash;
    role = customer;
    email_verified_at = none;
    email_verification_code_hash = "";
    email_verification_expires_at = none;
    email_verification_sent_at = none;
    email_verification_attempts = 0;
    created_at = 0;
    updated_at = 0;
  }

  -- `Register`
  unfoldable pub register : Draw → RegisterInput → Action EmailVerificationResponse
  register d input = do
    phone ← lift (normalize_phone input.phone)
    require (when (trim_space input.name == "") (new 400 "name is required"))
    hash ← lift (raw (p.hash_password d.salt input.password))
    user ← call (
        Repository.create
          (new_user (trim_space input.name) (normalize_email input.email) phone hash))
    send_email_verification d user

  -- The errors of `Login` on the user that was found.
  abbrev pub login_error : User → String → Option Error
  login_error user password =
      if not (p.check_password user.password_hash password)
      then some (base invalid_auth)
      else when (is_absent user.email_verified_at) (base email_not_verified)

  -- Any error of a call as another one.
  abbrev pub or_error : {A : Type 0} → Error → Outcome Error A → Outcome Error A
  or_error e (ok a) = ok a
  or_error e (err _) = err e

  -- `Login`
  unfoldable pub login : Draw → String → String → SessionMeta → Action AuthResponse
  login d email password meta = do
    found ← call (catch (Repository.find_by_email (normalize_email email)))
    user ← lift (or_error (base invalid_auth) found)
    require (login_error user password)
    create_auth_response d user meta

  -- The end of `Refresh`: the token is revoked, and another session opened.
  abbrev pub exchange : Draw → String → SessionMeta → User → Action AuthResponse
  exchange d token meta user = do
    require (when (is_absent user.email_verified_at) (base email_not_verified))
    call (Tokens.revoke_by_hash (p.digest token))
    create_auth_response d user meta

  -- `Refresh`
  unfoldable pub refresh : Draw → String → SessionMeta → Action AuthResponse
  refresh d token meta = do
    found ← call (catch (Tokens.find_active_by_hash (p.digest token)))
    stored ← lift (or_error (base unauthorized) found)
    user ← call (Repository.find_by_id stored.user_id)
    exchange d token meta user

  -- The checks of `VerifyEmail` before the code is compared.
  unfoldable pub verify_error : ℕ → User → Option Error
  verify_error now user =
      if not (is_absent user.email_verified_at)
      then some (new 409 "email is already verified")
      else elim user.email_verification_expires_at [
        | none ↦ some (new 400 "verification code was not requested")
        | some expires ↦
            if user.email_verification_code_hash == ""
            then some (new 400 "verification code was not requested")
            else if ltb expires now
            then some (new 400 "verification code expired")
            else when (leb max_attempts user.email_verification_attempts)
                (new 429 "too many verification attempts; request a new code")
      ]

  -- A code that does not match is counted; an error of that count is not read.
  unfoldable pub wrong_code : ℕ → Action User
  wrong_code id = do
    counted ← call (catch (Repository.increment_attempts id))
    fail (new 400 "invalid verification code")

  -- A code that matches verifies the address, and the user is read again.
  unfoldable pub right_code : ℕ → Action User
  right_code id = do call (Repository.mark_email_verified id); call (Repository.find_by_id id)

  -- The end of `VerifyEmail`, on the user that was found.
  unfoldable pub check_code : Draw → String → String → SessionMeta → User → Action AuthResponse
  check_code d email text meta user = do
    now ← gets (λ w. w.now)
    require (verify_error now user)
    verified ←
        (if code_hash email text == user.email_verification_code_hash
          then right_code user.id
          else wrong_code user.id)
    create_auth_response d verified meta

  -- `VerifyEmail`
  unfoldable pub verify_email : Draw → String → String → SessionMeta → Action AuthResponse
  verify_email d email text meta = do
    found ← call (catch (Repository.find_by_email (normalize_email email)))
    user ← lift (or_error (new 400 "invalid verification code") found)
    check_code d (normalize_email email) (trim_space text) meta user

  abbrev pub sent_recently : ℕ → User → Bool
  sent_recently now user = elim user.email_verification_sent_at [
    | none ↦ false
    | some t ↦ ltb (now - t) cooldown
  ]

  abbrev pub resend_error : ℕ → User → Option Error
  resend_error now user =
      if not (is_absent user.email_verified_at)
      then some (new 409 "email is already verified")
      else when (sent_recently now user) (new 429 "verification code was sent recently")

  -- `ResendEmailVerification`
  unfoldable pub resend_email_verification : Draw → String → Action EmailVerificationResponse
  resend_email_verification d email = do
    found ← call (catch (Repository.find_by_email (normalize_email email)))
    user ← lift (or_error (base not_found) found)
    now ← gets (λ w. w.now)
    require (resend_error now user)
    send_email_verification d user

  -- `err == apperror.ErrNotFound`, by address, is no error of `Logout`.
  abbrev forgiven : Outcome Error (Unit {0}) → Outcome Error (Unit {0})
  forgiven (ok _) = ok tt
  forgiven (err (base not_found)) = ok tt
  forgiven (err e) = err e

  -- `Logout`
  unfoldable pub logout : String → Action (Unit {0})
  logout token = do
    require (when (token == "") (base unauthorized))
    r ← call (catch (Tokens.revoke_by_hash (p.digest token)))
    lift (forgiven r)

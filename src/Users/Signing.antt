-- ===== src/Users/Signing.antt =====
-- What a Login that succeeds has checked, and the addresses that it takes for the same.
use rentcar_backend.Base.{
  nat_eq, string_eq, ◌≡◌, refl, ap, sym, ◌∙◌, true, false, String, [], none, some, ok, Outcome,
  arith,
}
use rentcar_backend.AppError.{Error, base, invalid_auth}
use rentcar_backend.Models.{User}
use rentcar_backend.Text.Laws.{IsCaseTable, lowered_trim_idem}
use rentcar_backend.Store.{World, Action, ◌>>=◌, ◌>>◌, require, call, catch}
use rentcar_backend.Store.Inversion.{bind-ok, require-ok}
use rentcar_backend.Store.Keeps.{call_alone}
use rentcar_backend.Rentals.Service.Handlers.{lift}
use rentcar_backend.Users.Repository
use rentcar_backend.Users.Repository.{find_email}
use rentcar_backend.Users.Platform.{Platform, Draw}
use rentcar_backend.Users.Effects.{lookup_effect, or_error-ok}
use rentcar_backend.Users.Inputs.{Settings, SessionMeta, AuthResponse}
use rentcar_backend.Users.Service.{
  verify_email, resend_email_verification, login, login_error, create_auth_response, or_error,
  normalize_email, is_absent,
}

module _ (p : Platform) (s : Settings) where
  -- Under the tables of package `unicode` an address as it is typed and the same address in the form in which it
  -- is stored are one to VerifyEmail, to ResendEmailVerification and to Login: they look up the same user, take the
  -- same code, and leave the same world.
  pub accounts-normalize_email :
      (d : Draw) (email text password : String) (meta : SessionMeta) (w : World)
      → IsCaseTable p.unicode
      → (verify_email p s d (normalize_email p s email) text meta w
          ≡ verify_email p s d email text meta w)
        × (resend_email_verification p s d (normalize_email p s email) w
            ≡ resend_email_verification p s d email w)
        × (login p s d (normalize_email p s email) password meta w
            ≡ login p s d email password meta w)
  unfolding verify_email resend_email_verification login
  accounts-normalize_email d email text password meta w tables =
      let same : normalize_email p s (normalize_email p s email) ≡ normalize_email p s email =
        lowered_trim_idem p.unicode tables email in
      (rw same refl, rw same refl, rw same refl)

  login_passed :
      (user : User) (password : String)
      → login_error p s user password ≡ none
      → (p.check_password user.password_hash password ≡ true)
        × (is_absent user.email_verified_at ≡ false)
  login_passed user password h = (ground arith, ground arith)

  -- A Login that succeeds, with no other request in between, found a user by the address, trimmed and in lower
  -- case, whose password is the given one and whose address is verified.
  pub login_lem :
      (d : Draw) (email password : String) (meta : SessionMeta) (r : AuthResponse) (w : World)
      → w.others ≡ []
      → (login p s d email password meta w).0 ≡ ok r
      → (user : User) × (find_email (normalize_email p s email) w.db ≡ some user)
        × (p.check_password user.password_hash password ≡ true)
        × (is_absent user.email_verified_at ≡ false)
  unfolding login
  login_lem d email password meta r w alone h =
      let address : String = normalize_email p s email in
      let lookup : Action (Outcome Error User) = call (catch (Repository.find_by_email address)) in
      let opening : User → Action AuthResponse = λ user. create_auth_response p s d user meta in
      let last : User → Action AuthResponse =
        λ user. require (login_error p s user password) >> opening user in
      let bad : Error = base invalid_auth in
      let (found, run, h1, e1) =
        bind-ok lookup (λ found. lift (or_error p s bad found) >>= last) w r h in
      let v : World = (lookup w).1 in
      let here = call_alone (catch (Repository.find_by_email address)) w alone in
      let (user, run', h2, e2) = bind-ok (lift (or_error p s bad found)) last v r h1 in
      let same : (Repository.find_by_email address w).0 ≡ found =
        (let ends : ok (Repository.find_by_email address w).0 ≡ ok found =
            ap (λ x. x.0) (sym here) ∙ run.result in
          ground arith) in
      let row =
        lookup_effect p s address w user (same ∙ or_error-ok p s bad found user run'.result) in
      let (_, guarded, _, _) =
        bind-ok (require (login_error p s user password)) (λ _. opening user) v r h2 in
      let (checks, stay) = require-ok (login_error p s user password) v guarded.result in
      let (password_ok, verified_ok) = login_passed user password checks in
      (user, row, password_ok, verified_ok)

-- ===== src/Web/Serving/Accounts.antt =====
-- The handlers of users, and the invariant of rentals and payments.
use rentcar_backend.Base.{Bool, Option, String, Outcome, ok, err, string_eq}
use rentcar_backend.Models.{User, UserRole}
use rentcar_backend.Text.{Unicode}
use rentcar_backend.Store.Calm.{Keeps, keeps_pure, keeps_fail}
use rentcar_backend.Notices.Audits.{Json}
use rentcar_backend.Users.Inputs.{Settings, RegisterInput, ProfileInput, SessionMeta}
use rentcar_backend.Users.Platform.{Platform, Draw}
use rentcar_backend.Users.Profiles as Profiles
use rentcar_backend.Users.Service as Service
use rentcar_backend.Coherence.{IsCoherent}
use rentcar_backend.Web.Users as Users
use rentcar_backend.Web.Users.{
  TokenError, missing, unbound, refresh_token_from_request, ended, exchanged,
}
use rentcar_backend.Web.Replies.{Context}
use rentcar_backend.Web.Validator.{BindError}
use rentcar_backend.Web.Serving.Others.{
  create_user-keeps, find_email-keeps, find_user-keeps, save_verification-keeps, attempts-keeps,
  verify-keeps, update_profile-keeps, update_role-keeps, create_token-keeps, find_token-keeps,
  revoke_token-keeps, revoke_tokens-keeps,
}
use rentcar_backend.Web.Serving.Listings.{list_users-keeps}
use rentcar_backend.Web.Serving.Handlers.{chain, audit-keeps}

ruleset tables = (
  chain, create_user-keeps, find_email-keeps, find_user-keeps, save_verification-keeps,
  attempts-keeps, verify-keeps, update_profile-keeps, update_role-keeps, create_token-keeps,
  find_token-keeps, revoke_token-keeps, revoke_tokens-keeps, list_users-keeps,
)

module _ (p : Platform) (s : Settings) where
  session-keeps :
      (d : Draw) (u : User) (m : SessionMeta)
      → Keeps IsCoherent (Service.create_auth_response p s d u m)
  unfolding Service.create_auth_response
  session-keeps d u m = search tables depth 40

  sending-keeps : (d : Draw) (u : User) → Keeps IsCoherent (Service.send_email_verification p s d u)
  unfolding Service.send_email_verification
  sending-keeps d u = search tables depth 40

  check-keeps :
      (d : Draw) (email text : String) (m : SessionMeta) (u : User)
      → Keeps IsCoherent (Service.check_code p s d email text m u)
  unfolding Service.check_code Service.right_code Service.wrong_code
  check-keeps d email text m u = search (tables, session-keeps) depth 40

module _ (p : Platform) (s : Settings) (c : Context) where
  pub register-keeps :
      (d : Draw) (body : Outcome BindError RegisterInput)
      → Keeps IsCoherent (Users.register p s c d body)
  unfolding Users.register Service.register
  register-keeps d body = search (tables, sending-keeps) depth 40

  pub verify_email-keeps :
      (d : Draw) (body : Outcome BindError (String × String))
      → Keeps IsCoherent (Users.verify_email p s c d body)
  unfolding Users.verify_email Service.verify_email
  verify_email-keeps d body = search (tables, check-keeps) depth 40

  pub resend-keeps :
      (d : Draw) (body : Outcome BindError String)
      → Keeps IsCoherent (Users.resend_email_verification p s c d body)
  unfolding Users.resend_email_verification Service.resend_email_verification
  resend-keeps d body = search (tables, sending-keeps) depth 40

  pub login-keeps :
      (d : Draw) (body : Outcome BindError (String × String))
      → Keeps IsCoherent (Users.login p s c d body)
  unfolding Users.login Service.login
  login-keeps d body = search (tables, session-keeps) depth 40

  exchanged-keeps :
      (d : Draw) (t : Outcome TokenError String) → Keeps IsCoherent (exchanged p s c d t)
  unfolding Service.refresh
  exchanged-keeps d (ok t) = search (tables, session-keeps) depth 40
  exchanged-keeps d (err e) = keeps_fail _

  pub refresh-keeps :
      (d : Draw) (body : Option (Outcome BindError String))
      → Keeps IsCoherent (Users.refresh p s c d body)
  unfolding Users.refresh
  refresh-keeps d body = exchanged-keeps d (refresh_token_from_request c body)

  ended-keeps : (t : Outcome TokenError String) → Keeps IsCoherent (ended p s c t)
  unfolding Service.logout
  ended-keeps (ok t) = search tables depth 40
  ended-keeps (err missing) = keeps_pure _
  ended-keeps (err (unbound e)) = keeps_fail _

  pub logout-keeps :
      (body : Option (Outcome BindError String)) → Keeps IsCoherent (Users.logout p s c body)
  unfolding Users.logout
  logout-keeps body = ended-keeps (refresh_token_from_request c body)

  pub profile-keeps :
      (body : Outcome BindError ProfileInput) → Keeps IsCoherent (Users.update_profile p s c body)
  unfolding Users.update_profile Profiles.update_profile
  profile-keeps body = search tables depth 40

  pub users-keeps : Keeps IsCoherent (Users.list p s c)
  unfolding Users.list Profiles.list Users.parse_user_list_input
  users-keeps = search tables depth 40

pub logout_all-keeps : (c : Context) → Keeps IsCoherent (Users.logout_all c)
unfolding Users.logout_all Profiles.logout_all
logout_all-keeps c = search tables depth 40

pub me-keeps : (c : Context) → Keeps IsCoherent (Users.me c)
unfolding Users.me Profiles.find_by_id
me-keeps c = search tables depth 40

pub role-keeps :
    (json : Json) (u : Unicode) (has : Bool) (c : Context) (body : Outcome BindError UserRole)
    → Keeps IsCoherent (Users.update_role json u has c body)
unfolding Users.update_role Profiles.find_by_id Profiles.update_role
role-keeps json u has c body = search (tables, audit-keeps) depth 40

-- ===== src/Users/Opening.antt =====
-- What opening a session keeps, and the chains of internal/service/user_service.go that end with it.
use rentcar_backend.Base.{ℕ, ◌≡◌, refl, String, ok, err, Outcome}
use rentcar_backend.AppError.{Error, base, email_not_verified}
use rentcar_backend.Models.{User, AuthToken}
use rentcar_backend.Store.{Database, World, Action, pure, ◌>>=◌, gets, call, yield}
use rentcar_backend.Store.Keeps.{Holds, yield-Holds, keep_bind, keep_require}
use rentcar_backend.Rentals.Repository.{when}
use rentcar_backend.Rentals.Service.Handlers.{lift}
use rentcar_backend.Users.Tokens
use rentcar_backend.Users.Platform.{Platform, Draw, generate_token, generate_refresh_token}
use rentcar_backend.Users.Inputs.{Settings, SessionMeta, AuthResponse}
use rentcar_backend.Users.Service.{
  create_auth_response, open_session, session_token, auth_response, is_absent,
}

pub keep_lift :
    (P : World → Type 0) {A B : Type 0} (o : Outcome Error A) (k : A → Action B) (w : World)
    → P w
    → ((a : A) → o ≡ ok a → P (k a w).1)
    → P ((lift o >>= k) w).1
keep_lift P (ok a) k w h next = next a refl
keep_lift P (err e) k w h next = h

module _ (p : Platform) (s : Settings) (Q : Database → Type 0)
    (stored : (t : AuthToken) (w : World) → Q w.db → Q (Tokens.create t w).1.db) where
  open_session-keeps :
      (user : User) (meta : SessionMeta) (now : ℕ) (access refresh : String) (w : World)
      → Holds Q w
      → Q (open_session p s user meta now access refresh w).1.db
  unfolding call
  open_session-keeps user meta now access refresh w h =
      let t : AuthToken = session_token p s user meta now refresh in
      let k : AuthToken → Action AuthResponse = λ _. pure (auth_response p s user access refresh) in
      keep_bind (λ u. Q u.db) (call (Tokens.create t)) k w
        (stored t (yield w) (yield-Holds Q w h).0) (λ a v e kept. kept)

  -- Opening a session keeps what storing a token keeps.
  pub create_auth_response-keeps :
      (d : Draw) (user : User) (meta : SessionMeta) (w : World)
      → Holds Q w
      → Q (create_auth_response p s d user meta w).1.db
  unfolding create_auth_response
  create_auth_response-keeps d user meta w h =
      let P : World → Type 0 = λ u. Q u.db in
      let last : String → String → Action AuthResponse = open_session p s user meta w.now in
      let drawn : String → Action AuthResponse =
        λ access. lift (generate_refresh_token p d) >>= last access in
      let signed : Action AuthResponse =
        lift (generate_token p user s.jwt_secret w.now s.access_ttl) >>= drawn in
      let opened : P (signed w).1 =
        keep_lift P (generate_token p user s.jwt_secret w.now s.access_ttl) drawn w h.0 (λ access e.
          keep_lift P (generate_refresh_token p d) (last access) w h.0
            (λ refresh e'. open_session-keeps user meta w.now access refresh w h)) in
      keep_require P (when (is_absent user.email_verified_at) (base email_not_verified))
        (gets (λ u. u.now) >>= λ now.
          lift (generate_token p user s.jwt_secret now s.access_ttl) >>= λ access.
          lift (generate_refresh_token p d) >>= λ refresh.
          open_session p s user meta now access refresh)
        w h.0 (λ verified. opened)

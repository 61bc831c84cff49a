-- ===== src/Middleware/Bearer.antt =====
-- A token of GenerateToken in the header of a request.
use Prim.Native.Char.{Char}
use Prim.Native.String.{◌++◌}
use mathlib.Core.List.{◌++◌ as append}
use text.Mathlib.TextLemmas.{nil-append, cons-append}
use rentcar_backend.Base.{
  ℕ, ◌+◌, ◌==◌, nat_eq, ◌≡◌, refl, ap, ◌∙◌, true, false, ltb, String, List, ◌∷◌, none, some,
  Outcome, ok, err, arith,
}
use rentcar_backend.AppError.{Cause, base, unauthorized}
use rentcar_backend.Models.{User}
use rentcar_backend.Text.{chars, of_chars}
use rentcar_backend.Text.Laws.{of_chars-chars}
use rentcar_backend.Text.Decimal.{decimal}
use rentcar_backend.Users.Platform.{
  Platform, Claims, SigningMethod, hs256, key_for, raw, generate_token, parse_token,
}
use rentcar_backend.Middleware.Access.{bearer_token, without, caller_of, require_auth}

-- What the JWT library promises: a text that it signed by HS256 is valid where the same secret is given for that
-- method, until a second before its end, since it keeps times in seconds, with the user and the role that were signed.
pub record VerifiesSigned (p : Platform) : Type 0 where
  pub accepts :
      (c : Claims) (secret text : String) (key : SigningMethod → Outcome Cause String) (now : ℕ)
      → p.sign hs256 c secret ≡ ok text
      → key hs256 ≡ ok secret
      → ltb (now + 1_000_000_000) c.expires_at ≡ true
      → (c' : Claims) × (p.parse_with_claims text key now ≡ ok (true, c'))
        × (c'.user_id ≡ c.user_id)
        × (c'.role ≡ c.role)

raw-ok : {A : Type 0} (o : Outcome Cause A) (a : A) → raw o ≡ ok a → o ≡ ok a
raw-ok (ok x) a h = ground arith
raw-ok (err c) a h = absurd (ground arith)

chars-append : (a b : String) → chars (a ++ b) ≡ append (chars a) (chars b)
chars-append String.[] b = ap chars (nil-append b)
chars-append (String.◌∷◌ c a) b =
    ap chars (cons-append c a b) ∙ ap (λ xs. c ∷ xs) (chars-append a b)

bearer : (token : String) → bearer_token ("Bearer " ++ token) ≡ some (chars token)
bearer token = ap (without (chars "Bearer ")) (chars-append "Bearer " token)

auth_bearer :
    (p : Platform) (secret header : String) (token : List Char) (now : ℕ)
    → bearer_token header ≡ some token
    → require_auth p secret now header ≡ caller_of (parse_token p (of_chars token) secret now)
unfolding require_auth
auth_bearer p secret header token now e =
    ap
      (λ o. elim o [
        | none ↦ err (base unauthorized)
        | some t ↦ caller_of (parse_token p (of_chars t) secret now)
      ])
      e

-- The claims of a user with an identifier are taken over.
parse_verified :
    (p : Platform) (secret token : String) (now : ℕ) (c : Claims)
    → p.parse_with_claims token (key_for secret) now ≡ ok (true, c)
    → (c.user_id == 0) ≡ false
    → parse_token p token secret now ≡ ok c
unfolding parse_token
parse_verified p secret token now c e some_id = rw e (rw some_id refl)

-- A token that GenerateToken made for a user with an identifier is accepted by RequireAuth, under the same
-- secret and until a second before its end, as that user in the role of that time.
pub require_auth-generate_token :
    (p : Platform) (user : User) (secret token : String) (issued ttl now : ℕ)
    → VerifiesSigned p
    → (user.id == 0) ≡ false
    → generate_token p user secret issued ttl ≡ ok token
    → ltb (now + 1_000_000_000) (issued + ttl) ≡ true
    → require_auth p secret now ("Bearer " ++ token)
      ≡ ok (record { user_id = user.id; role = user.role })
require_auth-generate_token p user secret token issued ttl now jwt some_id made live =
    let claims : Claims = record {
      user_id = user.id;
      role = user.role;
      subject = decimal 1 user.id;
      issued_at = issued;
      expires_at = issued + ttl;
    } in
    let (c, verified, same_id, same_role) =
      jwt.accepts claims secret token (key_for secret) now
        (raw-ok (p.sign hs256 claims secret) token made) refl live in
    let parsed = parse_verified p secret token now c verified (rw same_id some_id) in
    auth_bearer p secret ("Bearer " ++ token) (chars token) now (bearer token)
    ∙ ap (λ t. caller_of (parse_token p t secret now)) (of_chars-chars token)
    ∙ ap caller_of parsed
    ∙ rw (same_id, same_role) refl

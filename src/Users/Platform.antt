-- ===== src/Users/Platform.antt =====
-- What the users' service takes from outside the repository: internal/auth over bcrypt and the JWT
-- library, random numbers, hashes, and the sender of emails.
use Prim.Native.Char.{Char}
use rentcar_backend.Base.{ℕ, ◌+◌, ◌==◌, nat_eq, if◌then◌else◌, Bool, not, String, Outcome, ok, err}
use rentcar_backend.AppError.{Cause, failure, Error, external}
use rentcar_backend.Models.{User, UserRole}
use rentcar_backend.Text.{Unicode}
use rentcar_backend.Text.Decimal.{decimal}

-- `Claims`; times in nanoseconds
pub record Claims : Type 0 where
  pub user_id : ℕ
  pub role : UserRole
  pub subject : String
  pub issued_at : ℕ
  pub expires_at : ℕ

-- `jwt.SigningMethod`, by its name where it is not HS256.
pub data SigningMethod : Type 0 where
  hs256 : SigningMethod
  other : String → SigningMethod

-- `hash_password` is `bcrypt.GenerateFromPassword` with a salt, `check_password` says that
-- `bcrypt.CompareHashAndPassword` finds no error, `mac` is the HMAC-SHA256 of a message under a secret and
-- `digest` the SHA256 of a text, both in hexadecimal, `token_text` writes 32 random bytes in base64,
-- `sign` is `SignedString` of a token by a method, `parse_with_claims` is `jwt.ParseWithClaims` of a text under
-- what gives the key for the method of the token, with `token.Valid` and the claims, `fold` is how the database compares letters without their
-- case, and `send` says that an email with a code could be sent.
pub record Platform : Type 0 where
  pub unicode : Unicode
  pub fold : Char → Char
  pub hash_password : ℕ → String → Outcome Cause String
  pub check_password : String → String → Bool
  pub mac : String → String → String
  pub digest : String → String
  pub token_text : ℕ → String
  pub sign : SigningMethod → Claims → String → Outcome Cause String
  pub parse_with_claims :
      String → (SigningMethod → Outcome Cause String) → ℕ → Outcome Cause (Bool × Claims)
  pub send : String → String → String → Bool

-- What a request draws from `crypto/rand`: the salt of a password, a code below a million, and the bytes
-- of a refresh token; drawing fails where the source of random bytes does.
pub record Draw : Type 0 where
  pub salt : ℕ
  pub code : Outcome Cause ℕ
  pub token : Outcome Cause ℕ

abbrev pub raw : {A : Type 0} → Outcome Cause A → Outcome Error A
raw (ok a) = ok a
raw (err c) = err (external c)

-- `GenerateToken`
abbrev pub generate_token : Platform → User → String → ℕ → ℕ → Outcome Error String
generate_token p user secret now ttl = raw (
    p.sign hs256
      (record {
        user_id = user.id;
        role = user.role;
        subject = decimal 1 user.id;
        issued_at = now;
        expires_at = now + ttl;
      })
      secret)

-- The function that `ParseToken` hands to the library: the key of a token, by its method.
abbrev pub key_for : String → SigningMethod → Outcome Cause String
key_for secret hs256 = ok secret
key_for secret (other name) = err (failure "unexpected signing method")

-- The claims that are accepted: those of a valid token, and of some user.
abbrev claims_of_user : Outcome Cause (Bool × Claims) → Outcome Cause Claims
claims_of_user (ok (valid, c)) =
    if not valid
    then err (failure "invalid token")
    else if c.user_id == 0
    then err (failure "missing user id")
    else ok c
claims_of_user (err c) = err c

-- `ParseToken`
unfoldable pub parse_token : Platform → String → String → ℕ → Outcome Cause Claims
parse_token p value secret now = claims_of_user (p.parse_with_claims value (key_for secret) now)

-- `GenerateRefreshToken`
abbrev pub generate_refresh_token : Platform → Draw → Outcome Error String
generate_refresh_token p d = elim d.token [ ok n ↦ ok (p.token_text n) | err c ↦ err (external c) ]

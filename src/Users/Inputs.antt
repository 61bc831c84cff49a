-- ===== src/Users/Inputs.antt =====
-- The settings of internal/service/user_service.go, what its methods take and return, and how it reads a phone
-- number.
use Prim.Native.Char.{code}
use Prim.Native.String as Native
use Prim.Native.String.{◌++◌}
use rentcar_backend.Base.{
  ℕ, ◌==◌, nat_eq, string_eq, if◌then◌else◌, Bool, true, not, ◌&&◌, ◌||◌, ltb, String, List, [],
  ◌∷◌, Outcome, ok, err,
}
use rentcar_backend.AppError.{Error, new}
use rentcar_backend.Models.{User, user_role_eq}
use rentcar_backend.Text.{chars, trim_space}
use rentcar_backend.Text.Decimal.{is_digit}

abbrev pub max_attempts : ℕ
max_attempts = 5

-- `emailVerificationCooldown`, a minute
abbrev pub cooldown : ℕ
cooldown = 60_000_000_000

abbrev pub second : ℕ
second = 1_000_000_000

-- The settings of `NewUserService`, as it leaves them.
pub record Settings : Type 0 where
  pub jwt_secret : String
  pub access_ttl : ℕ
  pub refresh_ttl : ℕ
  pub email_verify_ttl : ℕ

-- `NewUserService`: a lifetime of 0 is ten minutes.
abbrev pub new_settings : Settings → Settings
new_settings s = record s {
  email_verify_ttl = if s.email_verify_ttl == 0 then 600_000_000_000 else s.email_verify_ttl;
}

pub record RegisterInput : Type 0 where
  pub name : String
  pub email : String
  pub phone : String
  pub password : String

pub record ProfileInput : Type 0 where
  pub name : String
  pub email : String
  pub phone : String

pub record SessionMeta : Type 0 where
  pub user_agent : String
  pub ip_address : String

pub record AuthResponse : Type 0 where
  pub access_token : String
  pub refresh_token : String
  pub expires_in : ℕ
  pub user : User

pub record EmailVerificationResponse : Type 0 where
  pub email : String
  pub expires_in : ℕ

-- The characters that a phone number may have.
abbrev is_phone_code : ℕ → Bool
is_phone_code n = is_digit n || n == b'+' || n == b' ' || n == b'-' || n == b'(' || n == b')'

abbrev all_phone : List Prim.Native.Char.Char → Bool
all_phone [] = true
all_phone (c ∷ cs) = is_phone_code (code c) && all_phone cs

check_phone : String → Outcome Error String
check_phone phone =
    if phone == ""
    then ok ""
    else if ltb (Native.len phone) 7 || ltb 32 (Native.len phone)
    then err (new 400 "phone must be between 7 and 32 characters")
    else if not (all_phone (chars phone))
    then err (new 400 "phone contains invalid characters")
    else ok phone

-- `normalizePhone`
unfoldable pub normalize_phone : String → Outcome Error String
unfolding check_phone
normalize_phone phone = check_phone (trim_space phone)

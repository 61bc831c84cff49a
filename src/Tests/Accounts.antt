-- ===== src/Tests/Accounts.antt =====
-- The theorems on users and their sessions at a platform of functions on short texts.
use rentcar_backend.Base.{
  ◌+◌, ◌*◌, if◌then◌else◌, ◌≡◌, refl, [], ◌∷◌, none, some, ok, err, true, false, ◌==◌, string_eq,
  update, arith, nat_eq, ◌||◌, ◌&&◌,
}
use rentcar_backend.AppError.{base, unauthorized}
use rentcar_backend.Models.{User, UserRole, AuthToken, customer, user_role_eq}
use rentcar_backend.Text.{Unicode, trim_space, to_lower_char, trim_chars, is_space_code}
use rentcar_backend.Text.Laws.{IsCaseTable}
use rentcar_backend.Text.Like.{folded, contains}
use rentcar_backend.Store.{World, exec, attempt, call}
use rentcar_backend.Users.Platform.{Platform, Draw}
use rentcar_backend.Users.Repository
use rentcar_backend.Users.Repository.{find_email, verified}
use rentcar_backend.Users.Listing.{UserListFilter, matches}
use rentcar_backend.Users.Tokens
use rentcar_backend.Users.Inputs.{Settings, SessionMeta, AuthResponse}
use rentcar_backend.Users.Service.{
  create_auth_response, login, refresh, verify_email, resend_email_verification, check_code,
  verify_error, right_code, code_hash, normalize_email, is_absent,
}
use rentcar_backend.Users.Attempts.{IsCounted, verify_email-IsCounted}
use rentcar_backend.Users.Sessions.{IsSpent, refresh_once, create_auth_response-IsSpent}
use rentcar_backend.Users.Verifying.{IsVerifiable, once_verified, verify_email_lem}
use rentcar_backend.Users.Signing.{login_lem, accounts-normalize_email}
use rentcar_backend.Users.Searching.{matches-contains}
use rentcar_backend.Tests.Data.{may_first, ann, no_rentals, request_at}

abbrev letters : Unicode
letters = record { lower = λ c. c; upper = λ c. c }

abbrev pub demo : Platform
demo = record {
  unicode = letters;
  fold = λ c. c;
  hash_password = λ salt password. ok password;
  check_password = λ hash password. hash == password;
  mac = λ secret text. text;
  digest = λ token. token;
  token_text = λ n. if n == 7 then "seven" else "other";
  sign = λ m c secret. ok "signed";
  parse_with_claims = λ token key now.
      ok (
        true,
        record { user_id = 1; role = customer; subject = "1"; issued_at = 0; expires_at = 0 },
      );
  send = λ email name text. true;
}

abbrev pub settings : Settings
settings = record {
  jwt_secret = "secret";
  access_ttl = 900_000_000_000;
  refresh_ttl = 3_600_000_000_000;
  email_verify_ttl = 600_000_000_000;
}

abbrev draw : Draw
draw = record { salt = 0; code = ok 123456; token = ok 7 }

abbrev browser : SessionMeta
browser = record { user_agent = "browser"; ip_address = "10.0.0.1" }

-- Bob has a code and four wrong guesses behind him.
abbrev bob : User
bob = record ann {
  email_verified_at = none;
  email_verification_code_hash = "ann@example.com:123456";
  email_verification_expires_at = some ((may_first + 1) * 86_400_000_000_000);
  email_verification_attempts = 4;
}

abbrev old_token : AuthToken
old_token = record {
  id = 1;
  user_id = 1;
  token_hash = "old";
  user_agent = "";
  ip_address = "";
  expires_at = (may_first + 9) * 86_400_000_000_000;
  revoked_at = none;
  last_used_at = none;
  created_at = 0;
}

abbrev signed_up : World
signed_up = request_at may_first (record no_rentals { users = bob ∷ [] })

abbrev signed_in : World
signed_in = request_at may_first (record no_rentals {
  users = record ann { password_hash = "pass" } ∷ [];
  tokens = old_token ∷ [];
  next_token = 2;
})

abbrev renewed_session : AuthResponse
renewed_session = record {
  access_token = "signed";
  refresh_token = "seven";
  expires_in = 900;
  user = record ann { password_hash = "pass" };
}

refresh_run : (refresh demo settings draw "old" browser signed_in).0 ≡ ok renewed_session
unfolding refresh create_auth_response call exec attempt Tokens.find_active_by_hash
    Tokens.revoke_by_hash Tokens.revoke_tokens Tokens.create Tokens.insert_token
    Repository.find_by_id
refresh_run = refl

refresh_once_example :
    (refresh demo settings draw "old" browser
      (record signed_in { db = (refresh demo settings draw "old" browser signed_in).1.db })).0
    ≡ err (base unauthorized)
refresh_once_example =
    refresh_once demo settings draw draw "old" browser browser renewed_session signed_in
      (record signed_in { db = (refresh demo settings draw "old" browser signed_in).1.db }) tt
      refresh_run refl tt

abbrev spent_world : World
spent_world = record signed_in {
  db = record (signed_in.db) { tokens = record old_token { revoked_at = some 0 } ∷ [] };
}

old_token-IsSpent : IsSpent "old" spent_world.db
old_token-IsSpent = record { stored = refl; unusable = refl }

create_auth_response-IsSpent_example :
    IsSpent "old" (create_auth_response demo settings draw ann browser spent_world).1.db
create_auth_response-IsSpent_example =
    create_auth_response-IsSpent demo settings "old" draw ann browser spent_world old_token-IsSpent
      tt

signed_up-IsCounted : IsCounted signed_up.db
signed_up-IsCounted = record { bounded = (ground arith, tt); user_ids = (refl, tt) }

verify_email-IsCounted_example :
    IsCounted (verify_email demo settings draw " Ann@example.com" "000000" browser signed_up).1.db
verify_email-IsCounted_example =
    verify_email-IsCounted demo settings draw " Ann@example.com" "000000" browser signed_up
      signed_up-IsCounted refl

-- The row of Bob once the code was right.
abbrev verified_session : AuthResponse
verified_session = record {
  access_token = "signed";
  refresh_token = "seven";
  expires_in = 900;
  user = verified signed_up.now bob;
}

verify_run :
    (verify_email demo settings draw " Ann@example.com" "123456" browser signed_up).0
    ≡ ok verified_session
unfolding verify_email check_code verify_error right_code create_auth_response call exec attempt
    Tokens.create Tokens.insert_token Repository.find_by_id Repository.find_by_email
    Repository.mark_email_verified Repository.update_users trim_chars to_lower_char is_space_code
verify_run = refl

verify_email_lem_example :
    (user : User) × (find_email (normalize_email demo settings " Ann@example.com") signed_up.db
      ≡ some user)
    × IsVerifiable signed_up.now user
    × (code_hash demo settings
          (normalize_email demo settings " Ann@example.com")
          (trim_space "123456")
        ≡ user.email_verification_code_hash)
    × ((verify_email demo settings draw " Ann@example.com" "123456" browser signed_up).1.db.users
        ≡ update (λ u. u.id == user.id) (once_verified signed_up.now) signed_up.db.users)
verify_email_lem_example =
    verify_email_lem demo settings draw " Ann@example.com" "123456" browser verified_session
      signed_up refl verify_run

login_run :
    (login demo settings draw "ann@example.com" "pass" browser signed_in).0 ≡ ok renewed_session
unfolding login create_auth_response call exec attempt Tokens.create Tokens.insert_token
    Repository.find_by_email trim_chars to_lower_char is_space_code
login_run = refl

login_lem_example :
    (user : User) × (find_email (normalize_email demo settings "ann@example.com") signed_in.db
      ≡ some user)
    × (demo.check_password user.password_hash "pass" ≡ true)
    × (is_absent user.email_verified_at ≡ false)
login_lem_example =
    login_lem demo settings draw "ann@example.com" "pass" browser renewed_session signed_in refl
      login_run

letters_table : IsCaseTable letters
unfolding to_lower_char
letters_table = record { spaces = λ c h. refl; stable = λ c h. ground (arith, h) }

accounts-normalize_email_example :
    (verify_email demo settings draw
        (normalize_email demo settings " Ann@example.com")
        "123456"
        browser
        signed_up
      ≡ verify_email demo settings draw " Ann@example.com" "123456" browser signed_up)
    × (resend_email_verification demo settings draw
          (normalize_email demo settings " Ann@example.com")
          signed_up
        ≡ resend_email_verification demo settings draw " Ann@example.com" signed_up)
    × (login demo settings draw
          (normalize_email demo settings " Ann@example.com")
          "pass"
          browser
          signed_up
        ≡ login demo settings draw " Ann@example.com" "pass" browser signed_up)
accounts-normalize_email_example =
    accounts-normalize_email demo settings draw " Ann@example.com" "123456" "pass" browser signed_up
      letters_table

abbrev named_ann : UserListFilter
named_ann = record { search = "ann"; role = customer; page = 1; page_size = 20 }

matches-contains_example :
    matches demo.fold named_ann ann
    ≡ (named_ann.search == ""
        || contains (folded demo.fold "ann") (folded demo.fold ann.name)
        || contains (folded demo.fold "ann") (folded demo.fold ann.email)
        || contains (folded demo.fold "ann") (folded demo.fold ann.phone))
      && (named_ann.role == UserRole.other "" || ann.role == named_ann.role)
matches-contains_example = matches-contains demo.fold named_ann ann refl

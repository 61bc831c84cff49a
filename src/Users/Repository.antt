-- ===== src/Users/Repository.antt =====
-- internal/repository/user_repository.go, but for its list.
use mathlib.Core.Option
use rentcar_backend.Base.{
  ℕ, suc, ◌+◌, ◌==◌, nat_eq, string_eq, if◌then◌else◌, Bool, true, false, not, ◌&&◌, leb, String,
  ◌∷◌, [], Option, none, some, Outcome, ok, err, exists, find, count, update,
}
use rentcar_backend.AppError.{Cause, Error, new, map_cause, is_postgres_constraint}
use rentcar_backend.Models.{User, UserRole, customer, user_role_eq}
use rentcar_backend.Store.{Database, Action, pure, fail, ◌>>=◌, gets, exec, attempt, Statement}
use rentcar_backend.Store.Constraints.{
  one_row, refuse_if, find_user, check_violation, unique_violation,
}
use rentcar_backend.Rentals.Repository.{affects_row}

abbrev pub is_user_role : UserRole → Bool
is_user_role (UserRole.other _) = false
is_user_role _ = true

-- `mapUserUniqueError`
unfoldable pub unique_error : Cause → Error
unique_error c =
    if is_postgres_constraint c "23505" ("users_email_key" ∷ [])
    then new 409 "email is already registered"
    else if is_postgres_constraint c "23505" ("idx_users_phone_unique" ∷ [])
    then new 409 "phone is already registered"
    else map_cause c

abbrev default_role : UserRole → UserRole
default_role r = if r == UserRole.other "" then customer else r

-- The email and the phone of a user with the identifier `id` are nobody else's (`users_email_key` and
-- `idx_users_phone_unique`); the empty phone is no phone.
abbrev pub takes_email : ℕ → String → User → Bool
takes_email id email u = not (u.id == id) && u.email == email

abbrev pub takes_phone : ℕ → String → User → Bool
takes_phone id phone u = not (u.id == id) && u.phone == phone && not (phone == "")

unique_contacts : {A : Type 0} → ℕ → String → String → Database → Outcome Cause A → Outcome Cause A
unique_contacts id email phone db rest =
    refuse_if (exists (takes_email id email) db.users) (unique_violation "users_email_key") (
      refuse_if (exists (takes_phone id phone) db.users) (unique_violation "idx_users_phone_unique")
        rest)

-- The row of a new user: the columns that the statement does not name have their defaults.
abbrev pub new_row : User → ℕ → Database → User
new_row u now db = record u {
  id = db.next_user;
  email_verified_at = none;
  email_verification_code_hash = "";
  email_verification_expires_at = none;
  email_verification_sent_at = none;
  email_verification_attempts = 0;
  created_at = now;
  updated_at = now;
}

-- `INSERT INTO users … RETURNING id, created_at, updated_at`
unfoldable pub insert_user : User → ℕ → Statement User
unfolding unique_contacts
insert_user u now db = refuse_if (not (is_user_role u.role)) (check_violation "users_role_check") (
    unique_contacts db.next_user u.email u.phone db (
      ok (
        record u { id = db.next_user; created_at = now; updated_at = now },
        record db { users = new_row u now db ∷ db.users; next_user = suc db.next_user },
      )))

-- A statement whose error is mapped by `mapUserUniqueError`.
abbrev exec_unique : {A : Type 0} → Statement A → Action A
exec_unique s = attempt s >>= λ r. elim r [ ok a ↦ pure a | err c ↦ fail (unique_error c) ]

-- `Create`
unfoldable pub create : User → Action User
create user = do
  now ← gets (λ w. w.now)
  exec_unique (insert_user (record user { role = default_role user.role }) now)

abbrev pub find_email : String → Database → Option User
find_email email db = find (λ u. u.email == email) db.users

-- `FindByEmail` and `FindByID`
unfoldable pub find_by_email : String → Action User
find_by_email email = exec (λ db. one_row (Option.map (λ u. (u, db)) (find_email email db)))

unfoldable pub find_by_id : ℕ → Action User
find_by_id id = exec (λ db. one_row (Option.map (λ u. (u, db)) (find_user id db)))

-- `UPDATE users SET f WHERE id = …`, with the rows affected.
unfoldable pub update_users : ℕ → (User → User) → Statement ℕ
update_users id f db =
    ok (count (λ u. u.id == id) db.users, record db { users = update (λ u. u.id == id) f db.users })

abbrev pub with_code : String → ℕ → ℕ → User → User
with_code hash expires now u = record u {
  email_verification_code_hash = hash;
  email_verification_expires_at = some expires;
  email_verification_sent_at = some now;
  email_verification_attempts = 0;
  updated_at = now;
}

-- `SaveEmailVerification`
unfoldable pub save_email_verification : ℕ → String → ℕ → Action (Unit {0})
save_email_verification id hash expires = do
  now ← gets (λ w. w.now)
  affected ← exec (update_users id (with_code hash expires now))
  affects_row affected

abbrev pub attempted : ℕ → User → User
attempted now u = record u {
  email_verification_attempts = u.email_verification_attempts + 1;
  updated_at = now;
}

-- `IncrementEmailVerificationAttempts`
unfoldable pub increment_attempts : ℕ → Action (Unit {0})
increment_attempts id = do
  now ← gets (λ w. w.now)
  affected ← exec (update_users id (attempted now))
  affects_row affected

abbrev pub verified : ℕ → User → User
verified now u = record u {
  email_verified_at = some now;
  email_verification_code_hash = "";
  email_verification_expires_at = none;
  email_verification_sent_at = none;
  email_verification_attempts = 0;
  updated_at = now;
}

-- `MarkEmailVerified`
unfoldable pub mark_email_verified : ℕ → Action (Unit {0})
mark_email_verified id = do
  now ← gets (λ w. w.now)
  affected ← exec (update_users id (verified now))
  affects_row affected

-- The columns that `UpdateProfile` sets.
abbrev pub with_profile : User → ℕ → User → User
with_profile u now old = record old {
  name = u.name;
  email = u.email;
  phone = u.phone;
  updated_at = now;
}

-- What `UpdateProfile` scans into the given user.
abbrev profile_read : User → ℕ → User → User
profile_read u now old = record u {
  role = old.role;
  email_verified_at = elim old.email_verified_at [ none ↦ u.email_verified_at | some t ↦ some t ];
  created_at = old.created_at;
  updated_at = now;
}

unfoldable pub update_profile_row : User → ℕ → Statement User
unfolding unique_contacts
update_profile_row u now db = elim (find_user u.id db) [
  | none ↦ one_row none
  | some old ↦ unique_contacts u.id u.email u.phone db (
      ok (
        profile_read u now old,
        record db { users = update (λ x. x.id == u.id) (with_profile u now) db.users },
      ))
]

-- `UpdateProfile`
unfoldable pub update_profile : User → Action User
update_profile user = do now ← gets (λ w. w.now); exec_unique (update_profile_row user now)

abbrev pub with_role : UserRole → ℕ → User → User
with_role r now u = record u { role = r; updated_at = now }

unfoldable pub update_role_row : ℕ → UserRole → ℕ → Statement ℕ
unfolding update_users
update_role_row id role now db =
    refuse_if (not (is_user_role role) && leb 1 (count (λ u. u.id == id) db.users))
      (check_violation "users_role_check") (update_users id (with_role role now) db)

-- `UpdateRole`
unfoldable pub update_role : ℕ → UserRole → Action (Unit {0})
update_role id role = do
  now ← gets (λ w. w.now)
  affected ← exec (update_role_row id role now)
  affects_row affected

-- ===== src/Users/Effects.antt =====
-- What the calls of the repository of users change, and what they leave.
use rentcar_backend.Base.{
  ℕ, ◌==◌, nat_eq, string_eq, ◌≡◌, ap, sym, ◌∙◌, ◌⊎◌, String, [], some, ok, err, Outcome, update,
  arith, Option-cases, inl, inr,
}
use rentcar_backend.AppError.{Error}
use rentcar_backend.Models.{User, AuthToken}
use rentcar_backend.Store.{World, Action, ◌>>=◌, gets, exec, attempt, call, catch, pop_fault}
use rentcar_backend.Store.Keeps.{call_alone}
use rentcar_backend.Rentals.Repository.{affects_row}
use rentcar_backend.Users.Repository
use rentcar_backend.Users.Repository.{update_users, attempted, verified, find_email}
use rentcar_backend.Users.Tokens
use rentcar_backend.Users.Platform.{Platform}
use rentcar_backend.Users.Inputs.{Settings}
use rentcar_backend.Users.Service.{or_error}

pub same_users : (t : AuthToken) (w : World) → (Tokens.create t w).1.db.users ≡ w.db.users
unfolding Tokens.create exec attempt Tokens.insert_token
same_users t w = ground arith

-- An update of the user of one identifier, as the repository makes it.
abbrev pub change_user : ℕ → (ℕ → User → User) → Action (Unit {0})
change_user id f = gets (λ w. w.now) >>= λ now. exec (update_users id (f now)) >>= affects_row

-- It changes that user, or where the call fails no table.
pub change_user_effect :
    (id : ℕ) (f : ℕ → User → User) (w : World)
    → ((change_user id f w).1.db ≡ w.db)
      ⊎ ((change_user id f w).1.db
          ≡ record (w.db) { users = update (λ u. u.id == id) (f w.now) w.db.users })
unfolding exec attempt update_users
change_user_effect id f w = elim (Option-cases (pop_fault w.faults).0) [
  | inl clear ↦ inr (ground arith)
  | inr (c, fault) ↦ inl (ground arith)
]

pub change_user-others :
    (id : ℕ) (f : ℕ → User → User) (w : World) → (change_user id f w).1.others ≡ w.others
unfolding exec attempt update_users
change_user-others id f w = ground arith

pub find_by_email-same :
    (email : String) (w : World) → (Repository.find_by_email email w).1.db ≡ w.db
unfolding Repository.find_by_email exec attempt
find_by_email-same email w = ground arith

pub find_by_email-others :
    (email : String) (w : World) → (Repository.find_by_email email w).1.others ≡ w.others
unfolding Repository.find_by_email exec attempt
find_by_email-others email w = ground arith

pub find_by_id-same : (id : ℕ) (w : World) → (Repository.find_by_id id w).1.db ≡ w.db
unfolding Repository.find_by_id exec attempt
find_by_id-same id w = ground arith

pub find_by_id-others : (id : ℕ) (w : World) → (Repository.find_by_id id w).1.others ≡ w.others
unfolding Repository.find_by_id exec attempt
find_by_id-others id w = ground arith

pub increment-others :
    (id : ℕ) (w : World) → w.others ≡ [] → (Repository.increment_attempts id w).1.others ≡ []
unfolding Repository.increment_attempts
increment-others id w alone = change_user-others id attempted w ∙ alone

pub mark-others :
    (id : ℕ) (w : World) → w.others ≡ [] → (Repository.mark_email_verified id w).1.others ≡ []
unfolding Repository.mark_email_verified
mark-others id w alone = change_user-others id verified w ∙ alone

module _ (p : Platform) (s : Settings) where
  pub lookup_effect :
      (email : String) (w : World) (user : User)
      → (Repository.find_by_email email w).0 ≡ ok user
      → find_email email w.db ≡ some user
  unfolding Repository.find_by_email exec attempt
  lookup_effect email w user h = ground arith

  pub or_error-ok :
      {A : Type 0} (e : Error) (o : Outcome Error A) (a : A) → or_error p s e o ≡ ok a → o ≡ ok a
  or_error-ok e (ok x) a h = h
  or_error-ok e (err x) a h = absurd (ground arith)

  pub found_alone :
      (email : String) (found : Outcome Error User) (w v : World)
      → w.others ≡ []
      → call (catch (Repository.find_by_email email)) w ≡ (ok found, v)
      → ((Repository.find_by_email email w).0 ≡ found) × ((Repository.find_by_email email w).1 ≡ v)
  found_alone email found w v alone e =
      let same : catch (Repository.find_by_email email) w ≡ (ok found, v) =
        sym (call_alone (catch (Repository.find_by_email email)) w alone) ∙ e in
      (
        let ends : ok (Repository.find_by_email email w).0 ≡ ok found = ap (λ r. r.0) same in
            ground arith,
        ap (λ r. r.1) same,
      )

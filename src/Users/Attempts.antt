-- ===== src/Users/Attempts.antt =====
-- The guesses of a verification code, which VerifyEmail counts.
use rentcar_backend.Base.{
  ℕ, ◌≤◌, ◌<◌, ◌==◌, nat_eq, string_eq, ◌≡◌, refl, ap, sym, ◌∙◌, if◌then◌else◌, Bool, true, false,
  String, [], none, some, Outcome, All, update, find_by_key, DistinctBy, DistinctBy-update,
  All-update, All-update_key, arith, inl, inr,
}
use rentcar_backend.AppError.{Error, new}
use rentcar_backend.Text.{trim_space}
use rentcar_backend.Models.{User, AuthToken}
use rentcar_backend.Store.{Database, World, Action, fail, ◌>>=◌, call, catch}
use rentcar_backend.Store.Keeps.{call_alone, keep_bind, keep_require}
use rentcar_backend.Store.Constraints.{find_user}
use rentcar_backend.Rentals.Service.Handlers.{lift}
use rentcar_backend.Users.Repository
use rentcar_backend.Users.Repository.{update_users, attempted, verified, find_email}
use rentcar_backend.Users.Tokens
use rentcar_backend.Users.Effects.{
  same_users, change_user, change_user_effect, find_by_email-same, find_by_email-others,
  find_by_id-same, find_by_id-others, increment-others, mark-others, lookup_effect, or_error-ok,
  found_alone,
}
use rentcar_backend.Users.Platform.{Platform, Draw}
use rentcar_backend.Users.Opening.{create_auth_response-keeps, keep_lift}
use rentcar_backend.Users.Inputs.{Settings, SessionMeta, AuthResponse, max_attempts}
use rentcar_backend.Users.Service.{
  verify_email, check_code, verify_error, wrong_code, right_code, create_auth_response, or_error,
  normalize_email, code_hash,
}

-- No user has more wrong codes than are allowed, and no two users have the same identifier.
pub record IsCounted (db : Database) : Type 0 where
  pub bounded : All (λ u. u.email_verification_attempts ≤ max_attempts) db.users
  pub user_ids : DistinctBy (λ u. u.id) db.users

token-IsCounted : (t : AuthToken) (w : World) → IsCounted w.db → IsCounted (Tokens.create t w).1.db
token-IsCounted t w h = record {
  bounded = rw (same_users t w) h.bounded;
  user_ids = rw (same_users t w) h.user_ids;
}

change_user-IsCounted :
    (id : ℕ) (f : ℕ → User → User) (w : World)
    → ((n : ℕ) (u : User) → (f n u).id ≡ u.id)
    → IsCounted w.db
    → All
        (λ u. u.email_verification_attempts ≤ max_attempts)
        (update (λ u. u.id == id) (f w.now) w.db.users)
    → IsCounted (change_user id f w).1.db
change_user-IsCounted id f w keep h bounded = elim (change_user_effect id f w) [
  | inl same ↦ rw same h
  | inr changed ↦ rw changed (record {
    bounded = bounded;
    user_ids =
        DistinctBy-update (λ u. u.id) (λ u. u.id == id) (f w.now) w.db.users (keep w.now)
          h.user_ids;
  })
]

-- Below the bound, one more is counted for the user of the identifier.
increment-IsCounted :
    (id : ℕ) (user : User) (w : World)
    → IsCounted w.db
    → find_user id w.db ≡ some user
    → user.email_verification_attempts < max_attempts
    → IsCounted (Repository.increment_attempts id w).1.db
unfolding Repository.increment_attempts
increment-IsCounted id user w h found below =
    change_user-IsCounted id attempted w (λ n u. refl) h
      (All-update_key (λ u. u.email_verification_attempts ≤ max_attempts) (λ u. u.id)
        (attempted w.now) id w.db.users user h.user_ids found (omega (arith, below)) h.bounded)

mark-IsCounted :
    (id : ℕ) (w : World) → IsCounted w.db → IsCounted (Repository.mark_email_verified id w).1.db
unfolding Repository.mark_email_verified
mark-IsCounted id w h =
    change_user-IsCounted id verified w (λ n u. refl) h
      (All-update (λ u. u.email_verification_attempts ≤ max_attempts) (λ u. u.id == id)
        (verified w.now) w.db.users (λ u b. ground (arith, b)) h.bounded)

-- The tables while no other request is to come.
abbrev Alone : World → Type 0
Alone w = IsCounted w.db × (w.others ≡ [])

module _ (p : Platform) (s : Settings) where
  wrong_code-Alone :
      (id : ℕ) (user : User) (w : World)
      → Alone w
      → find_user id w.db ≡ some user
      → user.email_verification_attempts < max_attempts
      → Alone (wrong_code p s id w).1
  unfolding wrong_code
  wrong_code-Alone id user w (h, alone) found below =
      keep_bind Alone (call (catch (Repository.increment_attempts id)))
        (λ _. fail (new 400 "invalid verification code")) w
        (rw (call_alone (catch (Repository.increment_attempts id)) w alone)
          (increment-IsCounted id user w h found below, increment-others id w alone))
        (λ a v e kept. kept)

  right_code-Alone : (id : ℕ) (w : World) → Alone w → Alone (right_code p s id w).1
  unfolding right_code
  right_code-Alone id w (h, alone) =
      keep_bind Alone (call (Repository.mark_email_verified id))
        (λ _. call (Repository.find_by_id id)) w
        (rw (call_alone (Repository.mark_email_verified id) w alone)
          (mark-IsCounted id w h, mark-others id w alone))
        (λ a v e (k, still).
          rw (call_alone (Repository.find_by_id id) v still)
            (rw (find_by_id-same id v) k, find_by_id-others id v ∙ still))

  abbrev pub compare_code : Bool → ℕ → Action User
  compare_code same id = if same then right_code p s id else wrong_code p s id

  compared :
      (same : Bool) (user : User) (w : World)
      → Alone w
      → find_user user.id w.db ≡ some user
      → user.email_verification_attempts < max_attempts
      → Alone (compare_code same user.id w).1
  compared true user w h found below = right_code-Alone user.id w h
  compared false user w h found below = wrong_code-Alone user.id user w h found below

  error_below :
      (now : ℕ) (user : User)
      → verify_error p s now user ≡ none
      → user.email_verification_attempts < max_attempts
  unfolding verify_error
  error_below now user h = ground arith

  check_code-IsCounted :
      (d : Draw) (email text : String) (meta : SessionMeta) (user : User) (w : World)
      → Alone w
      → find_user user.id w.db ≡ some user
      → IsCounted (check_code p s d email text meta user w).1.db
  unfolding check_code
  check_code-IsCounted d email text meta user w h found =
      let P : World → Type 0 = λ u. IsCounted u.db in
      let same : Bool = code_hash p s email text == user.email_verification_code_hash in
      let opening : User → Action AuthResponse = λ u. create_auth_response p s d u meta in
      keep_require P (verify_error p s w.now user) (compare_code same user.id >>= opening) w h.0
        (λ passed.
          let after : Alone (compare_code same user.id w).1 =
            compared same user w h found (error_below w.now user passed) in
          keep_bind P (compare_code same user.id) opening w after.0 (λ u v e k.
            let v_alone : v.others ≡ [] =
              (let same_world : (compare_code same user.id w).1 ≡ v = ap (λ r. r.1) e in
                rw (← same_world) after.1) in
            create_auth_response-keeps p s IsCounted token-IsCounted d u meta v (k, rw v_alone tt)))

  -- Where no other request commits in between, VerifyEmail keeps the wrong codes of every user within
  -- the bound, whether it succeeds or not, where they are and identifiers are distinct.
  pub verify_email-IsCounted :
      (d : Draw) (email text : String) (meta : SessionMeta) (w : World)
      → IsCounted w.db
      → w.others ≡ []
      → IsCounted (verify_email p s d email text meta w).1.db
  unfolding verify_email
  verify_email-IsCounted d email text meta w h alone =
      let P : World → Type 0 = λ u. IsCounted u.db in
      let address : String = normalize_email p s email in
      let lookup : Action (Outcome Error User) = call (catch (Repository.find_by_email address)) in
      let last : User → Action AuthResponse = check_code p s d address (trim_space text) meta in
      let bad : Error = new 400 "invalid verification code" in
      keep_bind P lookup (λ found. lift (or_error p s bad found) >>= last) w
        (rw
          (
            call_alone (catch (Repository.find_by_email address)) w alone,
            find_by_email-same address w,
          )
          h)
        (λ found v e kept. keep_lift P (or_error p s bad found) last v kept (λ user e'.
          let (same, ends) = found_alone p s address found w v alone e in
          let v_db : v.db ≡ w.db = ap (λ u. u.db) (sym ends) ∙ find_by_email-same address w in
          let v_alone : v.others ≡ [] =
            ap (λ u. u.others) (sym ends) ∙ find_by_email-others address w ∙ alone in
          let row = lookup_effect p s address w user (same ∙ or_error-ok p s bad found user e') in
          let keyed : find_user user.id v.db ≡ some user =
            rw v_db
              (find_by_key (λ u. u.id) (λ u. u.email == address) w.db.users user h.user_ids row) in
          check_code-IsCounted d address (trim_space text) meta user v (kept, v_alone) keyed))

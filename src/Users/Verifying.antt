-- ===== src/Users/Verifying.antt =====
-- What a VerifyEmail that succeeds has checked, and what it leaves.
use mathlib.Core.Path.{subst}
use rentcar_backend.Base.{
  ℕ, ◌≤◌, ◌<◌, ◌≢◌, Option-cases, ◌==◌, nat_eq, string_eq, ◌≡◌, refl, ap, sym, ◌∙◌, Bool, true,
  false, String, [], none, some, ok, Outcome, update, arith, Bool-cases, inl, inr,
}
use rentcar_backend.AppError.{Error, new}
use rentcar_backend.Models.{User}
use rentcar_backend.Text.{trim_space}
use rentcar_backend.Store.{
  Database, World, Action, ◌>>=◌, require, exec, attempt, call, catch, fail,
}
use rentcar_backend.Store.Inversion.{bind-ok, require-ok}
use rentcar_backend.Store.Keeps.{call_alone}
use rentcar_backend.Rentals.Service.Handlers.{lift}
use rentcar_backend.Users.Repository
use rentcar_backend.Users.Repository.{update_users, verified, find_email}
use rentcar_backend.Users.Platform.{Platform, Draw}
use rentcar_backend.Users.Opening.{create_auth_response-keeps}
use rentcar_backend.Users.Effects.{
  same_users, find_by_id-same, find_by_id-others, find_by_email-same, find_by_email-others,
  mark-others, lookup_effect, or_error-ok,
}
use rentcar_backend.Users.Attempts.{compare_code}
use rentcar_backend.Users.Inputs.{Settings, SessionMeta, AuthResponse}
use rentcar_backend.Users.Service.{
  is_absent, verify_email, check_code, verify_error, wrong_code, right_code, create_auth_response,
  or_error, normalize_email, code_hash,
}

-- A user whose code may be taken at a time.
pub record IsVerifiable (now : ℕ) (u : User) : Type 0 where
  pub unverified : u.email_verified_at ≡ none
  pub expires : (t : ℕ) × (u.email_verification_expires_at ≡ some t) × (now ≤ t)
  pub attempts : u.email_verification_attempts < 5
  pub sent : u.email_verification_code_hash ≢ ""

-- A user after a code was taken.
abbrev pub once_verified : ℕ → User → User
once_verified now u = record u {
  email_verified_at = some now;
  email_verification_code_hash = "";
  email_verification_expires_at = none;
  email_verification_sent_at = none;
  email_verification_attempts = 0;
  updated_at = now;
}

mark_effect :
    (id : ℕ) (w : World)
    → (Repository.mark_email_verified id w).0 ≡ ok tt
    → (Repository.mark_email_verified id w).1.db.users
      ≡ update (λ u. u.id == id) (verified w.now) w.db.users
unfolding Repository.mark_email_verified exec attempt update_users
mark_effect id w h = ground arith

find_by_email-now : (email : String) (w : World) → (Repository.find_by_email email w).1.now ≡ w.now
unfolding Repository.find_by_email exec attempt
find_by_email-now email w = ground arith

module _ (p : Platform) (s : Settings) where
  wrong_never : (id : ℕ) (u : User) (w : World) → (wrong_code p s id w).0 ≡ ok u → (true ≡ false)
  unfolding wrong_code
  wrong_never id u w h =
      let counted = call (catch (Repository.increment_attempts id)) in
      let (_, _, after, _) =
        bind-ok counted (λ _. fail (new 400 "invalid verification code")) w u h in
      absurd (ground (arith, after))

  right_effect :
      (id : ℕ) (u : User) (w : World)
      → w.others ≡ []
      → (right_code p s id w).0 ≡ ok u
      → ((right_code p s id w).1.db.users ≡ update (λ u. u.id == id) (verified w.now) w.db.users)
        × ((right_code p s id w).1.others ≡ [])
  unfolding right_code
  right_effect id u w alone h =
      let mark = call (Repository.mark_email_verified id) in
      let (_, run, after, final) = bind-ok mark (λ _. call (Repository.find_by_id id)) w u h in
      let here = call_alone (Repository.mark_email_verified id) w alone in
      let v : World = (mark w).1 in
      let v_alone : v.others ≡ [] = ap (λ r. r.1.others) here ∙ mark-others id w alone in
      let there = call_alone (Repository.find_by_id id) v v_alone in
      let users : v.db.users ≡ update (λ u. u.id == id) (verified w.now) w.db.users =
        ap (λ r. r.1.db.users) here ∙ mark_effect id w (ap (λ r. r.0) (sym here) ∙ run.result) in
      (
        ap (λ x. x.db.users) final
            ∙ ap (λ r. r.1.db.users) there
            ∙ ap (λ d. d.users) (find_by_id-same id v)
            ∙ users,
        ap (λ x. x.others) final ∙ ap (λ r. r.1.others) there ∙ find_by_id-others id v ∙ v_alone,
      )

  -- What the code was compared with, and the table of users that is left.
  check_code_effect :
      (d : Draw) (email text : String) (meta : SessionMeta) (user : User) (r : AuthResponse)
      (w : World)
      → w.others ≡ []
      → (check_code p s d email text meta user w).0 ≡ ok r
      → (verify_error p s w.now user ≡ none)
        × (code_hash p s email text ≡ user.email_verification_code_hash)
        × ((check_code p s d email text meta user w).1.db.users
            ≡ update (λ u. u.id == user.id) (verified w.now) w.db.users)
  unfolding check_code
  check_code_effect d email text meta user r w alone h =
      let same : Bool = code_hash p s email text == user.email_verification_code_hash in
      let opening : User → Action AuthResponse = λ u. create_auth_response p s d u meta in
      let guard : Action (Unit {0}) = require (verify_error p s w.now user) in
      let rest : Action AuthResponse = compare_code p s same user.id >>= opening in
      let (_, run, after, final) = bind-ok guard (λ _. rest) w r h in
      let (passed, stay) = require-ok (verify_error p s w.now user) w run.result in
      let after' : (rest w).0 ≡ ok r = ap (λ v. (rest v).0) (sym stay) ∙ after in
      let (u, compared, _, final') = bind-ok (compare_code p s same user.id) opening w r after' in
      let ends : (check_code p s d email text meta user w).1
          ≡ (opening u (compare_code p s same user.id w).1).1 =
        final ∙ ap (λ v. (rest v).1) stay ∙ final' in
      elim (Bool-cases same) [
        | inr differs ↦
            let wrong : (wrong_code p s user.id w).0 ≡ ok u =
              ap (λ b. (compare_code p s b user.id w).0) (sym differs) ∙ compared.result in
            absurd (ground (arith, wrong_never user.id u w wrong))
        | inl matches ↦
            let right : (right_code p s user.id w).0 ≡ ok u =
              ap (λ b. (compare_code p s b user.id w).0) (sym matches) ∙ compared.result in
            let (users, left) = right_effect user.id u w alone right in
            let v : World = (compare_code p s same user.id w).1 in
            let v_is : v ≡ (right_code p s user.id w).1 =
              ap (λ b. (compare_code p s b user.id w).1) matches in
            let Q : Database → Type 0 =
              λ db. db.users ≡ update (λ x. x.id == user.id) (verified w.now) w.db.users in
            let kept : Q (opening u v).1.db =
              create_auth_response-keeps p s Q (λ t x k. same_users t x ∙ k) d u meta v
                (ap (λ x. x.db.users) v_is ∙ users, rw (ap (λ x. x.others) v_is ∙ left) tt) in
            (passed, (string_eq.equal_iff _ _).0 matches, ap (λ x. x.db.users) ends ∙ kept)
      ]

  guards_passed : (now : ℕ) (user : User) → verify_error p s now user ≡ none → IsVerifiable now user
  unfolding verify_error
  guards_passed now user h =
      let still : is_absent user.email_verified_at ≡ true = ground arith in
      elim (Option-cases user.email_verified_at) [
        | inr (t, e) ↦ absurd (ground arith)
        | inl unverified ↦ elim (Option-cases user.email_verification_expires_at) [
          | inl e ↦ absurd (ground arith)
          | inr (expires, e) ↦ record {
            unverified = unverified;
            expires = (expires, e, ground arith);
            attempts = ground arith;
            sent = λ q.
                absurd (ground (arith, string_eq.equal_iff user.email_verification_code_hash ""));
          }
        ]
      ]

  -- A VerifyEmail that succeeds, with no other request in between, was sent the code whose hash is stored for
  -- the user of the address, who was unverified, had fewer than five wrong codes, and had a stored hash with a time
  -- of expiry that had not passed; and of the users it changes only that one, who is verified at that time, with no
  -- hash, no time of expiry or of sending and no wrong codes left.
  pub verify_email_lem :
      (d : Draw) (email text : String) (meta : SessionMeta) (r : AuthResponse) (w : World)
      → w.others ≡ []
      → (verify_email p s d email text meta w).0 ≡ ok r
      → (user : User) × (find_email (normalize_email p s email) w.db ≡ some user)
        × IsVerifiable w.now user
        × (code_hash p s (normalize_email p s email) (trim_space text)
            ≡ user.email_verification_code_hash)
        × ((verify_email p s d email text meta w).1.db.users
            ≡ update (λ u. u.id == user.id) (once_verified w.now) w.db.users)
  unfolding verify_email
  verify_email_lem d email text meta r w alone h =
      let address : String = normalize_email p s email in
      let lookup : Action (Outcome Error User) = call (catch (Repository.find_by_email address)) in
      let last : User → Action AuthResponse = check_code p s d address (trim_space text) meta in
      let bad : Error = new 400 "invalid verification code" in
      let (found, run, h1, e1) =
        bind-ok lookup (λ found. lift (or_error p s bad found) >>= last) w r h in
      let v : World = (lookup w).1 in
      let here = call_alone (catch (Repository.find_by_email address)) w alone in
      let (user, run', h2, e2) = bind-ok (lift (or_error p s bad found)) last v r h1 in
      let v_db : v.db ≡ w.db = ap (λ x. x.1.db) here ∙ find_by_email-same address w in
      let v_now : v.now ≡ w.now = ap (λ x. x.1.now) here ∙ find_by_email-now address w in
      let v_alone : v.others ≡ [] =
        ap (λ x. x.1.others) here ∙ find_by_email-others address w ∙ alone in
      let same : (Repository.find_by_email address w).0 ≡ found =
        (let ends : ok (Repository.find_by_email address w).0 ≡ ok found =
            ap (λ x. x.0) (sym here) ∙ run.result in
          ground arith) in
      let row =
        lookup_effect p s address w user (same ∙ or_error-ok p s bad found user run'.result) in
      let (passed, hashed, users) =
        check_code_effect d address (trim_space text) meta user r v v_alone h2 in
      (
        user,
        row,
        guards_passed w.now user (subst (λ n. verify_error p s n user ≡ none) v_now passed),
        hashed,
        ap (λ x. x.db.users) (e1 ∙ e2) ∙ users ∙ rw (v_db, v_now) refl,
      )

-- ===== src/Users/Sessions.antt =====
-- The refresh tokens of internal/service/user_service.go, each of which is exchanged once.
use mathlib.Core.Path.{subst}
use rentcar_backend.Base.{
  ℕ, ◌==◌, nat_eq, string_eq, ◌≡◌, refl, ap, sym, ◌∙◌, Bool, true, false, String, List, [], ◌∷◌,
  none, ok, err, Outcome, exists, find, count, update, arith, Outcome-cases, Bool-cases, inl, inr,
}
use rentcar_backend.AppError.{Error, base, unauthorized, email_not_verified}
use rentcar_backend.Models.{User, AuthToken}
use rentcar_backend.Store.{
  Database, World, Action, ◌>>=◌, require, exec, attempt, call, yield, yield_to, catch,
}
use rentcar_backend.Store.Inversion.{bind-ok, require-ok}
use rentcar_backend.Store.Keeps.{Rely, Holds, yield-Holds}
use rentcar_backend.Rentals.Repository.{when}
use rentcar_backend.Rentals.Service.Handlers.{lift}
use rentcar_backend.Users.Repository
use rentcar_backend.Users.Tokens
use rentcar_backend.Users.Tokens.{
  has_hash, is_active, revoked, new_row, insert_token, revoke_tokens, is_unrevoked,
}
use rentcar_backend.Users.Platform.{Platform, Draw}
use rentcar_backend.Users.Opening.{create_auth_response-keeps}
use rentcar_backend.Users.Inputs.{Settings, SessionMeta, AuthResponse}
use rentcar_backend.Users.Service.{refresh, create_auth_response, is_absent, exchange, or_error}

-- A token with this hash was stored, and none with it can be used.
pub record IsSpent (hash : String) (db : Database) : Type 0 where
  pub stored : exists (λ t. t.token_hash == hash) db.tokens ≡ true
  pub unusable : exists (has_hash hash) db.tokens ≡ false

stored_revoked :
    (hash : String) (p : AuthToken → Bool) (now : ℕ) (ts : List AuthToken)
    → exists (λ t. t.token_hash == hash) (update p (revoked now) ts)
      ≡ exists (λ t. t.token_hash == hash) ts
stored_revoked hash p now [] = refl
stored_revoked hash p now (t ∷ ts) = ground (arith, stored_revoked hash p now ts)

unusable_revoked :
    (hash : String) (now : ℕ) (ts : List AuthToken)
    → exists (has_hash hash) (update (has_hash hash) (revoked now) ts) ≡ false
unusable_revoked hash now [] = refl
unusable_revoked hash now (t ∷ ts) = ground (arith, unusable_revoked hash now ts)

stored_counted :
    (hash : String) (ts : List AuthToken)
    → (count (has_hash hash) ts == 0) ≡ false
    → exists (λ t. t.token_hash == hash) ts ≡ true
stored_counted hash [] h = ground arith
stored_counted hash (t ∷ ts) h = ground (arith, stored_counted hash ts)

-- A revocation that succeeds leaves the token spent.
revoke-IsSpent :
    (hash : String) (w : World)
    → (Tokens.revoke_by_hash hash w).0 ≡ ok tt
    → IsSpent hash (Tokens.revoke_by_hash hash w).1.db
unfolding Tokens.revoke_by_hash exec attempt revoke_tokens
revoke-IsSpent hash w h =
    let stored = stored_counted hash w.db.tokens in
    let still = stored_revoked hash (has_hash hash) w.now w.db.tokens in
    let gone = unusable_revoked hash w.now w.db.tokens in
    record { stored = ground (arith, stored, still, gone); unusable = ground (arith, gone) }

create-IsSpent :
    (hash : String) (t : AuthToken) (w : World)
    → IsSpent hash w.db
    → IsSpent hash (Tokens.create t w).1.db
unfolding Tokens.create exec attempt insert_token
create-IsSpent hash t w h = elim (Bool-cases (t.token_hash == hash)) [
  | inl same ↦
      (let taken : exists (λ x. x.token_hash == t.token_hash) w.db.tokens ≡ true =
          rw ((string_eq.equal_iff t.token_hash hash).0 same) h.stored in
        record {
          stored = ground (arith, h.stored, taken);
          unusable = ground (arith, h.unusable, taken);
        })
  | inr other ↦ record {
    stored = ground (arith, h.stored, other);
    unusable = ground (arith, h.unusable, other);
  }
]

create-others : (t : AuthToken) (w : World) → (Tokens.create t w).1.others ≡ w.others
unfolding Tokens.create exec attempt
create-others t w = ground arith

module _ (p : Platform) (s : Settings) where
  -- Opening a session, for whichever user, keeps a token spent, on every branch, where it is spent and the
  -- requests that commit in between keep it so.
  pub create_auth_response-IsSpent :
      (hash : String) (d : Draw) (user : User) (meta : SessionMeta) (w : World)
      → IsSpent hash w.db
      → Rely (IsSpent hash) w.others
      → IsSpent hash (create_auth_response p s d user meta w).1.db
  create_auth_response-IsSpent hash d user meta w h r =
      create_auth_response-keeps p s (IsSpent hash) (create-IsSpent hash) d user meta w (h, r)

yield_to-Rely :
    (P : Database → Type 0) (fs : List (Database → Database)) (u : World)
    → Rely P fs
    → Rely P u.others
    → Rely P (yield_to fs u).others
yield_to-Rely P [] u k r = r
yield_to-Rely P (f ∷ fs) u k r = k.1

yield-Rely : (P : Database → Type 0) (w : World) → Rely P w.others → Rely P (yield w).others
yield-Rely P w r = yield_to-Rely P w.others w r r

find_active-others :
    (hash : String) (w : World) → (Tokens.find_active_by_hash hash w).1.others ≡ w.others
unfolding Tokens.find_active_by_hash exec attempt
find_active-others hash w = ground arith

find_by_id-others : (id : ℕ) (w : World) → (Repository.find_by_id id w).1.others ≡ w.others
unfolding Repository.find_by_id exec attempt
find_by_id-others id w = ground arith

revoke-others : (hash : String) (w : World) → (Tokens.revoke_by_hash hash w).1.others ≡ w.others
unfolding Tokens.revoke_by_hash exec attempt
revoke-others hash w = ground arith

none_active :
    (hash : String) (now : ℕ) (ts : List AuthToken)
    → exists (has_hash hash) ts ≡ false
    → find (is_active hash now) ts ≡ none
none_active hash now [] h = refl
none_active hash now (t ∷ ts) h = ground (arith, none_active hash now ts)

-- A spent token is not found.
spent_missing :
    (hash : String) (w : World)
    → IsSpent hash w.db
    → (e : Error) × ((Tokens.find_active_by_hash hash w).0 ≡ err e)
unfolding Tokens.find_active_by_hash exec attempt
spent_missing hash w h = elim (Outcome-cases (Tokens.find_active_by_hash hash w).0) [
  | inl (t, e) ↦ absurd (ground (arith, none_active hash w.now w.db.tokens h.unusable))
  | inr missing ↦ missing
]

module _ (p : Platform) (s : Settings) where
  -- A session is not renewed by a token that is spent.
  refresh_spent :
      (d : Draw) (token : String) (meta : SessionMeta) (w : World)
      → Holds (IsSpent (p.digest token)) w
      → (refresh p s d token meta w).0 ≡ err (base unauthorized)
  unfolding refresh call
  refresh_spent d token meta w h =
      let (e, missing) =
        spent_missing (p.digest token) (yield w) (yield-Holds (IsSpent (p.digest token)) w h).0 in
      rw missing refl

  exchanged-IsSpent :
      (d : Draw) (token : String) (meta : SessionMeta) (user : User) (r : AuthResponse) (w : World)
      → Rely (IsSpent (p.digest token)) w.others
      → (exchange p s d token meta user w).0 ≡ ok r
      → IsSpent (p.digest token) (exchange p s d token meta user w).1.db
  unfolding call
  exchanged-IsSpent d token meta user r w rely h =
      let P : Database → Type 0 = IsSpent (p.digest token) in
      let revoke : Action (Unit {0}) = call (Tokens.revoke_by_hash (p.digest token)) in
      let open_next : Unit {0} → Action AuthResponse = λ _. create_auth_response p s d user meta in
      let guard : Action (Unit {0}) =
        require (when (is_absent user.email_verified_at) (base email_not_verified)) in
      let (_, passed, rest, final) = bind-ok guard (λ _. revoke >>= open_next) w r h in
      let same : (guard w).1 ≡ w =
        (require-ok (when (is_absent user.email_verified_at) (base email_not_verified)) w
          passed.result).1 in
      let rest' : ((revoke >>= open_next) w).0 ≡ ok r = rw (← same) rest in
      let (_, run, after, ended) = bind-ok revoke open_next w r rest' in
      let spent : P (revoke w).1.db = revoke-IsSpent (p.digest token) (yield w) run.result in
      let left : Rely P (revoke w).1.others =
        rw (revoke-others (p.digest token) (yield w)) (yield-Rely P w rely) in
      let opened : P (open_next tt (revoke w).1).1.db =
        create_auth_response-IsSpent p s (p.digest token) d user meta (revoke w).1 spent left in
      let whole : (exchange p s d token meta user w).1 ≡ (open_next tt (revoke w).1).1 =
        final ∙ ap (λ v. ((revoke >>= open_next) v).1) same ∙ ended in
      subst (λ v. P v.db) (sym whole) opened

  refreshed-IsSpent :
      (d : Draw) (token : String) (meta : SessionMeta) (r : AuthResponse) (w : World)
      → Rely (IsSpent (p.digest token)) w.others
      → (refresh p s d token meta w).0 ≡ ok r
      → IsSpent (p.digest token) (refresh p s d token meta w).1.db
  unfolding refresh call
  refreshed-IsSpent d token meta r w rely h =
      let P : Database → Type 0 = IsSpent (p.digest token) in
      let lookup : Action (Outcome Error AuthToken) =
        call (catch (Tokens.find_active_by_hash (p.digest token))) in
      let last : User → Action AuthResponse = exchange p s d token meta in
      let load : AuthToken → Action User = λ stored. call (Repository.find_by_id stored.user_id) in
      let with_stored : AuthToken → Action AuthResponse = λ stored. load stored >>= last in
      let with_found : Outcome Error AuthToken → Action AuthResponse =
        λ found. lift (or_error p s (base unauthorized) found) >>= with_stored in
      let v : World = (lookup w).1 in
      let v_rely : Rely P v.others =
        rw (find_active-others (p.digest token) (yield w)) (yield-Rely P w rely) in
      let (found, _, h1, e1) = bind-ok lookup with_found w r h in
      let (stored, _, h2, e2) =
        bind-ok (lift (or_error p s (base unauthorized) found)) with_stored v r h1 in
      let (user, _, h3, e3) = bind-ok (load stored) last v r h2 in
      let u : World = (load stored v).1 in
      let u_rely : Rely P u.others =
        rw (find_by_id-others stored.user_id (yield v)) (yield-Rely P v v_rely) in
      subst (λ x. P x.db) (sym (e1 ∙ e2 ∙ e3)) (exchanged-IsSpent d token meta user r u u_rely h3)

  -- A refresh token is exchanged once: after a Refresh that succeeded, every Refresh with the same token, on
  -- the tables that it left, is unauthorized, whatever the client, the random numbers, the time and
  -- the faults. Other requests may commit at any time, as long as they keep a spent token spent.
  pub refresh_once :
      (d d' : Draw) (token : String) (meta meta' : SessionMeta) (r : AuthResponse) (w v : World)
      → Rely (IsSpent (p.digest token)) w.others
      → (refresh p s d token meta w).0 ≡ ok r
      → v.db ≡ (refresh p s d token meta w).1.db
      → Rely (IsSpent (p.digest token)) v.others
      → (refresh p s d' token meta' v).0 ≡ err (base unauthorized)
  refresh_once d d' token meta meta' r w v rely h same rely' =
      refresh_spent d' token meta' v (rw same (refreshed-IsSpent d token meta r w rely h), rely')

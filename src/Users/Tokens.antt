-- ===== src/Users/Tokens.antt =====
-- internal/repository/auth_token_repository.go.
use mathlib.Core.Option
use rentcar_backend.Base.{
  ℕ, suc, ◌==◌, nat_eq, string_eq, Bool, true, false, not, ◌&&◌, ltb, String, ◌∷◌, none, some, ok,
  exists, find, count, update,
}
use rentcar_backend.Models.{AuthToken}
use rentcar_backend.Store.{Database, Action, pure, ◌>>=◌, ◌>>◌, gets, exec, Statement}
use rentcar_backend.Store.Constraints.{
  one_row, refuse_if, find_user, is_some, foreign_key_violation, unique_violation,
}
use rentcar_backend.Rentals.Repository.{affects_row}

abbrev pub new_row : AuthToken → ℕ → Database → AuthToken
new_row t now db = record t {
  id = db.next_token;
  revoked_at = none;
  last_used_at = none;
  created_at = now;
}

-- `INSERT INTO auth_tokens … RETURNING id, created_at`, under migration 009.
unfoldable pub insert_token : AuthToken → ℕ → Statement AuthToken
insert_token t now db =
    refuse_if (exists (λ x. x.token_hash == t.token_hash) db.tokens)
      (unique_violation "auth_tokens_token_hash_key")
      (refuse_if (not (is_some (find_user t.user_id db)))
        (foreign_key_violation "auth_tokens_user_id_fkey")
        (ok (
          record t { id = db.next_token; created_at = now },
          record db { tokens = new_row t now db ∷ db.tokens; next_token = suc db.next_token },
        )))

-- `Create`
unfoldable pub create : AuthToken → Action AuthToken
create token = do now ← gets (λ w. w.now); exec (insert_token token now)

abbrev pub is_unrevoked : AuthToken → Bool
is_unrevoked t = elim t.revoked_at [ none ↦ true | some _ ↦ false ]

-- `token_hash = $1 AND revoked_at IS NULL AND expires_at > NOW()`
abbrev pub is_active : String → ℕ → AuthToken → Bool
is_active hash now t = t.token_hash == hash && is_unrevoked t && ltb now t.expires_at

-- `FindActiveByHash`
unfoldable pub find_active_by_hash : String → Action AuthToken
find_active_by_hash hash = do
  now ← gets (λ w. w.now)
  exec (λ db. one_row (Option.map (λ t. (t, db)) (find (is_active hash now) db.tokens)))

-- `UPDATE auth_tokens SET revoked_at = NOW() WHERE p`, with the rows affected.
abbrev pub revoked : ℕ → AuthToken → AuthToken
revoked now t = record t { revoked_at = some now }

unfoldable pub revoke_tokens : (AuthToken → Bool) → ℕ → Statement ℕ
revoke_tokens p now db =
    ok (count p db.tokens, record db { tokens = update p (revoked now) db.tokens })

abbrev pub has_hash : String → AuthToken → Bool
has_hash hash t = t.token_hash == hash && is_unrevoked t

-- `RevokeByHash`
unfoldable pub revoke_by_hash : String → Action (Unit {0})
revoke_by_hash hash = do
  now ← gets (λ w. w.now)
  affected ← exec (revoke_tokens (has_hash hash) now)
  affects_row affected

abbrev pub is_session_of : ℕ → AuthToken → Bool
is_session_of user t = t.user_id == user && is_unrevoked t

-- `RevokeAllByUserID`: the rows affected are not read.
unfoldable pub revoke_all_by_user_id : ℕ → Action (Unit {0})
revoke_all_by_user_id user = do
  now ← gets (λ w. w.now)
  exec (revoke_tokens (is_session_of user) now)
  pure tt

-- `Touch`
unfoldable pub touch : ℕ → Action (Unit {0})
touch id = do
  now ← gets (λ w. w.now)
  exec (λ db. ok (
    tt,
    record db {
      tokens = update (λ t. t.id == id) (λ t. record t { last_used_at = some now }) db.tokens;
    },
  ))
  pure tt

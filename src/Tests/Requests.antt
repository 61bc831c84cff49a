-- ===== src/Tests/Requests.antt =====
-- The theorems on the middleware at concrete requests.
use Prim.Native.String.{◌++◌}
use rentcar_backend.Base.{
  ℕ, ◌*◌, ◌≤◌, ◌≡◌, refl, sym, if◌then◌else◌, ◌&&◌, err, String, List, [], ◌∷◌, none, some, ok,
  true, false, All, arith, pos, nat_eq, ◌==◌,
}
use mathlib.Core.List.{◌++◌ as append}
use rentcar_backend.AppError.{no_rows}
use rentcar_backend.Models.{customer, user_role_eq}
use rentcar_backend.Text.{of_chars, trim_chars, is_space_code}
use rentcar_backend.Users.Platform.{Platform}
use rentcar_backend.Middleware.RateLimiter.{RateLimitConfig, Request, new_limiter, serve, InOrder}
use rentcar_backend.Middleware.RateLimiter.Ideal.{ideal_serve, serve-ideal_serve}
use rentcar_backend.Middleware.RateLimiter.Bounds.{
  Local, admitted_of, admitted-le, admitted-le_twice,
}
use rentcar_backend.Middleware.Access.{require_auth}
use rentcar_backend.Middleware.Bearer.{VerifiesSigned, require_auth-generate_token}
use rentcar_backend.Middleware.Origins.{parse_allowed_origins}
use rentcar_backend.Middleware.Configured.{IsClean, joined, parse_allowed_origins-joined}
use rentcar_backend.Redis.{Text, command, increment, int64, word_incr}
use rentcar_backend.Redis.Protocol.{read_command, read_command-command}
use rentcar_backend.Redis.Replies.{healthy, answers, commands, increment_lem}
use rentcar_backend.Tests.Data.{ann}
use rentcar_backend.Tests.Accounts.{demo}

abbrev second : ℕ
second = 1_000_000_000

-- Two requests in ten seconds, and three that ask: the third is refused.
abbrev two_in_ten : RateLimitConfig
two_in_ten = record { max_requests = 2; window = 10 * second }

abbrev visit : ℕ → Request
visit now = record { client_ip = "10.0.0.1"; now = now; later = now; store = none }

abbrev three_visits : List Request
three_visits = visit (1 * second) ∷ visit (2 * second) ∷ visit (3 * second) ∷ []

three_visits-InOrder : InOrder second three_visits
three_visits-InOrder = (refl, (refl, (refl, tt)))

three_visits-Local : Local (11 * second) three_visits
three_visits-Local = (refl, refl, (refl, refl, (refl, refl, tt)))

serve-ideal_serve_example :
    serve two_in_ten three_visits (new_limiter second)
    ≡ ideal_serve two_in_ten three_visits (λ _. record { count = 0; reset_time = 0 })
serve-ideal_serve_example = serve-ideal_serve two_in_ten three_visits second three_visits-InOrder

admitted-le_twice_example :
    admitted_of "10.0.0.1" three_visits (serve two_in_ten three_visits (new_limiter second)) ≤ 4
admitted-le_twice_example =
    admitted-le_twice two_in_ten second (11 * second) "10.0.0.1" three_visits (new_limiter second)
      refl three_visits-InOrder three_visits-Local refl

admitted-le_example :
    admitted_of "10.0.0.1" three_visits (serve two_in_ten three_visits (new_limiter second)) ≤ 2
admitted-le_example =
    admitted-le two_in_ten second (11 * second) "10.0.0.1" three_visits (new_limiter second) refl
      three_visits-InOrder three_visits-Local refl refl

abbrev key : Text
key = b'k' ∷ 13 ∷ 10 ∷ b'y' ∷ []

read_command-command_example :
    read_command (append (command (word_incr ∷ key ∷ [])) (b'*' ∷ []))
    ≡ some (word_incr ∷ key ∷ [], b'*' ∷ [])
read_command-command_example = read_command-command (word_incr ∷ key ∷ []) (b'*' ∷ [])

increment_lem_example :
    increment
      (record { username = []; password = []; db = 0 })
      key
      (60 * second)
      (healthy [] (answers 1 1 60 []))
    ≡ (
      ok (record { count = pos 1; reset_after = int64 (60 * 1_000_000_000) }),
      healthy (commands key (60 * second) 1) [],
    )
increment_lem_example = increment_lem [] key (60 * second) 1 1 60 [] refl refl refl

-- A library that signs for one user alone.
abbrev one_user : Platform
one_user = record demo {
  sign = λ m c secret. if c.user_id == 1 && c.role == customer then ok "signed" else err no_rows;
}

one_user_verifies : VerifiesSigned one_user
one_user_verifies = record {
  accepts = λ c secret text key now made keyed live.
      let checks : (c.user_id == 1 && c.role == customer) ≡ true = ground arith in
      let same_role : (c.role == customer) ≡ true = ground arith in
      (
        record { user_id = 1; role = customer; subject = "1"; issued_at = 0; expires_at = 0 },
        refl,
        ground arith,
        sym ((user_role_eq.equal_iff c.role customer).0 same_role),
      );
}

require_auth-generate_token_example :
    require_auth one_user "secret" 0 ("Bearer " ++ "signed")
    ≡ ok (record { user_id = 1; role = customer })
require_auth-generate_token_example =
    require_auth-generate_token one_user ann "secret" "signed" 0 (60 * second) 0 one_user_verifies
      refl refl refl

abbrev two_origins : List String
two_origins = "https://rent.uz" ∷ "https://admin.rent.uz" ∷ []

two_origins-IsClean : All IsClean two_origins
unfolding trim_chars is_space_code
two_origins-IsClean = (
  record { no_comma = refl; trimmed = refl; some_text = refl },
  (record { no_comma = refl; trimmed = refl; some_text = refl }, tt),
)

parse_allowed_origins-joined_example :
    parse_allowed_origins (of_chars (joined two_origins)) false ≡ two_origins
parse_allowed_origins-joined_example = parse_allowed_origins-joined two_origins two_origins-IsClean

-- ===== src/Redis.antt =====
-- internal/cache/redis_rate_store.go. A text is a list of code points; the length of an argument counts its
-- bytes in UTF-8.
pub mod Protocol
pub mod Replies
use mathlib.Core.List.{reverse}
use rentcar_backend.Base.{
  ℕ, suc, ◌+◌, ◌-◌, ◌*◌, ◌/◌, ◌%◌, ◌^◌, ◌==◌, nat_eq, if◌then◌else◌, Bool, true, false, not, ◌&&◌,
  ◌||◌, ltb, List, [], ◌∷◌, ◌++◌, Option, none, some, Outcome, ok, err, ℤ, pos, negsuc,
}
use rentcar_backend.AppError.{Cause, failure}
use rentcar_backend.Text.{is_space_code}
use rentcar_backend.Text.Decimal.{itoa, parse_below}
use rentcar_backend.Middleware.RateLimiter.{RateLimitState}

abbrev pub Text : Type 0
Text = List ℕ

-- A connection: the commands that were written, what the server sends, and the error of each call of
-- the network, where it has one.
pub record Connection : Type 0 where
  pub sent : List Text
  pub received : Text
  pub faults : List (Option Cause)

abbrev pub Session : Type 0 → Type 0
Session A = Connection → Outcome Cause A × Connection

abbrev pub pure : {A : Type 0} → A → Session A
pure a c = (ok a, c)

abbrev pub fail : {A : Type 0} → Cause → Session A
fail e c = (err e, c)

infixl 5 ◌>>=◌ ◌>>◌
abbrev pub ◌>>=◌ : {A B : Type 0} → Session A → (A → Session B) → Session B
◌>>=◌ m f c = let (r, c') = m c in elim r [ ok a ↦ f a c' | err e ↦ (err e, c') ]

abbrev pub ◌>>◌ : {A B : Type 0} → Session A → Session B → Session B
m >> k = m >>= λ _. k

-- A call of the network, which may fail.
abbrev pub network : Session (Unit {0})
network c = elim c.faults [
  | [] ↦ (ok tt, c)
  | none ∷ rest ↦ (ok tt, record c { faults = rest })
  | some e ∷ rest ↦ (err e, record c { faults = rest })
]

abbrev pub width : ℕ → ℕ
width c = if ltb c 0x80 then 1 else if ltb c 0x800 then 2 else if ltb c 0x10000 then 3 else 4

-- `len` of a text
abbrev pub len : Text → ℕ
len [] = 0
len (c ∷ cs) = width c + len cs

abbrev pub length {ℓ} : {A : Type ℓ} → List A → ℕ
length [] = 0
length (x ∷ xs) = suc (length xs)

abbrev pub crlf : Text
crlf = 13 ∷ 10 ∷ []

abbrev pub bulks : List Text → Text
bulks [] = []
bulks (arg ∷ args) = b'$' ∷ (itoa (len arg) ++ (crlf ++ (arg ++ (crlf ++ bulks args))))

-- What `writeCommand` writes.
unfoldable pub command : List Text → Text
command args = b'*' ∷ (itoa (length args) ++ (crlf ++ bulks args))

-- `writeCommand`
abbrev pub write_command : List Text → Session (Unit {0})
write_command args = network >>= λ _. λ c. (ok tt, record c { sent = command args ∷ c.sent })

-- `strings.TrimSuffix(line, "\r")`
abbrev pub without_return : Text → Text
without_return [] = []
without_return (c ∷ cs) =
    let rest = without_return cs in
    if c == 13 then elim cs [ [] ↦ [] | _ ∷ _ ↦ c ∷ rest ] else c ∷ rest

-- A text up to the end of the line, and what follows.
abbrev pub line_of : Text → Option (Text × Text)
line_of [] = none
line_of (c ∷ cs) =
    let rest = line_of cs in
    if c == 10
    then some ([], cs)
    else elim rest [ none ↦ none | some (line, after) ↦ some (c ∷ line, after) ]

abbrev receive : Session Text
receive c = elim (line_of c.received) [
  | none ↦ (err (failure "EOF"), record c { received = [] })
  | some (line, rest) ↦ (ok (without_return line), record c { received = rest })
]

-- `readLine`
abbrev pub read_line : Session Text
read_line = network >> receive

abbrev skip_space : Text → Text
skip_space [] = []
skip_space (c ∷ cs) = let rest = skip_space cs in if is_space_code c then rest else c ∷ cs

-- `strings.TrimSpace`
unfoldable pub trim_space : Text → Text
trim_space cs = reverse (skip_space (reverse (skip_space cs)))

abbrev negated : ℕ → ℤ
negated n = if n == 0 then pos 0 else negsuc (n - 1)

abbrev found : (ℕ → ℤ) → Option ℕ → Outcome Cause ℤ
found f none = err (failure "strconv.Atoi")
found f (some n) = ok (f n)

-- `strconv.Atoi`: a sign, and digits within 64 bits
unfoldable pub atoi : Text → Outcome Cause ℤ
unfolding parse_below
atoi [] = err (failure "strconv.Atoi")
atoi (c ∷ cs) =
    if c == b'-'
    then found negated (parse_below (2 ^ 63 + 1) cs)
    else if c == b'+'
    then found pos (parse_below (2 ^ 63) cs)
    else found pos (parse_below (2 ^ 63) (c ∷ cs))

-- How `readInt` reads a line; the text of an error is not kept.
abbrev pub int_of_line : Text → Outcome Cause ℤ
int_of_line [] = err (failure "expected integer redis reply")
int_of_line (c ∷ cs) =
    if c == b'-'
    then err (failure "redis error")
    else if c == b':'
    then atoi (trim_space cs)
    else err (failure "expected integer redis reply")

abbrev pub lift : {A : Type 0} → Outcome Cause A → Session A
lift r c = (r, c)

-- `readInt`
abbrev pub read_int : Session ℤ
read_int = read_line >>= λ line. lift (int_of_line line)

abbrev begins_with_ok : Text → Bool
begins_with_ok (a ∷ b ∷ c ∷ _) = a == b'+' && b == b'O' && c == b'K'
begins_with_ok _ = false

-- `sendExpectOK`
abbrev pub send_expect_ok : List Text → Session (Unit {0})
send_expect_ok args = do
  write_command args
  reply ← read_line
  if begins_with_ok reply then pure tt else fail (failure "unexpected redis reply")

-- `RedisRateLimitStore`; a database below 0 is 0.
pub record RedisRateLimitStore : Type 0 where
  pub username : Text
  pub password : Text
  pub db : ℕ

abbrev is_empty : Text → Bool
is_empty [] = true
is_empty (_ ∷ _) = false

abbrev word_auth : Text
word_auth = b'A' ∷ b'U' ∷ b'T' ∷ b'H' ∷ []

abbrev word_select : Text
word_select = b'S' ∷ b'E' ∷ b'L' ∷ b'E' ∷ b'C' ∷ b'T' ∷ []

abbrev pub word_incr : Text
word_incr = b'I' ∷ b'N' ∷ b'C' ∷ b'R' ∷ []

abbrev pub word_expire : Text
word_expire = b'E' ∷ b'X' ∷ b'P' ∷ b'I' ∷ b'R' ∷ b'E' ∷ []

abbrev pub word_ttl : Text
word_ttl = b'T' ∷ b'T' ∷ b'L' ∷ []

-- The start of `Increment`: the password and the database.
abbrev authenticate : RedisRateLimitStore → Session (Unit {0})
authenticate s =
    if is_empty s.password
    then pure tt
    else if is_empty s.username
    then send_expect_ok (word_auth ∷ s.password ∷ [])
    else send_expect_ok (word_auth ∷ s.username ∷ s.password ∷ [])

abbrev select_db : RedisRateLimitStore → Session (Unit {0})
select_db s = if ltb 0 s.db then send_expect_ok (word_select ∷ itoa s.db ∷ []) else pure tt

-- `int(window.Seconds())`
abbrev pub seconds : ℕ → ℕ
seconds window = window / 1_000_000_000

-- The first count of a key starts its window.
abbrev pub expire_first : Text → ℕ → ℤ → Session (Unit {0})
expire_first key window (negsuc n) = pure tt
expire_first key window (pos n) =
    if n == 1
    then (do
      write_command (word_expire ∷ key ∷ itoa (seconds window) ∷ [])
      set ← read_int
      pure tt)
    else pure tt

-- `time.Duration(ttl) * time.Second`, which wraps at 64 bits; a key without an end has the window.
abbrev pub int64 : ℕ → ℤ
int64 n = let m = n % 2 ^ 64 in if ltb m (2 ^ 63) then pos m else negsuc (2 ^ 64 - 1 - m)

abbrev pub duration_of : ℕ → ℤ → ℤ
duration_of window (pos ttl) = int64 (ttl * 1_000_000_000)
duration_of window (negsuc n) = int64 (seconds window * 1_000_000_000)

-- `Increment`; the first call of the network is `DialContext`.
unfoldable pub increment : RedisRateLimitStore → Text → ℕ → Session RateLimitState
unfolding command
increment s key window = do
  network
  authenticate s
  select_db s
  write_command (word_incr ∷ key ∷ [])
  count ← read_int
  expire_first key window count
  write_command (word_ttl ∷ key ∷ [])
  ttl ← read_int
  pure (record { count = count; reset_after = duration_of window ttl })

-- ===== src/Redis/Replies.antt =====
-- The integers that a server answers, as `readInt` reads them, and the conversation of `Increment`.
use mathlib.Core.List.{reverse, reverse_aux, reverse-reverse}
use rentcar_backend.Base.{
  ℕ, ◌*◌, ◌^◌, ◌==◌, nat_eq, ◌≡◌, refl, ap, ◌∙◌, if◌then◌else◌, true, false, ltb, List, [], ◌∷◌,
  ◌++◌, none, some, arith, ok, err, pos, Bool-cases, inl, inr, ℤ,
}
use rentcar_backend.AppError.{failure}
use rentcar_backend.Text.{is_space_code}
use rentcar_backend.Text.Decimal.{
  itoa, is_digit, all_digits, value_from, value-padded, padded_digits, parse_below, itoa-cons,
}
use rentcar_backend.Middleware.RateLimiter.{RateLimitState}
use rentcar_backend.Redis.{
  Text, Connection, Session, crlf, command, write_command, line_of, without_return, skip_space,
  trim_space, atoi, int_of_line, read_int, read_line, lift, expire_first, seconds, word_incr,
  word_expire, word_ttl, int64, duration_of, increment, ◌>>=◌, pure,
}

digits-reverse_aux :
    (xs r : Text)
    → all_digits xs ≡ true
    → all_digits r ≡ true
    → all_digits (reverse_aux xs r) ≡ true
digits-reverse_aux [] r h k = k
digits-reverse_aux (x ∷ xs) r h k = digits-reverse_aux xs (x ∷ r) (ground arith) (ground arith)

digit_solid : (c : ℕ) → is_digit c ≡ true → is_space_code c ≡ false
unfolding is_space_code
digit_solid c h = ground arith

skip_digits : (xs : Text) → all_digits xs ≡ true → skip_space xs ≡ xs
skip_digits [] h = refl
skip_digits (c ∷ cs) h = ground (arith, digit_solid c)

trim_digits : (xs : Text) → all_digits xs ≡ true → trim_space xs ≡ xs
unfolding trim_space
trim_digits xs h =
    rw
      (
        skip_digits xs h,
        skip_digits (reverse xs) (digits-reverse_aux xs [] h refl),
        reverse-reverse xs,
      )
      refl

-- The digits of a line that ends as the protocol ends lines.
line_of-digits :
    (ds rest : Text)
    → all_digits ds ≡ true
    → line_of (ds ++ (crlf ++ rest)) ≡ some (ds ++ (13 ∷ []), rest)
line_of-digits [] rest h = refl
line_of-digits (d ∷ ds) rest h = ground (arith, line_of-digits ds rest)

without_return-digits : (ds : Text) → all_digits ds ≡ true → without_return (ds ++ (13 ∷ [])) ≡ ds
without_return-digits [] h = refl
without_return-digits (d ∷ ds) h = ground (arith, without_return-digits ds)

atoi-digits :
    (d : ℕ) (ds : Text)
    → all_digits (d ∷ ds) ≡ true
    → ltb (value_from 0 (d ∷ ds)) (2 ^ 63) ≡ true
    → atoi (d ∷ ds) ≡ ok (pos (value_from 0 (d ∷ ds)))
unfolding atoi parse_below
atoi-digits d ds h k = ground arith

atoi_of :
    (d : ℕ) (t ds : Text)
    → ds ≡ d ∷ t
    → all_digits ds ≡ true
    → ltb (value_from 0 ds) (2 ^ 63) ≡ true
    → atoi ds ≡ ok (pos (value_from 0 ds))
atoi_of d t ds e h k = rw e (atoi-digits d t (rw e at h) (rw e at k))

-- `strconv.Atoi` reads what `strconv.Itoa` writes, below the largest integer.
pub atoi-itoa : (n : ℕ) → ltb n (2 ^ 63) ≡ true → atoi (itoa n) ≡ ok (pos n)
atoi-itoa n h =
    let (d, ds, e) = itoa-cons n in
    atoi_of d ds (itoa n) e (padded_digits 1 n) (rw (value-padded 1 n) h)
    ∙ ap (λ k. ok (pos k)) (value-padded 1 n)

-- How the protocol writes an integer.
abbrev pub reply : ℕ → Text → Text
reply n rest = b':' ∷ (itoa n ++ (crlf ++ rest))

line_of-reply :
    (n : ℕ) (rest : Text) → line_of (reply n rest) ≡ some (b':' ∷ (itoa n ++ (13 ∷ [])), rest)
line_of-reply n rest = ground (arith, line_of-digits (itoa n) rest (padded_digits 1 n))

bind-ok :
    {A B : Type 0} (m : Session A) (f : A → Session B) (c c' : Connection) (a : A)
    → m c ≡ (ok a, c')
    → (m >>= f) c ≡ f a c'
bind-ok m f c c' a e = ap (λ r. elim r.0 [ ok x ↦ f x r.1 | err x ↦ (err x, r.1) ]) e

-- A connection on which nothing fails.
abbrev pub healthy : List Text → Text → Connection
healthy sent received = record { sent = sent; received = received; faults = [] }

read_line-of :
    (text line rest : Text) (sent : List Text)
    → line_of text ≡ some (line, rest)
    → read_line (healthy sent text) ≡ (ok (without_return line), healthy sent rest)
read_line-of text line rest sent e =
    ap
      (λ o. elim o [
        | none ↦ (err (failure "EOF"), healthy sent [])
        | some x ↦ (ok (without_return x.0), healthy sent x.1)
      ])
      e

line-reply :
    (n : ℕ)
    → ltb n (2 ^ 63) ≡ true
    → int_of_line (without_return (b':' ∷ (itoa n ++ (13 ∷ [])))) ≡ ok (pos n)
line-reply n h =
    let whole : without_return (b':' ∷ (itoa n ++ (13 ∷ []))) ≡ b':' ∷ itoa n =
      ap (λ xs. b':' ∷ xs) (without_return-digits (itoa n) (padded_digits 1 n)) in
    ap int_of_line whole ∙ ap atoi (trim_digits (itoa n) (padded_digits 1 n)) ∙ atoi-itoa n h

-- `readInt` reads an integer that the protocol writes, and nothing after it.
pub read_int-reply :
    (n : ℕ) (rest : Text) (sent : List Text)
    → ltb n (2 ^ 63) ≡ true
    → read_int (healthy sent (reply n rest)) ≡ (ok (pos n), healthy sent rest)
read_int-reply n rest sent h =
    let line = b':' ∷ (itoa n ++ (13 ∷ [])) in
    bind-ok read_line (λ l. lift (int_of_line l)) (healthy sent (reply n rest)) (healthy sent rest)
      (without_return line) (read_line-of (reply n rest) line rest sent (line_of-reply n rest))
    ∙ ap (λ r. (r, healthy sent rest)) (line-reply n h)

-- What the server answers to `INCR`, to `EXPIRE` after a first count, and to `TTL`.
abbrev pub answers : ℕ → ℕ → ℕ → Text → Text
answers count set ttl rest =
    reply count (if count == 1 then reply set (reply ttl rest) else reply ttl rest)

-- What `Increment` sends for them, last first: the key gets an end with its first count alone.
abbrev pub commands : Text → ℕ → ℕ → List Text
commands key window count =
    let incr = command (word_incr ∷ key ∷ []) ∷ [] in
    command (word_ttl ∷ key ∷ [])
    ∷ (if count == 1 then command (word_expire ∷ key ∷ itoa (seconds window) ∷ []) ∷ incr else incr)

module _ (key : Text) (window : ℕ) where
  -- `Increment` from where `INCR` has been counted, and from where the key has its end.
  abbrev last_step : ℤ → Session RateLimitState
  last_step count = write_command (word_ttl ∷ key ∷ []) >>= λ _.
      read_int >>= λ ttl. pure (record { count = count; reset_after = duration_of window ttl })

  abbrev counted_step : ℤ → Session RateLimitState
  counted_step count = expire_first key window count >>= λ _. last_step count

  last-ok :
      (count ttl : ℕ) (rest : Text) (sent : List Text)
      → ltb ttl (2 ^ 63) ≡ true
      → last_step (pos count) (healthy sent (reply ttl rest)) ≡ (
        ok (record { count = pos count; reset_after = int64 (ttl * 1_000_000_000) }),
        healthy (command (word_ttl ∷ key ∷ []) ∷ sent) rest,
      )
  last-ok count ttl rest sent h =
      let sent' : List Text = command (word_ttl ∷ key ∷ []) ∷ sent in
      bind-ok read_int
        (λ ttl. pure (record { count = pos count; reset_after = duration_of window ttl }))
        (healthy sent' (reply ttl rest)) (healthy sent' rest) (pos ttl)
        (read_int-reply ttl rest sent' h)

  expire-ok :
      (count set : ℕ) (rest : Text) (sent : List Text)
      → ltb set (2 ^ 63) ≡ true
      → expire_first key window
          (pos count)
          (healthy sent (if count == 1 then reply set rest else rest))
        ≡ (
          ok tt,
          healthy
              (if count == 1
                then command (word_expire ∷ key ∷ itoa (seconds window) ∷ []) ∷ sent
                else sent)
              rest,
        )
  expire-ok count set rest sent h = elim (Bool-cases (count == 1)) [
    | inl first ↦
        let sent' : List Text = command (word_expire ∷ key ∷ itoa (seconds window) ∷ []) ∷ sent in
        rw first (
          bind-ok read_int (λ _. pure tt) (healthy sent' (reply set rest)) (healthy sent' rest)
            (pos set) (read_int-reply set rest sent' h))
    | inr later ↦ rw later refl
  ]

-- Where the network does not fail and there is neither a password nor a database to select, `Increment`
-- against a server that answers by the protocol returns the count and the time to live that the server
-- states, has sent `INCR`, after a first count `EXPIRE`, and `TTL`, and leaves what follows unread.
pub increment_lem :
    (user key : Text) (window count set ttl : ℕ) (rest : Text)
    → ltb count (2 ^ 63) ≡ true
    → ltb set (2 ^ 63) ≡ true
    → ltb ttl (2 ^ 63) ≡ true
    → increment
        (record { username = user; password = []; db = 0 })
        key
        window
        (healthy [] (answers count set ttl rest))
      ≡ (
        ok (record { count = pos count; reset_after = int64 (ttl * 1_000_000_000) }),
        healthy (commands key window count) rest,
      )
unfolding increment
increment_lem user key window count set ttl rest hc hs ht =
    let first : List Text = command (word_incr ∷ key ∷ []) ∷ [] in
    let after : Text = if count == 1 then reply set (reply ttl rest) else reply ttl rest in
    let sent : List Text =
      if count == 1
      then command (word_expire ∷ key ∷ itoa (seconds window) ∷ []) ∷ first
      else first in
    bind-ok read_int (counted_step key window) (healthy first (reply count after))
      (healthy first after) (pos count) (read_int-reply count after first hc)
    ∙ bind-ok (expire_first key window (pos count)) (λ _. last_step key window (pos count))
        (healthy first after) (healthy sent (reply ttl rest)) tt
        (expire-ok key window count set (reply ttl rest) first hs)
    ∙ last-ok key window count ttl rest sent ht

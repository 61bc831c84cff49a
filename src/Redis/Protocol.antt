-- ===== src/Redis/Protocol.antt =====
-- Commands as a server reads them, by the protocol: arrays of bulk strings.
use mathlib.Core.List.{append_assoc}
use rentcar_backend.Base.{
  ℕ, zero, suc, ◌+◌, ◌-◌, ◌*◌, ◌==◌, nat_eq, ◌≡◌, refl, ap, ◌∙◌, if◌then◌else◌, true, ltb, List, [],
  ◌∷◌, ◌++◌, Option, none, some, arith,
}
use rentcar_backend.Text.Decimal.{
  itoa, is_digit, all_digits, value_from, value-padded, padded_digits,
}
use rentcar_backend.Redis.{Text, width, len, length, crlf, bulks, command}

-- The number at the start of a text, and what follows it.
abbrev read_number : ℕ → Text → ℕ × Text
read_number n [] = (n, [])
read_number n (c ∷ cs) =
    let rest = read_number (n * 10 + (c - b'0')) cs in if is_digit c then rest else (n, c ∷ cs)

-- So many bytes, and what follows them.
abbrev take_bytes : ℕ → Text → Option (Text × Text)
take_bytes n [] = if n == 0 then some ([], []) else none
take_bytes n (c ∷ cs) =
    let rest = take_bytes (n - width c) cs in
    if n == 0
    then some ([], c ∷ cs)
    else if ltb n (width c)
    then none
    else elim rest [ none ↦ none | some (taken, after) ↦ some (c ∷ taken, after) ]

abbrev expect : Text → Text → Option Text
expect [] text = some text
expect (c ∷ cs) [] = none
expect (c ∷ cs) (d ∷ ds) = if c == d then expect cs ds else none

infixl 5 ◌>>=◌
abbrev ◌>>=◌ : {A B : Type 0} → Option A → (A → Option B) → Option B
none >>= f = none
some a >>= f = f a

abbrev read_bulk : Text → Option (Text × Text)
read_bulk text = do
  text ← expect (b'$' ∷ []) text
  let (n, text) = read_number 0 text
  text ← expect crlf text
  (arg, text) ← take_bytes n text
  text ← expect crlf text
  some (arg, text)

abbrev read_bulks : ℕ → Text → Option (List Text × Text)
read_bulks zero text = some ([], text)
read_bulks (suc n) text = do
  (arg, text) ← read_bulk text
  (args, text) ← read_bulks n text
  some (arg ∷ args, text)

-- How a server reads a command.
unfoldable pub read_command : Text → Option (List Text × Text)
read_command text = do
  text ← expect (b'*' ∷ []) text
  let (n, text) = read_number 0 text
  text ← expect crlf text
  read_bulks n text

number-append :
    (ds rest : Text) (n : ℕ)
    → all_digits ds ≡ true
    → read_number n (ds ++ (crlf ++ rest)) ≡ (value_from n ds, crlf ++ rest)
number-append [] rest n h = refl
number-append (d ∷ ds) rest n h = ground (arith, number-append ds rest (n * 10 + (d - b'0')))

read_number-itoa :
    (n : ℕ) (rest : Text) → read_number 0 (itoa n ++ (crlf ++ rest)) ≡ (n, crlf ++ rest)
read_number-itoa n rest =
    number-append (itoa n) rest 0 (padded_digits 1 n)
    ∙ ap (λ k. (k, crlf ++ rest)) (value-padded 1 n)

take_bytes-append : (text rest : Text) → take_bytes (len text) (text ++ rest) ≡ some (text, rest)
take_bytes-append [] [] = refl
take_bytes-append [] (c ∷ cs) = refl
take_bytes-append (c ∷ cs) rest = ground (arith, take_bytes-append cs rest)

abbrev bulk : Text → Text → Text
bulk arg rest = b'$' ∷ (itoa (len arg) ++ (crlf ++ (arg ++ (crlf ++ rest))))

read_bulk-append : (arg rest : Text) → read_bulk (bulk arg rest) ≡ some (arg, rest)
read_bulk-append arg rest =
    rw (read_number-itoa (len arg) (arg ++ (crlf ++ rest)), take_bytes-append arg (crlf ++ rest))
      refl

bulks-append :
    (arg : Text) (args : List Text) (rest : Text)
    → bulks (arg ∷ args) ++ rest ≡ bulk arg (bulks args ++ rest)
bulks-append arg args rest = simp append_assoc refl

read_bulks-append :
    (args : List Text) (rest : Text)
    → read_bulks (length args) (bulks args ++ rest) ≡ some (args, rest)
read_bulks-append [] rest = refl
read_bulks-append (arg ∷ args) rest =
    ap (read_bulks (length (arg ∷ args))) (bulks-append arg args rest)
    ∙ rw (read_bulk-append arg (bulks args ++ rest), read_bulks-append args rest) refl

command-append :
    (args : List Text) (rest : Text)
    → command args ++ rest ≡ b'*' ∷ (itoa (length args) ++ (crlf ++ (bulks args ++ rest)))
unfolding command
command-append args rest = simp append_assoc refl

-- A server that reads what `writeCommand` wrote, with anything after it, reads exactly the arguments,
-- whatever characters they have.
pub read_command-command :
    (args : List Text) (rest : Text) → read_command (command args ++ rest) ≡ some (args, rest)
unfolding read_command
read_command-command args rest =
    ap read_command (command-append args rest)
    ∙ rw (read_number-itoa (length args) (bulks args ++ rest), read_bulks-append args rest) refl

-- ===== src/Store/Inversion.antt =====
-- What a call that succeeded says of the calls that it is made of.
use rentcar_backend.Base.{◌≡◌, refl, Option, none, some, ok, arith, Outcome-cases, inl, inr}
use rentcar_backend.AppError.{Error}
use rentcar_backend.Store.Schema.{World}
use rentcar_backend.Store.Exec.{Action, Statement, ◌>>=◌, require, exec, transaction, nothing}

-- `m` succeeds at `w` with `a`, and leaves `v`.
pub record Runs {A : Type 0} (m : Action A) (w : World) (a : A) (v : World) : Type 0 where
  pub result : (m w).0 ≡ ok a
  pub after : (m w).1 ≡ v

module _ {A B : Type 0} (m : Action A) (f : A → Action B) where
  pub bind-ok :
      (w : World) (b : B)
      → ((m >>= f) w).0 ≡ ok b
      → (a : A) × Runs m w a (m w).1
        × ((f a (m w).1).0 ≡ ok b)
        × (((m >>= f) w).1 ≡ (f a (m w).1).1)
  bind-ok w b h = elim (Outcome-cases (m w).0) [
    | inl (a, e) ↦ (a, record { result = e; after = refl }, ground arith, ground arith)
    | inr (x, e) ↦ absurd (ground arith)
  ]

pub require-ok :
    (o : Option Error) (w : World) → (require o w).0 ≡ ok tt → (o ≡ none) × ((require o w).1 ≡ w)
require-ok none w h = (refl, refl)
require-ok (some e) w h = absurd (ground arith)

-- A statement that succeeded has had its effect, and the time is the same.
pub exec-ok :
    {A : Type 0} (s : Statement A) (w : World) (a : A)
    → (exec s w).0 ≡ ok a
    → (s w.db ≡ ok (a, (exec s w).1.db)) × ((exec s w).1.now ≡ w.now)
unfolding exec
exec-ok s w a h = (ground arith, ground arith)

-- A transaction that succeeded is a run of its body on the same tables at the same time.
pub transaction-ok :
    {A : Type 0} (body : Action A) (w : World) (a : A)
    → (transaction body w).0 ≡ ok a
    → (u : World) × (u.db ≡ w.db)
      × (u.now ≡ w.now)
      × ((body u).0 ≡ ok a)
      × ((transaction body w).1.db ≡ (body u).1.db)
unfolding transaction
transaction-ok body w a h = elim (Outcome-cases (body (exec nothing w).1).0) [
  | inl (b, e) ↦ ((exec nothing w).1, ground arith, ground arith, ground arith, ground arith)
  | inr (x, e) ↦ absurd (ground arith)
]

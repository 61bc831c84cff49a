-- ===== src/Store/Exec.antt =====
-- A call of the repositories: it may return an error, and leaves a world either way.
use rentcar_backend.Base.{ℕ, ◌/◌, Option, none, some, List, [], ◌∷◌, Outcome, ok, err}
use rentcar_backend.AppError.{Cause, Error, map_cause}
use rentcar_backend.Store.Schema.{Database, World}

abbrev pub Action : Type 0 → Type 0
Action A = World → Outcome Error A × World

abbrev pub pure : {A : Type 0} → A → Action A
pure a w = (ok a, w)

abbrev pub fail : {A : Type 0} → Error → Action A
fail e w = (err e, w)

infixl 5 ◌>>=◌ ◌>>◌
abbrev pub ◌>>=◌ : {A B : Type 0} → Action A → (A → Action B) → Action B
◌>>=◌ m f w = let (r, w') = m w in elim r [ ok a ↦ f a w' | err e ↦ (err e, w') ]

abbrev pub ◌>>◌ : {A B : Type 0} → Action A → Action B → Action B
m >> k = m >>= λ _. k

-- A guard that returns an error: `if err := …; err != nil { return err }`.
abbrev pub require : Option Error → Action (Unit {0})
require none w = (ok tt, w)
require (some e) w = (err e, w)

abbrev pub gets : {A : Type 0} → (World → A) → Action A
gets f w = (ok (f w), w)

abbrev pub pop_fault : List (Option Cause) → Option Cause × List (Option Cause)
pop_fault [] = (none, [])
pop_fault (f ∷ fs) = (f, fs)

-- A statement: what it does to the tables, or the error that the database raises for it.
abbrev pub Statement : Type 0 → Type 0
Statement A = Database → Outcome Cause (A × Database)

-- A call of the driver, with its error as a value: by a fault, or from the statement itself, which
-- then has changed nothing.
unfoldable pub attempt : {A : Type 0} → Statement A → Action (Outcome Cause A)
attempt s w =
    let (fault, rest) = pop_fault w.faults in
    let w' = record w { faults = rest } in
    elim fault [
      | some c ↦ (ok (err c), w')
      | none ↦ elim (s w.db) [
        | ok (a, db') ↦ (ok (ok a), record w' { db = db' })
        | err c ↦ (ok (err c), w')
      ]
    ]

-- The same where the caller maps the error by `mapPostgresError`.
unfoldable pub exec : {A : Type 0} → Statement A → Action A
unfolding attempt
exec s = attempt s >>= λ r. elim r [ ok a ↦ pure a | err c ↦ fail (map_cause c) ]

abbrev pub nothing : Statement (Unit {0})
nothing db = ok (tt, db)

abbrev pub settle : {A : Type 0} → Database → Outcome Error A × World → Outcome Error A × World
settle before (ok a, w) = (ok a, w)
settle before (err e, w) = (err e, record w { db = before })

-- `Begin`, the body, `Commit`; on an error `defer tx.Rollback` brings the tables back, which is what the model
-- assumes of every transaction of the source.
unfoldable pub transaction : {A : Type 0} → Action A → Action A
unfolding exec
transaction body w =
    settle w.db ((exec nothing >>= λ _. body >>= λ a. exec nothing >>= λ _. pure a) w)

-- A call whose error the caller handles itself.
abbrev pub catch : {A : Type 0} → Action A → Action (Outcome Error A)
catch m w = let (r, w') = m w in (ok r, w')

-- What other requests have committed by now.
abbrev pub yield_to : List (Database → Database) → World → World
yield_to [] w = w
yield_to (other ∷ rest) w = record w { db = other w.db; others = rest }

abbrev pub yield : World → World
yield w = yield_to w.others w

-- A call of a repository by a service, or a further query of a repository outside a transaction: other requests
-- act before it. A transaction is taken for one step.
unfoldable pub call : {A : Type 0} → Action A → Action A
call m w = m (yield w)

-- Midnight of the current day in UTC, `time.Now().UTC().Truncate(24 * time.Hour)`, as a day.
unfoldable pub today : World → ℕ
today w = w.now / 86_400_000_000_000

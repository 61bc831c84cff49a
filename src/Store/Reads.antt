-- ===== src/Store/Reads.antt =====
-- Calls that only read, with other requests that commit before them.
use rentcar_backend.Base.{◌≡◌, ap, ok, arith, Outcome-cases, inl, inr}
use rentcar_backend.Store.Schema.{Database, World}
use rentcar_backend.Store.Exec.{Action, Statement, ◌>>=◌, exec, attempt, call, yield, catch}
use rentcar_backend.Store.Keeps.{keep_bind, Holds, yield-Holds}

-- It leaves the tables, and what the others are to do, as they were.
pub record Reads {A : Type 0} (m : Action A) : Type 0 where
  pub db : (w : World) → (m w).1.db ≡ w.db
  pub others : (w : World) → (m w).1.others ≡ w.others

exec-same :
    {A : Type 0} (s : Statement A) (w : World)
    → ((db' : Database) (a : A) → s w.db ≡ ok (a, db') → db' ≡ w.db)
    → (exec s w).1.db ≡ w.db
unfolding exec attempt
exec-same s w same = elim (Outcome-cases (s w.db)) [
  | inl ((a, db'), e) ↦ (let kept : db' ≡ w.db = same db' a e in ground arith)
  | inr (c, e) ↦ ground arith
]

pub exec-Reads :
    {A : Type 0} (s : Statement A)
    → ((db db' : Database) (a : A) → s db ≡ ok (a, db') → db' ≡ db)
    → Reads (exec s)
unfolding exec attempt
exec-Reads s same = record {
  db = λ w. exec-same s w (λ db' a. same w.db db' a);
  others = λ w. ground arith;
}

pub catch-Reads : {A : Type 0} (m : Action A) → Reads m → Reads (catch m)
catch-Reads m h = record { db = h.db; others = h.others }

module _ {κ} (P : Database → Type κ) where
  pub Reads-Holds :
      {A : Type 0} (m : Action A) → Reads m → (w : World) → Holds P w → Holds P (m w).1
  Reads-Holds m reads w (p, r) = (rw (reads.db w) p, rw (reads.others w) r)

  -- A chain that starts with a read keeps what its rest keeps.
  pub after_read :
      {A B : Type 0} (m : Action A) (k : A → Action B) (w : World)
      → Reads m
      → Holds P w
      → ((a : A) (v : World) → Holds P v → P (k a v).1.db)
      → P ((call m >>= k) w).1.db
  unfolding call
  after_read m k w reads h next =
      let held : Holds P (m (yield w)).1 = Reads-Holds m reads (yield w) (yield-Holds P w h) in
      keep_bind (λ u. P u.db) (call m) k w held.0
        (λ a v e p. next a v (let kept : (m (yield w)).1 ≡ v = ap (λ r. r.1) e in rw (← kept) held))

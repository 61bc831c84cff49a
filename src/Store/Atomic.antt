-- ===== src/Store/Atomic.antt =====
-- What a transaction gives: all or nothing.
use rentcar_backend.Base.{◌≡◌, refl, ok, err, Outcome, arith}
use rentcar_backend.AppError.{Error}
use rentcar_backend.Store.Schema.{Database, World}
use rentcar_backend.Store.Exec.{Action, transaction, settle}

-- A call that returns an error has left every table as it was.
abbrev pub IsAtomic : {A : Type 0} → Action A → Type 0
IsAtomic m = (w : World) (e : Error) → (m w).0 ≡ err e → (m w).1.db ≡ w.db

settle_error :
    {A : Type 0} (before : Database) (r : Outcome Error A × World) {e : Error}
    → (settle before r).0 ≡ err e
    → (settle before r).1.db ≡ before
settle_error before (ok a, w) h = ground arith
settle_error before (err e, w) h = refl

-- A transaction that returns an error has left every table as it was, whatever its body does and
-- whichever call fails.
pub transaction-IsAtomic :
    {A : Type 0} (body : Action A) (w : World) (e : Error)
    → (transaction body w).0 ≡ err e
    → (transaction body w).1.db ≡ w.db
unfolding transaction
transaction-IsAtomic body w e h = settle_error w.db _ h

-- What holds before an atomic call holds after it, if it holds where the call succeeds.
pub keep_of_ok {κ} :
    {A : Type 0} (P : Database → Type κ) (m : Action A) (w : World)
    → IsAtomic m
    → P w.db
    → ((a : A) → (m w).0 ≡ ok a → P (m w).1.db)
    → P (m w).1.db
keep_of_ok {A} P m w atomic before after = go (m w).0 refl
  where
    go : (r : Outcome Error A) → (m w).0 ≡ r → P (m w).1.db
    go (ok a) h = after a h
    go (err e) h = rw (atomic w e h) before

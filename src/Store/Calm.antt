-- ===== src/Store/Calm.antt =====
-- What a chain of calls keeps where no other request commits in between, by rules for its parts.
use rentcar_backend.Base.{
  ◌≡◌, refl, ◌∙◌, ◌⊎◌, Option, none, some, [], Outcome, ok, err, Outcome-cases, Option-cases, inl,
  inr, arith,
}
use rentcar_backend.AppError.{Error}
use rentcar_backend.Store.Schema.{Database, World}
use rentcar_backend.Store.Exec.{
  Action, pure, fail, ◌>>=◌, require, gets, Statement, exec, attempt, transaction, settle, nothing,
  catch, call, pop_fault,
}
use rentcar_backend.Store.Keeps.{keep_bind, call_alone}
use rentcar_backend.Store.Reads.{Reads}

-- No other request commits, and the tables have the property.
abbrev pub Calm : (Database → Type 0) → World → Type 0
Calm P w = (w.others ≡ []) × P w.db

pub record Keeps (P : Database → Type 0) {A : Type 0} (m : Action A) : Type 0 where
  pub keep : (w : World) → Calm P w → Calm P (m w).1

-- Nothing is asked of the tables: the call only brings in no other request.
abbrev pub Anything : Database → Type 0
Anything _ = Unit

pub exec_others : {A : Type 0} (s : Statement A) (w : World) → (exec s w).1.others ≡ w.others
unfolding exec attempt
exec_others s w = ground arith

-- The tables that a statement leaves: as they were, or as it makes them.
exec_tables :
    {A : Type 0} (s : Statement A) (w : World)
    → ((exec s w).1.db ≡ w.db)
      ⊎ ((a : A) × (db : Database) × (s w.db ≡ ok (a, db)) × ((exec s w).1.db ≡ db))
unfolding exec attempt
exec_tables s w = elim (Option-cases (pop_fault w.faults).0) [
  | inl f ↦ elim (Outcome-cases (s w.db)) [
    | inl ((a, db'), e) ↦ inr (a, db', e, ground arith)
    | inr (c, e) ↦ inl (ground arith)
  ]
  | inr (c, f) ↦ inl (ground arith)
]

module _ {P : Database → Type 0} where
  pub keeps_pure : {A : Type 0} (a : A) → Keeps P (pure a)
  keeps_pure a = record { keep = λ w h. h }

  pub keeps_fail : {A : Type 0} (e : Error) → Keeps P (fail {A = A} e)
  keeps_fail e = record { keep = λ w h. h }

  pub keeps_bind :
      {A B : Type 0} {m : Action A} {f : A → Action B}
      → Keeps P m
      → ((a : A) → Keeps P (f a))
      → Keeps P (m >>= f)
  keeps_bind {m} {f} k l = record {
    keep = λ w h. keep_bind (Calm P) m f w (k.keep w h) (λ a v e c. (l a).keep v c);
  }

  pub keeps_require : (o : Option Error) → Keeps P (require o)
  keeps_require none = record { keep = λ w h. h }
  keeps_require (some e) = record { keep = λ w h. h }

  pub keeps_outcome : {A : Type 0} (r : Outcome Error A) → Keeps P (λ w. (r, w))
  keeps_outcome r = record { keep = λ w h. h }

  pub keeps_gets : {A : Type 0} (f : World → A) → Keeps P (gets f)
  keeps_gets f = record { keep = λ w h. h }

  pub keeps_call : {A : Type 0} (m : Action A) → Keeps P m → Keeps P (call m)
  keeps_call m k = record { keep = λ w h. rw (call_alone m w h.0) (k.keep w h) }

  pub keeps_catch : {A : Type 0} (m : Action A) → Keeps P m → Keeps P (catch m)
  keeps_catch m k = record { keep = λ w h. k.keep w h }

  pub keeps_read : {A : Type 0} (m : Action A) → Reads m → Keeps P m
  keeps_read m r = record { keep = λ w h. (rw (r.others w) h.0, rw (r.db w) h.1) }

  exec_keeps :
      {A : Type 0} (s : Statement A) (w : World)
      → P w.db
      → ((a : A) (db : Database) → s w.db ≡ ok (a, db) → P db)
      → P (exec s w).1.db
  exec_keeps s w h next = elim (exec_tables s w) [
    | inl same ↦ rw same h
    | inr (a, db, e, changed) ↦ rw changed (next a db e)
  ]

  pub keeps_exec :
      {A : Type 0} (s : Statement A)
      → ((db db' : Database) (a : A) → P db → s db ≡ ok (a, db') → P db')
      → Keeps P (exec s)
  keeps_exec s next = record {
    keep = λ w h. (
      (let same = exec_others s w in rw same h.0),
      exec_keeps s w h.1 (λ a db e. next w.db db a h.1 e),
    );
  }

settle_others :
    {A : Type 0} (before : Database) (r : Outcome Error A × World)
    → (settle before r).1.others ≡ r.1.others
settle_others before (ok a, w) = refl
settle_others before (err e, w) = refl

-- A statement brings in no other request, and neither does a transaction of such calls.
pub quiet_exec : {A : Type 0} (s : Statement A) → Keeps Anything (exec s)
quiet_exec s = keeps_exec s (λ db db' a h e. tt)

pub quiet_transaction :
    {A : Type 0} (body : Action A) → Keeps Anything body → Keeps Anything (transaction body)
unfolding transaction
quiet_transaction body k = record {
  keep = λ w h.
      let steps : Keeps Anything
          (exec nothing >>= λ _. body >>= λ a. exec nothing >>= λ _. pure a) =
        keeps_bind (quiet_exec nothing)
          (λ _. keeps_bind k (λ a. keeps_bind (quiet_exec nothing) (λ _. keeps_pure a))) in
      (settle_others w.db _ ∙ (steps.keep w h).0, tt);
}

-- A call that keeps the property alone, and brings in no other request.
pub keeps_alone :
    (P : Database → Type 0) {A : Type 0} (m : Action A)
    → Keeps Anything m
    → ((w : World) → w.others ≡ [] → P w.db → P (m w).1.db)
    → Keeps P m
keeps_alone P m quiet alone = record { keep = λ w h. ((quiet.keep w (h.0, tt)).0, alone w h.0 h.1) }

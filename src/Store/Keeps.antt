-- ===== src/Store/Keeps.antt =====
-- What a chain of calls keeps, while other requests commit between them.
use rentcar_backend.Base.{◌≡◌, refl, ap, List, [], ◌∷◌, Option, none, some, Outcome, ok, err, All}
use rentcar_backend.AppError.{Error}
use rentcar_backend.Store.Schema.{Database, World}
use rentcar_backend.Store.Exec.{Action, ◌>>=◌, require, yield, yield_to, call}

-- How `>>=` goes on from a call that has ended.
abbrev continue :
    {A B : Type 0} → (A → Action B) → Outcome Error A × World → Outcome Error B × World
continue f r = elim r.0 [ ok a ↦ f a r.1 | err e ↦ (err e, r.1) ]

module _ {κ} (P : World → Type κ) {A B : Type 0} where
  bind_cases :
      (r : Outcome Error A × World) (m : Action A) (f : A → Action B) (w : World)
      → m w ≡ r
      → P r.1
      → ((a : A) (v : World) → m w ≡ (ok a, v) → P v → P (f a v).1)
      → P (continue f r).1
  bind_cases (ok a, v) m f w e p next = next a v e p
  bind_cases (err x, v) m f w e p next = p

  -- A chain keeps what its first call keeps, and its rest from there.
  pub keep_bind :
      (m : Action A) (f : A → Action B) (w : World)
      → P (m w).1
      → ((a : A) (v : World) → m w ≡ (ok a, v) → P v → P (f a v).1)
      → P ((m >>= f) w).1
  keep_bind m f w p next = bind_cases (m w) m f w refl p next

-- A guard touches nothing, and past it the guard has passed.
pub keep_require {κ} :
    (P : World → Type κ) {B : Type 0} (o : Option Error) (k : Action B) (w : World)
    → P w
    → (o ≡ none → P (k w).1)
    → P ((require o >>= λ _. k) w).1
keep_require P none k w p next = next refl
keep_require P (some e) k w p next = p

-- What other requests commit keeps `P`.
abbrev pub Rely {κ} : (Database → Type κ) → List (Database → Database) → Type κ
Rely P others = All (λ f. (db : Database) → P db → P (f db)) others

-- `P` holds of the tables now, and whatever the other requests commit.
abbrev pub Holds {κ} : (Database → Type κ) → World → Type κ
Holds P w = P w.db × Rely P w.others

-- It holds after the other requests have acted.
yield_to-Holds {κ} :
    (P : Database → Type κ) (others : List (Database → Database)) (w : World)
    → Holds P w
    → Rely P others
    → Holds P (yield_to others w)
yield_to-Holds P [] w h r = h
yield_to-Holds P (f ∷ fs) w h r = (r.0 w.db h.0, r.1)

pub yield-Holds {κ} : (P : Database → Type κ) (w : World) → Holds P w → Holds P (yield w)
yield-Holds P w h = yield_to-Holds P w.others w h h.1

-- With no other request, a call of a repository is that call.
pub call_alone : {A : Type 0} (m : Action A) (w : World) → w.others ≡ [] → call m w ≡ m w
unfolding call
call_alone m w alone = let here : yield w ≡ w = rw alone refl in ap m here

-- ===== src/Base/Keys.antt =====
-- Tables whose rows have keys of their own: a primary key, or a unique column.
use Prim.Native.Nat.{ℕ, ◌<◌}
use mathlib.Core.Path.{◌≡◌, refl, subst, sym}
use mathlib.Core.Logic.{inl, inr}
use mathlib.Core.Bool.{Bool, true, false, ◌&&◌}
use mathlib.Core.Option.{some}
use mathlib.Core.List.{List, [], ◌∷◌}
use native.Mathlib.Omega.{arith}
use rentcar_backend.Base.Tests.{◌==◌, nat_eq, Bool-cases}
use rentcar_backend.Base.Lists.{All, find, exists, update}

-- No two rows have the same key.
abbrev pub DistinctBy {ℓ} : {A : Type ℓ} → (A → ℕ) → List A → Type 0
DistinctBy k [] = Unit
DistinctBy k (x ∷ xs) = (exists (λ y. k y == k x) xs ≡ false) × DistinctBy k xs

module _ {ℓ} {A : Type ℓ} where
  -- A row that is found makes every test it passes exist.
  pub exists_of_found :
      (p q : A → Bool) (xs : List A) (x : A) → find p xs ≡ some x → q x ≡ true → exists q xs ≡ true
  exists_of_found p q [] x e h = ground arith
  exists_of_found p q (y ∷ xs) x e h = ground (arith, exists_of_found p q xs x)

  -- A row found by any test is the one that its key finds.
  pub find_by_key :
      (k : A → ℕ) (p : A → Bool) (xs : List A) (x : A)
      → DistinctBy k xs
      → find p xs ≡ some x
      → find (λ y. k y == k x) xs ≡ some x
  find_by_key k p [] x d e = ground arith
  find_by_key k p (y ∷ xs) x d e =
      ground (arith, find_by_key k p xs x d.1, exists_of_found p (λ z. k z == k y) xs x)

  exists-update :
      (k : A → ℕ) (p : A → Bool) (f : A → A) (n : ℕ) (xs : List A)
      → ((x : A) → k (f x) ≡ k x)
      → exists (λ y. k y == n) (update p f xs) ≡ exists (λ y. k y == n) xs
  exists-update k p f n [] keep = refl
  exists-update k p f n (x ∷ xs) keep = ground (arith, keep x, exists-update k p f n xs keep)

  -- An update that keeps the keys keeps them distinct.
  pub DistinctBy-update :
      (k : A → ℕ) (p : A → Bool) (f : A → A) (xs : List A)
      → ((x : A) → k (f x) ≡ k x)
      → DistinctBy k xs
      → DistinctBy k (update p f xs)
  DistinctBy-update k p f [] keep d = tt
  DistinctBy-update k p f (x ∷ xs) keep d = (
    ground (arith, keep x, exists-update k p f (k x) xs keep, d.0),
    DistinctBy-update k p f xs keep d.1,
  )

  -- A key above all others is new.
  pub exists_of_below :
      (k : A → ℕ) (n : ℕ) (xs : List A) → All (λ x. k x < n) xs → exists (λ y. k y == n) xs ≡ false
  exists_of_below k n [] h = refl
  exists_of_below k n (x ∷ xs) h = ground (arith, exists_of_below k n xs h.1, h.0)

  -- What holds of every row holds of one that is found.
  pub All_found {κ} :
      (P : A → Type κ) (p : A → Bool) (xs : List A) (x : A) → All P xs → find p xs ≡ some x → P x
  All_found P p [] x h e = absurd (ground arith)
  All_found P p (y ∷ xs) x h e = elim (Bool-cases (p y)) [
    | inl passes ↦ (let same : y ≡ x = ground arith in subst P same h.0)
    | inr fails ↦ All_found P p xs x h.1 (rw fails at e)
  ]

  -- A test on the rows of one key is a test on the row that the key finds.
  exists_other_key :
      (k : A → ℕ) (p : A → Bool) (n : ℕ) (xs : List A)
      → exists (λ y. k y == n) xs ≡ false
      → exists (λ y. k y == n && p y) xs ≡ false
  exists_other_key k p n [] h = refl
  exists_other_key k p n (x ∷ xs) h = ground (arith, exists_other_key k p n xs)

  pub exists_by_key :
      (k : A → ℕ) (p : A → Bool) (n : ℕ) (xs : List A) (x : A)
      → DistinctBy k xs
      → find (λ y. k y == n) xs ≡ some x
      → exists (λ y. k y == n && p y) xs ≡ p x
  exists_by_key k p n [] x d e = ground arith
  exists_by_key k p n (y ∷ xs) x d e =
      ground (arith, d.0, exists_by_key k p n xs x d.1, exists_other_key k p n xs)

  update_absent :
      (p : A → Bool) (f : A → A) (xs : List A) → exists p xs ≡ false → update p f xs ≡ xs
  update_absent p f [] h = refl
  update_absent p f (x ∷ xs) h = ground (arith, update_absent p f xs)

  -- An update of the row of one key keeps what the new row has.
  pub All-update_key {κ} :
      (P : A → Type κ) (k : A → ℕ) (f : A → A) (n : ℕ) (xs : List A) (x : A)
      → DistinctBy k xs
      → find (λ y. k y == n) xs ≡ some x
      → P (f x)
      → All P xs
      → All P (update (λ y. k y == n) f xs)
  All-update_key P k f n [] x d e new h = tt
  All-update_key P k f n (y ∷ ys) x d e new h = elim (Bool-cases (k y == n)) [
    | inl here ↦
        (let same : y ≡ x = ground arith in
          let key : k y ≡ n = ground arith in
          let rest : update (λ z. k z == n) f ys ≡ ys =
            update_absent (λ z. k z == n) f ys (rw (← key) d.0) in
          rw (here, rest) (subst (λ z. P (f z)) (sym same) new, h.1))
    | inr other ↦ rw other (h.0, All-update_key P k f n ys x d.1 (rw other at e) new h.1)
  ]

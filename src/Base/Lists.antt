-- ===== src/Base/Lists.antt =====
-- A table as a list of rows, and what the SQL statements do with it: a row by a test, the count of
-- the rows that pass one, an update of those rows, a deletion.
use Prim.Native.Nat.{ℕ, ◌+◌, ◌<◌}
use mathlib.Core.Path.{◌≡◌, refl}
use mathlib.Core.Bool.{Bool, true, false, ◌||◌}
use mathlib.Core.Option
use mathlib.Core.Option.{Option, none, some}
use mathlib.Core.List.{List, [], ◌∷◌, ◌++◌}
use native.Mathlib.Omega.{arith}
use rentcar_backend.Base.Tests.{if◌then◌else◌}

abbrev pub All {ℓ κ} : {A : Type ℓ} → (A → Type κ) → List A → Type κ
All P [] = Unit
All P (x ∷ xs) = P x × All P xs

module _ {ℓ} {A : Type ℓ} where
  -- the first row that passes the test
  abbrev pub find : (A → Bool) → List A → Option A
  find p [] = none
  find p (x ∷ xs) = if p x then some x else find p xs

  -- `EXISTS (SELECT 1 … WHERE p)`
  abbrev pub exists : (A → Bool) → List A → Bool
  exists p [] = false
  exists p (x ∷ xs) = p x || exists p xs

  -- `COUNT(*) … WHERE p`, and the number of rows that an update affects
  abbrev pub count : (A → Bool) → List A → ℕ
  count p [] = 0
  count p (x ∷ xs) = (if p x then 1 else 0) + count p xs

  -- `UPDATE … SET f WHERE p`
  abbrev pub update : (A → Bool) → (A → A) → List A → List A
  update p f [] = []
  update p f (x ∷ xs) = (if p x then f x else x) ∷ update p f xs

  -- `SELECT … WHERE p`
  abbrev pub select : (A → Bool) → List A → List A
  select p [] = []
  select p (x ∷ xs) = if p x then x ∷ select p xs else select p xs

-- What a row becomes under an update.
abbrev pub touched {ℓ} : {A : Type ℓ} → (A → Bool) → (A → A) → A → A
touched p f x = if p x then f x else x

module _ {ℓ} {A : Type ℓ} where
  -- An update that keeps what a test reads moves along a search by that test.
  pub find-update :
      (q p : A → Bool) (f : A → A) (xs : List A)
      → ((x : A) → q (f x) ≡ q x)
      → find q (update p f xs) ≡ Option.map (touched p f) (find q xs)
  find-update q p f [] keep = refl
  find-update q p f (x ∷ xs) keep = ground (arith, keep x, find-update q p f xs keep)

  -- A row that is found passes the test.
  pub find_passes : (p : A → Bool) (xs : List A) {x : A} → find p xs ≡ some x → p x ≡ true
  find_passes p [] e = ground arith
  find_passes p (y ∷ xs) {x} e = ground (arith, find_passes p xs {x = x})

  pub exists_of_find : (p : A → Bool) (xs : List A) → exists p xs ≡ false → find p xs ≡ none
  exists_of_find p [] e = refl
  exists_of_find p (x ∷ xs) e = ground (arith, exists_of_find p xs)

  pub find-append :
      (p : A → Bool) (xs ys : List A)
      → find p (xs ++ ys) ≡ (elim (find p xs) [ none ↦ find p ys | some x ↦ some x ])
  find-append p [] ys = refl
  find-append p (x ∷ xs) ys = ground (arith, find-append p xs ys)

  -- No row passes the test exactly when the count is 0.
  pub count_zero : (p : A → Bool) (xs : List A) → count p xs ≡ 0 → find p xs ≡ none
  count_zero p [] e = refl
  count_zero p (x ∷ xs) e = ground (arith, count_zero p xs)

  pub count_pos : (p : A → Bool) (xs : List A) {x : A} → find p xs ≡ some x → 0 < count p xs
  count_pos p [] e = ground arith
  count_pos p (y ∷ xs) {x} e = ground (arith, count_pos p xs {x = x})

  -- An update of no row changes nothing.
  pub update_none : (p : A → Bool) (f : A → A) (xs : List A) → count p xs ≡ 0 → update p f xs ≡ xs
  update_none p f [] e = refl
  update_none p f (x ∷ xs) e = ground (arith, update_none p f xs)

  pub All-update {κ} :
      (P : A → Type κ) (p : A → Bool) (f : A → A) (xs : List A)
      → ((x : A) → P x → P (touched p f x))
      → All P xs
      → All P (update p f xs)
  All-update P p f [] keep h = tt
  All-update P p f (x ∷ xs) keep h = (keep x h.0, All-update P p f xs keep h.1)

  pub All-weaken {κ μ} :
      (P : A → Type κ) (Q : A → Type μ) (xs : List A) → ((x : A) → P x → Q x) → All P xs → All Q xs
  All-weaken P Q [] f h = tt
  All-weaken P Q (x ∷ xs) f h = (f x h.0, All-weaken P Q xs f h.1)

  -- An update of every row, with what held of each row and what holds of it then.
  pub All-change {κ μ} :
      (P : A → Type κ) (Q : A → Type μ) (p : A → Bool) (f : A → A) (xs : List A)
      → ((x : A) → P x → Q (touched p f x))
      → All P xs
      → All Q (update p f xs)
  All-change P Q p f [] change h = tt
  All-change P Q p f (x ∷ xs) change h = (change x h.0, All-change P Q p f xs change h.1)

  pub All-of {κ} : (P : A → Type κ) (xs : List A) → ((x : A) → P x) → All P xs
  All-of P [] h = tt
  All-of P (x ∷ xs) h = (h x, All-of P xs h)

  -- Each row passes what it is found by, so a test that it passes exists.
  All-exists_from :
      (q : A → A → Bool) (p : A → Bool) (ys xs : List A)
      → ((x : A) → p x ≡ true → q x x ≡ true)
      → ((t : A → Bool) → exists t xs ≡ true → exists t ys ≡ true)
      → All (λ x. p x ≡ true → exists (q x) ys ≡ true) xs
  All-exists_from q p ys [] self sub = tt
  All-exists_from q p ys (x ∷ xs) self sub = (
    λ h. sub (q x) (ground (arith, self x h)),
    All-exists_from q p ys xs self (λ t e. sub t (ground arith)),
  )

  pub All-exists :
      (q : A → A → Bool) (p : A → Bool) (xs : List A)
      → ((x : A) → p x ≡ true → q x x ≡ true)
      → All (λ x. p x ≡ true → exists (q x) xs ≡ true) xs
  All-exists q p xs self = All-exists_from q p xs xs self (λ t e. e)

  pub exists_none : (p : A → Bool) (xs : List A) → All (λ x. p x ≡ false) xs → exists p xs ≡ false
  exists_none p [] h = refl
  exists_none p (x ∷ xs) h = ground (arith, h.0, exists_none p xs h.1)

  pub count_none : (p : A → Bool) (xs : List A) → All (λ x. p x ≡ false) xs → count p xs ≡ 0
  count_none p [] h = refl
  count_none p (x ∷ xs) h = ground (arith, h.0, count_none p xs h.1)

  pub update_same :
      (p : A → Bool) (f : A → A) (xs : List A)
      → All (λ x. touched p f x ≡ x) xs
      → update p f xs ≡ xs
  update_same p f [] h = refl
  update_same p f (x ∷ xs) h = ground (arith, h.0, update_same p f xs h.1)

  -- What holds for every `i` of each row holds of each row for every `i`.
  pub All-each {κ ι} :
      {I : Type ι} (P : I → A → Type κ) (xs : List A)
      → ((i : I) → All (P i) xs)
      → All (λ x. (i : I) → P i x) xs
  All-each P [] h = tt
  All-each P (x ∷ xs) h = (λ i. (h i).0, All-each P xs (λ i. (h i).1))

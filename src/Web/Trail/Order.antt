-- ===== src/Web/Trail/Order.antt =====
-- The set of keys of internal/handler/audit_helpers.go as a list in order.
use text.Mathlib.TextEquality.{Char-path}
use rentcar_backend.Base.{
  ℕ, ◌≡◌, refl, ◌==◌, nat_eq, string_eq, true, false, String, List, [], ◌∷◌, All, All-weaken, arith,
  Bool-cases, inl, inr,
}
use rentcar_backend.Dates.{codes}
use rentcar_backend.Web.Json.{codes_ltb, text_ltb}
use rentcar_backend.Web.Trail.{insert_key}

-- The order of texts.
codes_trans : (a b c : List ℕ) → codes_ltb a b ≡ true → codes_ltb b c ≡ true → codes_ltb a c ≡ true
codes_trans a b [] h k = absurd (ground arith)
codes_trans a [] (z ∷ c) h k = absurd (ground arith)
codes_trans [] (y ∷ b) (z ∷ c) h k = refl
codes_trans (x ∷ a) (y ∷ b) (z ∷ c) h k = ground (arith, codes_trans a b c)

-- One of two texts is before the other, unless they are the same.
codes_total : (a b : List ℕ) → codes_ltb a b ≡ false → codes_ltb b a ≡ false → a ≡ b
codes_total [] [] h k = refl
codes_total [] (y ∷ b) h k = absurd (ground arith)
codes_total (x ∷ a) [] h k = absurd (ground arith)
codes_total (x ∷ a) (y ∷ b) h k = ground (arith, codes_total a b)

-- A list in which each text is before all that follow.
abbrev pub IsAscending : List String → Type 0
IsAscending [] = Unit
IsAscending (k ∷ ks) = All (λ l. text_ltb k l ≡ true) ks × IsAscending ks

codes_path : (s t : String) → codes s ≡ codes t → s ≡ t
codes_path String.[] String.[] e = refl
codes_path String.[] (String.◌∷◌ d t) e = absurd (ground arith)
codes_path (String.◌∷◌ c s) String.[] e = absurd (ground arith)
codes_path (String.◌∷◌ c s) (String.◌∷◌ d t) e =
    let head : c ≡ d = Char-path c d (ground arith) in
    let tail : s ≡ t = codes_path s t (ground arith) in rw (head, tail) refl

-- A new key that is not before another is behind it.
later : (k l : String) → (l == k) ≡ false → text_ltb k l ≡ false → text_ltb l k ≡ true
later k l other h = elim (Bool-cases (text_ltb l k)) [
  | inl e ↦ e
  | inr e ↦
      let same_text : l ≡ k = codes_path l k (codes_total (codes l) (codes k) e h) in
      absurd (let yes_equal : (l == k) ≡ true = (string_eq.equal_iff l k).1 same_text in cc)
]

All-insert :
    (j k : String) (ls : List String)
    → text_ltb j k ≡ true
    → All (λ l. text_ltb j l ≡ true) ls
    → All (λ l. text_ltb j l ≡ true) (insert_key k ls)
All-insert j k [] h all = (h, tt)
All-insert j k (l ∷ ls) h all = elim (Bool-cases (l == k)) [
  | inl e ↦ rw e all
  | inr e ↦ rw e (elim (Bool-cases (text_ltb k l)) [
    | inl b ↦ rw b (h, all)
    | inr b ↦ rw b (all.0, All-insert j k ls h all.1)
  ])
]

pub insert-IsAscending :
    (k : String) (ls : List String) → IsAscending ls → IsAscending (insert_key k ls)
insert-IsAscending k [] h = (tt, tt)
insert-IsAscending k (l ∷ ls) h = elim (Bool-cases (l == k)) [
  | inl e ↦ rw e h
  | inr e ↦ rw e (elim (Bool-cases (text_ltb k l)) [
    | inl b ↦ rw b (
      (
        b,
        All-weaken (λ m. text_ltb l m ≡ true) (λ m. text_ltb k m ≡ true) ls
            (λ m c. codes_trans (codes k) (codes l) (codes m) b c) h.0,
      ),
      h,
    )
    | inr b ↦ rw b (All-insert l k ls (later k l e b) h.0, insert-IsAscending k ls h.1)
  ])
]

-- ===== src/Text/Like.antt =====
-- `ILIKE '%…%'`, by which the listings search: the pattern of a search text, its wildcards, and the
-- escape that PostgreSQL reads in it. A pattern that the services build ends in `%`, so it never ends in
-- an escape.
use Prim.Native.Char.{Char, code}
use rentcar_backend.Base.{
  ℕ, ◌≡◌, refl, ◌∙◌, ◌==◌, nat_eq, Bool, true, false, not, ◌&&◌, ◌||◌, String, List, [], ◌∷◌, ◌++◌,
  map, arith,
}
use rentcar_backend.Text.{chars}

abbrev percent : ℕ
percent = b'%'

abbrev underscore : ℕ
underscore = b'_'

abbrev backslash : ℕ
backslash = b'\\'

abbrev is_empty : List ℕ → Bool
is_empty [] = true
is_empty (_ ∷ _) = false

-- Some end of the text matches.
abbrev pub any_suffix : (List ℕ → Bool) → List ℕ → Bool
any_suffix m [] = m []
any_suffix m (c ∷ cs) = m (c ∷ cs) || any_suffix m cs

-- The first character passes, and the rest matches.
abbrev first : (ℕ → Bool) → (List ℕ → Bool) → List ℕ → Bool
first p m [] = false
first p m (c ∷ cs) = p c && m cs

unfoldable pub like : List ℕ → List ℕ → Bool
like [] t = is_empty t
like (p ∷ []) t = elim (p == percent) [
  | true ↦ true
  | false ↦ elim (p == underscore) [
    | true ↦ first (λ _. true) is_empty t
    | false ↦ first (λ c. c == p) is_empty t
  ]
]
like (p ∷ q ∷ ps) t = elim (p == percent) [
  | true ↦ any_suffix (λ s. like (q ∷ ps) s) t
  | false ↦ elim (p == underscore) [
    | true ↦ first (λ _. true) (λ s. like (q ∷ ps) s) t
    | false ↦ elim (p == backslash) [
      | true ↦ first (λ c. c == q) (λ s. like ps s) t
      | false ↦ first (λ c. c == p) (λ s. like (q ∷ ps) s) t
    ]
  ]
]

module _ (fold : Char → Char) where
  -- The characters as the database compares them, `fold` taking the case away.
  abbrev pub folded : String → List ℕ
  folded s = map (λ c. code (fold c)) (chars s)

  -- `column ILIKE '%' || search || '%'`
  unfoldable pub ilike : String → String → Bool
  ilike column search = like (percent ∷ folded search ++ percent ∷ []) (folded column)

-- The plain meaning of a search: the text stands somewhere in the column.
unfoldable pub begins_with : List ℕ → List ℕ → Bool
begins_with [] t = true
begins_with (p ∷ ps) t = first (λ c. c == p) (λ s. begins_with ps s) t

unfoldable pub contains : List ℕ → List ℕ → Bool
contains s t = any_suffix (begins_with s) t

-- A text with no wildcard and no escape.
abbrev pub is_plain : List ℕ → Bool
is_plain [] = true
is_plain (c ∷ cs) =
    not (c == percent) && not (c == underscore) && not (c == backslash) && is_plain cs

plain_prefix : (s t : List ℕ) → is_plain s ≡ true → like (s ++ percent ∷ []) t ≡ begins_with s t
unfolding like begins_with
plain_prefix [] t h = refl
plain_prefix (p ∷ []) [] h = ground arith
plain_prefix (p ∷ []) (c ∷ cs) h = ground (arith, plain_prefix [] cs)
plain_prefix (p ∷ q ∷ ps) [] h = ground arith
plain_prefix (p ∷ q ∷ ps) (c ∷ cs) h = ground (arith, plain_prefix (q ∷ ps) cs)

suffix_cong :
    (m n : List ℕ → Bool) (t : List ℕ)
    → ((s : List ℕ) → m s ≡ n s)
    → any_suffix m t ≡ any_suffix n t
suffix_cong m n [] h = h []
suffix_cong m n (c ∷ cs) h = rw (h (c ∷ cs), suffix_cong m n cs h) refl

like_any :
    (xs t : List ℕ)
    → like (percent ∷ (xs ++ percent ∷ [])) t ≡ any_suffix (λ s. like (xs ++ percent ∷ []) s) t
unfolding like
like_any [] t = refl
like_any (x ∷ xs) t = refl

-- A search for a text with no `%`, `_` or `\` finds the columns that contain it.
pub ilike-contains :
    (fold : Char → Char) (column search : String)
    → is_plain (folded fold search) ≡ true
    → ilike fold column search ≡ contains (folded fold search) (folded fold column)
unfolding ilike contains
ilike-contains fold column search h =
    like_any (folded fold search) (folded fold column)
    ∙ suffix_cong _ (begins_with (folded fold search)) (folded fold column)
        (λ t. plain_prefix (folded fold search) t h)

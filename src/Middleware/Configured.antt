-- ===== src/Middleware/Configured.antt =====
-- The origins of CORS_ALLOWED_ORIGINS, as internal/middleware/cors.go reads them.
use Prim.Native.Char.{Char, code}
use rentcar_backend.Base.{
  ◌==◌, nat_eq, string_eq, ◌≡◌, refl, ap, ◌∙◌, Bool, true, false, not, ◌&&◌, String, List, [], ◌∷◌,
  ◌++◌, All, arith,
}
use rentcar_backend.Text.{chars, of_chars, trim_space, trim_chars}
use rentcar_backend.Text.Laws.{chars-of_chars, of_chars-chars}
use rentcar_backend.Middleware.Origins.{split_comma, trimmed_origins, parse_allowed_origins}

abbrev pub has_no_comma : List Char → Bool
has_no_comma [] = true
has_no_comma (c ∷ cs) = not (code c == b',') && has_no_comma cs

-- An origin that stands in the list as it is: some text, with no comma in it and no space around it.
pub record IsClean (origin : String) : Type 0 where
  pub no_comma : has_no_comma (chars origin) ≡ true
  pub trimmed : trim_space origin ≡ origin
  pub some_text : (origin == "") ≡ false

-- The origins with commas between them.
abbrev pub joined : List String → List Char
joined [] = []
joined (o ∷ []) = chars o
joined (o ∷ o' ∷ os) = chars o ++ ("," ∷ joined (o' ∷ os))

split-last : (cs : List Char) → has_no_comma cs ≡ true → split_comma cs ≡ cs ∷ []
split-last [] h = refl
split-last (c ∷ cs) h = ground (arith, split-last cs)

split-part :
    (cs rest : List Char)
    → has_no_comma cs ≡ true
    → split_comma (cs ++ ("," ∷ rest)) ≡ cs ∷ split_comma rest
split-part [] rest h = refl
split-part (c ∷ cs) rest h = ground (arith, split-part cs rest)

trimmed-clean :
    (o : String) (parts : List (List Char))
    → IsClean o
    → trimmed_origins (chars o ∷ parts) ≡ o ∷ trimmed_origins parts
trimmed-clean o parts clean = rw (of_chars-chars o, clean.trimmed, clean.some_text) refl

split-joined : (os : List String) → All IsClean os → trimmed_origins (split_comma (joined os)) ≡ os
unfolding trim_chars
split-joined [] h = refl
split-joined (o ∷ []) h =
    ap trimmed_origins (split-last (chars o) h.0.no_comma) ∙ trimmed-clean o [] h.0
split-joined (o ∷ o' ∷ os) h =
    ap trimmed_origins (split-part (chars o) (joined (o' ∷ os)) h.0.no_comma)
    ∙ trimmed-clean o (split_comma (joined (o' ∷ os))) h.0
    ∙ ap (λ xs. o ∷ xs) (split-joined (o' ∷ os) h.1)

-- Clean origins that are written with commas between them are read back as they are, where the local
-- defaults are left out.
pub parse_allowed_origins-joined :
    (os : List String) → All IsClean os → parse_allowed_origins (of_chars (joined os)) false ≡ os
unfolding parse_allowed_origins
parse_allowed_origins-joined os h =
    ap (λ cs. trimmed_origins (split_comma cs)) (chars-of_chars (joined os)) ∙ split-joined os h

-- ===== src/Middleware/Origins.antt =====
-- internal/middleware/cors.go.
use Prim.Native.Char.{Char, code}
use rentcar_backend.Base.{
  ℕ, ◌==◌, nat_eq, string_eq, if◌then◌else◌, Bool, false, not, ◌&&◌, String, List, [], ◌∷◌, ◌++◌,
  Option, none, some, exists,
}
use rentcar_backend.Text.{chars, of_chars, trim_space}

-- `strings.Split(value, ",")`: the parts between the commas, at least one.
abbrev put_first : Char → List (List Char) → List (List Char)
put_first c [] = (c ∷ []) ∷ []
put_first c (part ∷ parts) = (c ∷ part) ∷ parts

abbrev pub split_comma : List Char → List (List Char)
split_comma [] = [] ∷ []
split_comma (c ∷ cs) =
    let rest = split_comma cs in if code c == b',' then [] ∷ rest else put_first c rest

abbrev default_origins : List String
default_origins =
    "http://localhost:5173" ∷ "http://localhost:5174" ∷ "http://127.0.0.1:5173"
    ∷ "http://127.0.0.1:5174" ∷ []

abbrev pub trimmed_origins : List (List Char) → List String
trimmed_origins [] = []
trimmed_origins (part ∷ parts) =
    let rest = trimmed_origins parts in
    let origin = trim_space (of_chars part) in if origin == "" then rest else origin ∷ rest

-- `parseAllowedOrigins`, with the set as a list
unfoldable pub parse_allowed_origins : String → Bool → List String
parse_allowed_origins value defaults =
    let configured = trimmed_origins (split_comma (chars value)) in
    if defaults then default_origins ++ configured else configured

-- `isAllowedOrigin`
unfoldable pub is_allowed_origin : String → List String → Bool
is_allowed_origin origin configured =
    if origin == "" then false else exists (λ o. o == origin) configured

-- What the handler of `CORS` does: the origin that is granted, if any, and the status with which it ends the
-- request, if it does.
pub record CorsAnswer : Type 0 where
  pub allow_origin : Option String
  pub status : Option ℕ

abbrev is_options : String → Bool
is_options method = method == "OPTIONS"

-- `CORS`
unfoldable pub cors : List String → String → String → CorsAnswer
cors configured origin method = record {
  allow_origin = if is_allowed_origin origin configured then some origin else none;
  status =
      if is_options method
      then (if not (origin == "") && not (is_allowed_origin origin configured)
          then some 403
          else some 204)
      else none;
}

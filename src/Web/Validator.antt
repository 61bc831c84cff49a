-- ===== src/Web/Validator.antt =====
-- pkg/validator/validator.go: the message of a request that the binding refuses. What gin's binding and
-- the validator find is an argument of the handlers.
use Prim.Native.Char.{Char, code}
use Prim.Native.String.{◌++◌}
use rentcar_backend.Base.{
  ◌==◌, string_eq, if◌then◌else◌, Bool, ◌&&◌, leb, String, List, [], ◌∷◌, Outcome, ok, err, map,
}
use rentcar_backend.AppError.{new}
use rentcar_backend.Store.{Action, pure, fail}
use rentcar_backend.Text.{Unicode, chars, of_chars, to_lower}

-- `govalidator.FieldError`, as far as it is read; `is_text` says that its kind is a string.
pub record FieldError : Type 0 where
  pub field : String
  pub tag : String
  pub param : String
  pub is_text : Bool

-- The error of `ShouldBindJSON`: `ValidationErrors`, or any other.
pub data BindError : Type 0 where
  invalid : List FieldError → BindError
  unreadable : BindError

abbrev spaced : List Char → List Char
spaced [] = []
spaced (c ∷ cs) =
    let rest = spaced cs in
    if leb b'A' (code c) && leb (code c) b'Z' then " " ∷ c ∷ rest else c ∷ rest

abbrev spaced_tail : List Char → List Char
spaced_tail [] = []
spaced_tail (c ∷ cs) = c ∷ spaced cs

-- `splitFieldName`
unfoldable pub split_field_name : Unicode → String → String
split_field_name u field =
    if field == "" then "field" else to_lower u (of_chars (spaced_tail (chars field)))

-- `fieldName`
unfoldable pub field_name : Unicode → FieldError → String
unfolding split_field_name
field_name u e =
    if e.field == "PlateNumber"
    then "plate number"
    else if e.field == "DailyRate"
    then "daily rate"
    else if e.field == "RefreshToken"
    then "refresh token"
    else if e.field == "CarID"
    then "car"
    else if e.field == "RentalID"
    then "rental"
    else if e.field == "StartDate"
    then "pickup date"
    else if e.field == "EndDate"
    then "return date"
    else split_field_name u e.field

abbrev unit : FieldError → String
unit e = if e.is_text then " characters" else ""

-- One round of the loop of `Message`.
unfoldable pub field_message : Unicode → FieldError → String
unfolding field_name
field_message u e =
    let field = field_name u e in
    if e.tag == "required"
    then field ++ " is required"
    else if e.tag == "email"
    then field ++ " must be a valid email"
    else if e.tag == "len"
    then field ++ (" must be exactly " ++ (e.param ++ " characters"))
    else if e.tag == "min"
    then field ++ (" must be at least " ++ (e.param ++ unit e))
    else if e.tag == "max"
    then field ++ (" must be at most " ++ (e.param ++ unit e))
    else if e.tag == "gt"
    then field ++ (" must be greater than " ++ e.param)
    else if e.tag == "gte"
    then field ++ (" must be greater than or equal to " ++ e.param)
    else if e.tag == "lte"
    then field ++ (" must be less than or equal to " ++ e.param)
    else if e.tag == "oneof"
    then field ++ (" must be one of: " ++ e.param)
    else if e.tag == "url"
    then field ++ " must be a valid URL"
    else field ++ " is invalid"

-- `strings.Join`
abbrev pub join : String → List String → String
join separator [] = ""
join separator (s ∷ []) = s
join separator (s ∷ t ∷ ts) = s ++ (separator ++ join separator (t ∷ ts))

-- `Message`
unfoldable pub message : Unicode → BindError → String
unfolding field_message
message u unreadable = "invalid request body"
message u (invalid errors) = join "; " (map (field_message u) errors)

-- `ShouldBindJSON`, with the answer of every handler to its error
abbrev pub bound : {A : Type 0} → Unicode → Outcome BindError A → Action A
bound u (ok a) = pure a
bound u (err e) = fail (new 400 (message u e))

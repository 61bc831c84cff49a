-- ===== src/Web/Json.antt =====
-- JSON values as package `encoding/json` writes them and reads them back, which the audit log keeps.
pub mod Equality
use Prim.Native.Char.{Char, code}
use Prim.Native.String.{◌++◌}
use rentcar_backend.Base.{
  ℕ, suc, ◌+◌, ◌-◌, ◌*◌, ◌/◌, ◌%◌, ◌==◌, nat_eq, string_eq, if◌then◌else◌, Bool, true, false, ltb,
  ◌&&◌, ◌||◌, String, List, [], ◌∷◌,
}
use mathlib.Core.List.{◌++◌ as append}
use rentcar_backend.Dates.{codes}
use rentcar_backend.Text.{chars, of_chars}

-- A number is the text in which it is written. The keys of an object are as they follow one another.
mutual
  pub data Value : Type 0 where
    null : Value
    boolean : Bool → Value
    number : String → Value
    text : String → Value
    array : Items → Value
    object : Fields → Value

  pub data Items : Type 0 where
    nil : Items
    cons : Value → Items → Items

  pub data Fields : Type 0 where
    end : Fields
    field : String → Value → Fields → Fields

-- `reflect.DeepEqual` of what was read, numbers by their texts, as whole numbers below 2 ^ 53 and amounts in cents
-- below it are told apart as float64 too: an object that was read is a map, whose keys have no order; those of
-- the models stand in the order of their structs, and are equal as maps where they are as lists.
unfoldable mutual
  pub same : Value → Value → Bool
  same null null = true
  same (boolean true) (boolean true) = true
  same (boolean false) (boolean false) = true
  same (number s) (number t) = s == t
  same (text s) (text t) = s == t
  same (array xs) (array ys) = same_items xs ys
  same (object fs) (object gs) = same_fields fs gs
  same _ _ = false

  pub same_items : Items → Items → Bool
  same_items nil nil = true
  same_items (cons x xs) (cons y ys) = same x y && same_items xs ys
  same_items _ _ = false

  pub same_fields : Fields → Fields → Bool
  same_fields end end = true
  same_fields (field k x fs) (field l y gs) = k == l && same x y && same_fields fs gs
  same_fields _ _ = false

-- `result[key]` of an object that was read; a missing key is nil, as null is.
abbrev pub value_of : String → Fields → Value
value_of key end = null
value_of key (field k v fs) = if k == key then v else value_of key fs

-- `<` on texts, by their bytes, which order texts as code points do.
abbrev pub codes_ltb : List ℕ → List ℕ → Bool
codes_ltb cs [] = false
codes_ltb [] (d ∷ ds) = true
codes_ltb (c ∷ cs) (d ∷ ds) = ltb c d || (c == d && codes_ltb cs ds)

abbrev pub text_ltb : String → String → Bool
text_ltb s t = codes_ltb (codes s) (codes t)

abbrev insert_field : String → Value → Fields → Fields
insert_field k v end = field k v end
insert_field k v (field l w fs) =
    let rest = insert_field k v fs in
    if text_ltb k l then field k v (field l w fs) else field l w rest

-- A value as it is read and written again: the keys of a map are sorted.
unfoldable mutual
  pub sorted : Value → Value
  sorted (array xs) = array (sorted_items xs)
  sorted (object fs) = object (sorted_fields fs)
  sorted v = v

  pub sorted_items : Items → Items
  sorted_items nil = nil
  sorted_items (cons x xs) = cons (sorted x) (sorted_items xs)

  pub sorted_fields : Fields → Fields
  sorted_fields end = end
  sorted_fields (field k v fs) = insert_field k (sorted v) (sorted_fields fs)

-- The digit of a number below 16.
abbrev digit_from : List Char → ℕ → List Char
digit_from [] n = []
digit_from (c ∷ cs) n = let rest = digit_from cs (n - 1) in if n == 0 then c ∷ [] else rest

abbrev hex : ℕ → List Char
hex n = digit_from (chars "0123456789abcdef") n

abbrev unicode_escape : ℕ → List Char
unicode_escape n = append (chars "\\u") (
    append (hex (n / 4096))
      (append (hex (n / 256 % 16)) (append (hex (n / 16 % 16)) (hex (n % 16)))))

-- A character of a text, with the escapes for HTML.
abbrev escaped : Char → List Char
escaped c =
    let n = code c in
    if n == b'"' || n == b'\\'
    then "\\" ∷ c ∷ []
    else if n == 8
    then chars "\\b"
    else if n == 9
    then chars "\\t"
    else if n == 10
    then chars "\\n"
    else if n == 12
    then chars "\\f"
    else if n == 13
    then chars "\\r"
    else if ltb n 32 || n == b'<' || n == b'>' || n == b'&' || n == 0x2028 || n == 0x2029
    then unicode_escape n
    else c ∷ []

abbrev escape : List Char → List Char
escape [] = []
escape (c ∷ cs) = append (escaped c) (escape cs)

abbrev quoted : String → String
quoted s = "\"" ++ (of_chars (escape (chars s)) ++ "\"")

-- `json.Marshal`
unfoldable mutual
  pub marshal : Value → String
  marshal null = "null"
  marshal (boolean true) = "true"
  marshal (boolean false) = "false"
  marshal (number s) = s
  marshal (text s) = quoted s
  marshal (array nil) = "[]"
  marshal (array (cons x xs)) = "[" ++ (marshal x ++ (marshal_items xs ++ "]"))
  marshal (object end) = "{}"
  marshal (object (field k v fs)) =
      "{" ++ (quoted k ++ (":" ++ (marshal v ++ (marshal_fields fs ++ "}"))))

  pub marshal_items : Items → String
  marshal_items nil = ""
  marshal_items (cons x xs) = "," ++ (marshal x ++ marshal_items xs)

  pub marshal_fields : Fields → String
  marshal_fields end = ""
  marshal_fields (field k v fs) = "," ++ (quoted k ++ (":" ++ (marshal v ++ marshal_fields fs)))

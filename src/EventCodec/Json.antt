-- ===== src/EventCodec/Json.antt =====
-- What the code uses of cJSON, which is not part of the program: documents are built and taken apart
-- by its functions only. A number is a finite double.
use rv1126_custom_part.Base.{
  ℕ, ◌+◌, ◌≤◌, ℤ, pos, pos_part, neg_part, Bool, true, false, Option, none, some, List, [], ◌∷◌,
  ◌++◌, All, Text, text_eq, if◌then◌else◌, ◌≡◌, ◌≢◌,
}

-- The largest integer that a double holds together with all smaller ones.
abbrev pub safe_integer : ℕ
safe_integer = 9007199254740991

abbrev pub magnitude : ℤ → ℕ
magnitude z = pos_part z + neg_part z

-- The first member of that name.
unfoldable pub find_member {ℓ} : {A : Type ℓ} → Text → List (Text × A) → Option A
find_member key [] = none
find_member key ((k, v) ∷ members) =
    let rest = find_member key members in if text_eq k key then some v else rest

-- `integral` is the value of a number that floor does not change, `truncated` its conversion to an
-- integer; `elements` is cJSON_IsArray with the
-- items.
pub record JsonLib : Type 1 where
  pub Json : Type 0
  pub Number : Type 0
  pub of_int : ℤ → Number
  pub integral : Number → Option ℤ
  pub truncated : Number → ℤ
  pub below_zero : Number → Bool
  pub text : Text → Json
  pub number : Number → Json
  pub boolean : Bool → Json
  pub array : List Json → Json
  pub object : List (Text × Json) → Json
  pub member : Text → Json → Option Json
  pub as_text : Json → Option Text
  pub as_number : Json → Option Number
  pub as_bool : Json → Option Bool
  pub elements : Json → Option (List Json)
  pub is_object : Json → Bool
  pub integral-of_int : (z : ℤ) → magnitude z ≤ safe_integer → integral (of_int z) ≡ some z
  pub truncated-of_int : (z : ℤ) → magnitude z ≤ safe_integer → truncated (of_int z) ≡ z
  pub below_zero-of_int : (n : ℕ) → below_zero (of_int (pos n)) ≡ false
  pub as_text-text : (t : Text) → as_text (text t) ≡ some t
  pub as_number-number : (x : Number) → as_number (number x) ≡ some x
  pub as_bool-boolean : (b : Bool) → as_bool (boolean b) ≡ some b
  pub elements-array : (items : List Json) → elements (array items) ≡ some items
  pub is_object-object : (members : List (Text × Json)) → is_object (object members) ≡ true
  pub member-object :
      (key : Text) (members : List (Text × Json))
      → member key (object members) ≡ find_member key members

-- The largest integer up to which the printer writes every integer exactly: behind it, 15 digits are
-- taken for enough when they are the number up to one part in 2^52.
abbrev pub exact_integer : ℕ
exact_integer = 4503599627370495

-- CJSON_NESTING_LIMIT
abbrev pub nesting_limit : ℕ
nesting_limit = 1000

mutual
  -- A document of texts, truth values and integers that are printed exactly, so many levels deep.
  pub data Plain (J : JsonLib) : ℕ → JsonLib.Json J → Type 0 where
    plain_text : {n : ℕ} {t : Text} → Plain J n (JsonLib.text J t)
    plain_boolean : {n : ℕ} {b : Bool} → Plain J n (JsonLib.boolean J b)
    plain_int :
        {n : ℕ} {z : ℤ}
        → magnitude z ≤ exact_integer
        → Plain J n (JsonLib.number J (JsonLib.of_int J z))
    plain_array :
        {n : ℕ} {items : List (JsonLib.Json J)}
        → PlainItems J n items
        → Plain J (n + 1) (JsonLib.array J items)
    plain_object :
        {n : ℕ} {members : List (Text × JsonLib.Json J)}
        → PlainMembers J n members
        → Plain J (n + 1) (JsonLib.object J members)

  pub data PlainItems (J : JsonLib) : ℕ → List (JsonLib.Json J) → Type 0 where
    no_items : {n : ℕ} → PlainItems J n []
    item :
        {n : ℕ} {j : JsonLib.Json J} {items : List (JsonLib.Json J)}
        → Plain J n j
        → PlainItems J n items
        → PlainItems J n (j ∷ items)

  pub data PlainMembers (J : JsonLib) : ℕ → List (Text × JsonLib.Json J) → Type 0 where
    no_members : {n : ℕ} → PlainMembers J n []
    entry :
        {n : ℕ} {key : Text} {j : JsonLib.Json J} {members : List (Text × JsonLib.Json J)}
        → Plain J n j
        → PlainMembers J n members
        → PlainMembers J n ((key, j) ∷ members)

-- Printing on one line, and parsing a text with a newline behind it. A plain document is read back as
-- it was; of a larger integer the printer may leave digits out.
pub record JsonText (J : JsonLib) : Type 0 where
  pub print : JsonLib.Json J → Text
  pub parse : Text → Option (JsonLib.Json J)
  pub parse-print :
      (n : ℕ) (j : JsonLib.Json J)
      → Plain J n j
      → n ≤ nesting_limit
      → parse (print j ++ 10 ∷ []) ≡ some j
  pub print-line : (j : JsonLib.Json J) → All (λ c. c ≢ 10) (print j)

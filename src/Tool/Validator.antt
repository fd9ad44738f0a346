-- ===== src/Tool/Validator.antt =====
-- internal/tool/validator.go: the lightweight JSON schema check of a tool's input. A decoded JSON
-- document, and a schema built in Go, is a `Value`; `strs` is a `[]string`, which only a schema
-- built in Go holds. Go walks a map in any order; the model walks the fields as they are listed.
pub mod Required
pub mod Conformance
use heike.Prelude.{
  ℕ, zero, suc, String, Bool, true, false, ◌||◌, Option, none, some, List, [], ◌∷◌, ◌==◌,
  if◌then◌else◌,
}

mutual
  pub data Value : Type 0 where
    null : Value
    bool : Bool → Value
    num : ℕ → Value
    str : String → Value
    arr : Items → Value
    strs : List String → Value
    obj : Fields → Value

  pub data Items : Type 0 where
    nil : Items
    cons : Value → Items → Items

  pub data Fields : Type 0 where
    end : Fields
    field : String → Value → Fields → Fields

-- m[key] for a `map[string]interface{}`
unfoldable pub get : String → Fields → Option Value
get key end = none
get key (field k v rest) = if k == key then some v else get key rest

-- The type assertions on interface values.
abbrev pub as_string : Option Value → Option String
as_string (some (str s)) = some s
as_string _ = none

abbrev pub as_object : Option Value → Option Fields
as_object (some (obj fs)) = some fs
as_object _ = none

-- Where a value stands: a field, or an item of an array, `name[i]`.
pub data Place : Type 0 where
  at_field : String → Place
  at_item : Place → ℕ → Place

pub data Mismatch : Type 0 where
  invalid_json : Mismatch
  missing_required : String → Mismatch
  expected : Place → String → Mismatch

abbrev pub has : Option Value → Bool
has none = false
has (some v) = true

-- The first required name that the input lacks.
unfoldable pub require_names : List String → Fields → Option Mismatch
unfolding get
require_names [] input = none
require_names (name ∷ rest) input =
    if has (get name input) then require_names rest input else some (missing_required name)

-- A `[]interface{}` of names; an item that is no string is skipped.
unfoldable pub require_items : Items → Fields → Option Mismatch
unfolding get
require_items nil input = none
require_items (cons (str name) rest) input =
    if has (get name input) then require_items rest input else some (missing_required name)
require_items (cons _ rest) input = require_items rest input

unfoldable pub check_required : Option Value → Fields → Option Mismatch
unfolding require_names require_items
check_required (some (arr items)) input = require_items items input
check_required (some (strs names)) input = require_names names input
check_required _ input = none

-- The type names that `validateType` knows.
unfoldable pub is_known_type : String → Bool
is_known_type t =
    (t == "string")
    || (t == "number")
    || (t == "integer")
    || (t == "boolean")
    || (t == "array")
    || (t == "object")

-- A value that is not of the type that its schema names; a type name that is unknown is passed.
unfoldable pub of_type : Place → String → Bool → Option Mismatch
unfolding is_known_type
of_type place t fits =
    if is_known_type t then (if fits then none else some (expected place t)) else none

-- The values with nothing below them.
unfoldable pub check_plain : Place → Option String → Value → Option Mismatch
unfolding of_type
check_plain place none v = none
check_plain place (some t) (str s) = of_type place t (t == "string")
check_plain place (some t) (num n) = of_type place t ((t == "number") || (t == "integer"))
check_plain place (some t) (bool b) = of_type place t (t == "boolean")
check_plain place (some t) (arr items) = of_type place t (t == "array")
check_plain place (some t) (obj fs) = of_type place t (t == "object")
check_plain place (some t) null = of_type place t false
check_plain place (some t) (strs names) = of_type place t false

-- The first failure of two checks.
abbrev pub or_else : Option Mismatch → Option Mismatch → Option Mismatch
or_else none later = later
or_else (some m) later = some m

-- A field that the schema does not declare, or not by an object, is passed over.
abbrev pub if_declared : Option Fields → (Fields → Option Mismatch) → Option Mismatch
if_declared none check = none
if_declared (some schema) check = check schema

abbrev pub is_type : Option String → String → Bool
is_type none t = false
is_type (some s) t = s == t

unfoldable mutual
  unfolding get check_required check_plain

  pub validate_type : Place → Fields → Value → Option Mismatch
  validate_type place schema (arr items) =
      let below = validate_items place zero (as_object (get "items" schema)) items in
      if is_type (as_string (get "type" schema)) "array"
      then below
      else check_plain place (as_string (get "type" schema)) (arr items)
  validate_type place schema (obj fs) =
      let below = validate_properties (as_object (get "properties" schema)) fs in
      if is_type (as_string (get "type" schema)) "object"
      then or_else (check_required (get "required" schema) fs) below
      else check_plain place (as_string (get "type" schema)) (obj fs)
  validate_type place schema null = check_plain place (as_string (get "type" schema)) null
  validate_type place schema (bool b) = check_plain place (as_string (get "type" schema)) (bool b)
  validate_type place schema (num n) = check_plain place (as_string (get "type" schema)) (num n)
  validate_type place schema (str s) = check_plain place (as_string (get "type" schema)) (str s)
  validate_type place schema (strs names) =
      check_plain place (as_string (get "type" schema)) (strs names)

  -- The loop over the items of an array, with the schema of an item if there is one.
  pub validate_items : Place → ℕ → Option Fields → Items → Option Mismatch
  validate_items place i none items = none
  validate_items place i (some schema) nil = none
  validate_items place i (some schema) (cons v rest) =
      let later = validate_items place (suc i) (some schema) rest in
      or_else (validate_type (at_item place i) schema v) later

  -- The loop over the input's fields, with the schema's properties if there are any.
  pub validate_properties : Option Fields → Fields → Option Mismatch
  validate_properties none fs = none
  validate_properties (some props) end = none
  validate_properties (some props) (field key v rest) =
      let later = validate_properties (some props) rest in
      or_else
        (if_declared (as_object (get key props)) (λ schema. validate_type (at_field key) schema v))
        later

unfoldable pub validate_object : Fields → Fields → Option Mismatch
unfolding get check_required validate_properties
validate_object schema input =
    or_else (check_required (get "required" schema) input)
      (validate_properties (as_object (get "properties" schema)) input)

-- `input` is what `json.Unmarshal` into a map gives, `none` if it fails.
unfoldable pub validate_input : Fields → Option Fields → Option Mismatch
unfolding validate_object
validate_input schema none = some invalid_json
validate_input schema (some input) = validate_object schema input

-- ===== src/Tool/Validator/Conformance.antt =====
-- What an accepted input satisfies: a document conforms to its schema, said without the check.
use heike.Prelude.{
  zero, suc, ℕ, String, Bool, true, false, ◌≡◌, ◌≢◌, refl, ap, ◌↔◌, ◌⊎◌, inl, inr, Option, none,
  some, List, [], ◌∷◌, arith, All, Bool-cases, ◌==◌, eq_iff,
}
use heike.Tool.Validator.{
  Value, null, bool, num, str, arr, strs, obj, Items, nil, cons, Fields, end, field, get, as_object,
  as_string, Place, at_field, at_item, Mismatch, or_else, if_declared, is_known_type, of_type,
  check_plain, is_type, validate_type, validate_items, validate_properties,
}
use heike.Tool.Validator.Required.{Required, Present, check_required-none_iff}

abbrev type_names : List String
type_names = "string" ∷ "number" ∷ "integer" ∷ "boolean" ∷ "array" ∷ "object" ∷ []

-- The types of JSON schema that a value has.
abbrev pub HasType : Value → String → Type 0
HasType (str s) t = t ≡ "string"
HasType (num n) t = (t ≡ "number") ⊎ (t ≡ "integer")
HasType (bool b) t = t ≡ "boolean"
HasType (arr items) t = t ≡ "array"
HasType (obj fs) t = t ≡ "object"
HasType null t = ⊥
HasType (strs names) t = ⊥

-- The value is of the type that its schema names. A schema may name none, and a name that is no
-- type of JSON schema asks for nothing.
abbrev pub OfType : Option String → Value → Type 0
OfType none v = Unit
OfType (some t) v = HasType v t ⊎ All (λ name. t ≢ name) type_names

abbrev pub schema_type : Fields → Option String
schema_type schema = as_string (get "type" schema)

abbrev pub IfDeclared : Option Fields → (Fields → Type 0) → Type 0
IfDeclared none P = Unit
IfDeclared (some schema) P = P schema

-- Every name that the schema requires is there.
abbrev pub IsComplete : Option Value → Fields → Type 0
IsComplete required fs = (name : String) → Required required name → Present fs name

-- The value has the type of its schema, and what stands below it conforms: the items of an array
-- to the schema of the items, the fields of an object to their own, with none missing.
unfoldable mutual
  pub Conforms : Fields → Value → Type 0
  Conforms schema (arr items) =
      OfType (schema_type schema) (arr items)
      × ((schema_type schema ≢ some "array") ⊎ EachItem (as_object (get "items" schema)) items)
  Conforms schema (obj fs) =
      OfType (schema_type schema) (obj fs)
      × ((schema_type schema ≢ some "object")
          ⊎ (IsComplete (get "required" schema) fs
              × EachField (as_object (get "properties" schema)) fs))
  Conforms schema null = OfType (schema_type schema) null
  Conforms schema (bool b) = OfType (schema_type schema) (bool b)
  Conforms schema (num n) = OfType (schema_type schema) (num n)
  Conforms schema (str s) = OfType (schema_type schema) (str s)
  Conforms schema (strs names) = OfType (schema_type schema) (strs names)

  pub EachItem : Option Fields → Items → Type 0
  EachItem none items = Unit
  EachItem (some schema) nil = Unit
  EachItem (some schema) (cons v rest) = Conforms schema v × EachItem (some schema) rest

  pub EachField : Option Fields → Fields → Type 0
  EachField none fs = Unit
  EachField (some props) end = Unit
  EachField (some props) (field key v rest) =
      IfDeclared (as_object (get key props)) (λ schema. Conforms schema v)
      × EachField (some props) rest

or_else-none_iff : (a b : Option Mismatch) → (or_else a b ≡ none) ↔ ((a ≡ none) × (b ≡ none))
or_else-none_iff none b = (λ h. (refl, h), λ h. h.1)
or_else-none_iff (some m) b = (λ h. absurd (cc), λ h. absurd (cc (h.0)))

if_declared-none_iff :
    (o : Option Fields) (check : Fields → Option Mismatch) (P : Fields → Type 0)
    → ((schema : Fields) → (check schema ≡ none) ↔ P schema)
    → (if_declared o check ≡ none) ↔ IfDeclared o P
if_declared-none_iff none check P h = (λ _. tt, λ _. refl)
if_declared-none_iff (some schema) check P h = h schema

unknown_iff : (t : String) → (is_known_type t ≡ false) ↔ All (λ name. t ≢ name) type_names
unfolding is_known_type
unknown_iff t = ground (
  arith,
  eq_iff t "string",
  eq_iff t "number",
  eq_iff t "integer",
  eq_iff t "boolean",
  eq_iff t "array",
  eq_iff t "object",
)

of_type-none :
    (place : Place) (t : String) (fits : Bool)
    → (of_type place t fits ≡ none) ↔ ((fits ≡ true) ⊎ (is_known_type t ≡ false))
unfolding of_type
of_type-none place t true = ground arith
of_type-none place t false = ground arith

-- A test that decides a type.
check_type {ℓ} :
    {P : Type ℓ} (place : Place) (t : String) (fits : Bool)
    → ((fits ≡ true) ↔ P)
    → (of_type place t fits ≡ none) ↔ (P ⊎ All (λ name. t ≢ name) type_names)
check_type place t fits h = (
  λ e. elim ((of_type-none place t fits).0 e) [
    | inl fine ↦ inl (h.0 fine)
    | inr free ↦ inr ((unknown_iff t).0 free)
  ],
  λ e.
      (of_type-none place t fits).1
        (elim e [ inl here ↦ inl (h.1 here) | inr free ↦ inr ((unknown_iff t).1 free) ]),
)

check_plain-none_iff :
    (place : Place) (t : Option String) (v : Value) → (check_plain place t v ≡ none) ↔ OfType t v
unfolding check_plain
check_plain-none_iff place none v = (λ _. tt, λ _. refl)
check_plain-none_iff place (some t) (str s) = check_type place t _ (eq_iff t "string")
check_plain-none_iff place (some t) (num n) =
    check_type place t _ (ground (arith, eq_iff t "number", eq_iff t "integer"))
check_plain-none_iff place (some t) (bool b) = check_type place t _ (eq_iff t "boolean")
check_plain-none_iff place (some t) (arr items) = check_type place t _ (eq_iff t "array")
check_plain-none_iff place (some t) (obj fs) = check_type place t _ (eq_iff t "object")
check_plain-none_iff place (some t) null =
    check_type place t false (λ h. absurd (cc), λ h. absurd h)
check_plain-none_iff place (some t) (strs names) =
    check_type place t false (λ h. absurd (cc), λ h. absurd h)

is_type-cases :
    (o : Option String) (t : String)
    → ((is_type o t ≡ true) × (o ≡ some t)) ⊎ ((is_type o t ≡ false) × (o ≢ some t))
is_type-cases none t = inr (refl, λ h. absurd (cc))
is_type-cases (some s) t = elim (Bool-cases (s == t)) [
  | inl same ↦ inl (same, ap some ((eq_iff s t).0 same))
  | inr other ↦ inr (other, λ h. grind (arith, other, eq_iff s t, h))
]

of_named_type : (o : Option String) (t : String) (v : Value) → o ≡ some t → HasType v t → OfType o v
of_named_type o t v named h = rw named (inl h)

-- The check of a value, of the items of an array and of the fields of an object.
mutual
  unfolding validate_type validate_items validate_properties Conforms EachItem EachField

  validate_type-none_iff :
      (place : Place) (schema : Fields) (v : Value)
      → (validate_type place schema v ≡ none) ↔ Conforms schema v
  validate_type-none_iff place schema (arr items) =
      let below = validate_items-none_iff place zero (as_object (get "items" schema)) items in
      elim (is_type-cases (schema_type schema) "array") [
        | inl (is, named) ↦ rw is (
          λ h. (of_named_type _ "array" (arr items) named refl, inr (below.0 h)),
          λ h. elim h.1 [ inl off ↦ absurd (off named) | inr each ↦ below.1 each ],
        )
        | inr (is, other) ↦ rw is (
          λ h. ((check_plain-none_iff place (schema_type schema) (arr items)).0 h, inl other),
          λ h. (check_plain-none_iff place (schema_type schema) (arr items)).1 h.0,
        )
      ]
  validate_type-none_iff place schema (obj fs) =
      let below = validate_properties-none_iff (as_object (get "properties" schema)) fs in
      let required = check_required-none_iff (get "required" schema) fs in
      elim (is_type-cases (schema_type schema) "object") [
        | inl (is, named) ↦ rw is (
          λ h.
              let both = (or_else-none_iff _ _).0 h in
              (
                of_named_type _ "object" (obj fs) named refl,
                inr (required.0 both.0, below.0 both.1),
              ),
          λ h. elim h.1 [
            | inl off ↦ absurd (off named)
            | inr (whole, each) ↦ (or_else-none_iff _ _).1 (required.1 whole, below.1 each)
          ],
        )
        | inr (is, other) ↦ rw is (
          λ h. ((check_plain-none_iff place (schema_type schema) (obj fs)).0 h, inl other),
          λ h. (check_plain-none_iff place (schema_type schema) (obj fs)).1 h.0,
        )
      ]
  validate_type-none_iff place schema null = check_plain-none_iff place (schema_type schema) null
  validate_type-none_iff place schema (bool b) =
      check_plain-none_iff place (schema_type schema) (bool b)
  validate_type-none_iff place schema (num n) =
      check_plain-none_iff place (schema_type schema) (num n)
  validate_type-none_iff place schema (str s) =
      check_plain-none_iff place (schema_type schema) (str s)
  validate_type-none_iff place schema (strs names) =
      check_plain-none_iff place (schema_type schema) (strs names)

  validate_items-none_iff :
      (place : Place) (i : ℕ) (schema : Option Fields) (items : Items)
      → (validate_items place i schema items ≡ none) ↔ EachItem schema items
  validate_items-none_iff place i none items = (λ _. tt, λ _. refl)
  validate_items-none_iff place i (some schema) nil = (λ _. tt, λ _. refl)
  validate_items-none_iff place i (some schema) (cons v rest) =
      let first = validate_type-none_iff (at_item place i) schema v in
      let later = validate_items-none_iff place (suc i) (some schema) rest in
      (
        λ h. let both = (or_else-none_iff _ _).0 h in (first.0 both.0, later.0 both.1),
        λ h. (or_else-none_iff _ _).1 (first.1 h.0, later.1 h.1),
      )

  validate_properties-none_iff :
      (props : Option Fields) (fs : Fields)
      → (validate_properties props fs ≡ none) ↔ EachField props fs
  validate_properties-none_iff none fs = (λ _. tt, λ _. refl)
  validate_properties-none_iff (some props) end = (λ _. tt, λ _. refl)
  validate_properties-none_iff (some props) (field key v rest) =
      let first =
        if_declared-none_iff (as_object (get key props))
          (λ schema. validate_type (at_field key) schema v) (λ schema. Conforms schema v)
          (λ schema. validate_type-none_iff (at_field key) schema v) in
      let later = validate_properties-none_iff (some props) rest in
      (
        λ h. let both = (or_else-none_iff _ _).0 h in (first.0 both.0, later.0 both.1),
        λ h. (or_else-none_iff _ _).1 (first.1 h.0, later.1 h.1),
      )

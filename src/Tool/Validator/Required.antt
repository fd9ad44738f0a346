-- ===== src/Tool/Validator/Required.antt =====
-- The names that a schema requires of an object, and what the check of them accepts.
use heike.Prelude.{
  String, ◌≡◌, refl, ◌↔◌, ◌⊎◌, inl, inr, true, Option, none, some, List, [], ◌∷◌, arith, Any,
  Bool-cases,
}
use heike.Tool.Validator.{
  Value, str, arr, strs, Items, nil, cons, Fields, get, has, require_names, require_items,
  check_required,
}

-- The name stands in a `[]interface{}` of names.
abbrev pub NamedBy : Items → String → Type 0
NamedBy nil name = ⊥
NamedBy (cons (str s) rest) name = (s ≡ name) ⊎ NamedBy rest name
NamedBy (cons _ rest) name = NamedBy rest name

abbrev pub Required : Option Value → String → Type 0
Required (some (arr items)) name = NamedBy items name
Required (some (strs names)) name = Any (λ s. s ≡ name) names
Required _ name = ⊥

abbrev pub Present : Fields → String → Type 0
Present input name = has (get name input) ≡ true

require_names-none_iff :
    (names : List String) (input : Fields)
    → (require_names names input ≡ none)
      ↔ ((name : String) → Any (λ s. s ≡ name) names → Present input name)
unfolding require_names
require_names-none_iff [] input = (λ _ name m. absurd m, λ _. refl)
require_names-none_iff (s ∷ rest) input = elim (Bool-cases (has (get s input))) [
  | inl there ↦ (
    λ h name m. elim m [
      | inl e ↦ rw (← e) there
      | inr q ↦ (require_names-none_iff rest input).0 (rw there at h) name q
    ],
    λ h. rw there ((require_names-none_iff rest input).1 (λ name m. h name (inr m))),
  )
  | inr gone ↦ (λ h. absurd (ground arith), λ h. absurd (cc (h s (inl refl))))
]

require_items-none_iff :
    (items : Items) (input : Fields)
    → (require_items items input ≡ none)
      ↔ ((name : String) → NamedBy items name → Present input name)
unfolding require_items
require_items-none_iff nil input = (λ _ name m. absurd m, λ _. refl)
require_items-none_iff (cons (str s) rest) input = elim (Bool-cases (has (get s input))) [
  | inl there ↦ (
    λ h name m. elim m [
      | inl e ↦ rw (← e) there
      | inr q ↦ (require_items-none_iff rest input).0 (rw there at h) name q
    ],
    λ h. rw there ((require_items-none_iff rest input).1 (λ name m. h name (inr m))),
  )
  | inr gone ↦ (λ h. absurd (ground arith), λ h. absurd (cc (h s (inl refl))))
]
require_items-none_iff (cons _ rest) input = require_items-none_iff rest input

pub check_required-none_iff :
    (required : Option Value) (input : Fields)
    → (check_required required input ≡ none)
      ↔ ((name : String) → Required required name → Present input name)
unfolding check_required
check_required-none_iff (some (arr items)) input = require_items-none_iff items input
check_required-none_iff (some (strs names)) input = require_names-none_iff names input
check_required-none_iff _ input = (λ _ name m. absurd m, λ _. refl)

-- ===== src/Errors.antt =====
-- internal/errors/errors.go: the sentinel categories, wrapping, and what may be retried.
-- A Go error is a value of `Err`. A formatted message is kept as its format and its arguments.
pub mod Wrapping
use heike.Prelude.{
  ℕ, String, ◌≡◌, ◌⊎◌, inl, inr, refl, Bool, true, false, ◌||◌, Option, none, some, List, [], ◌∷◌,
  eqb, if◌then◌else◌,
}

pub data Category : Type 0 where
  duplicate_event approval_required permission_denied invalid_input not_found : Category
  conflict transient invalid_model_output internal : Category

abbrev pub rank : Category → ℕ
rank duplicate_event = 0
rank approval_required = 1
rank permission_denied = 2
rank invalid_input = 3
rank not_found = 4
rank conflict = 5
rank transient = 6
rank invalid_model_output = 7
rank internal = 8

-- Two sentinels are the same error value.
abbrev pub same_category : Category → Category → Bool
same_category a b = eqb (rank a) (rank b)

-- `canceled` and `deadline_exceeded` are those of package context; `external` is an error that
-- code outside this repository made.
pub data Err : Type 0 where
  sentinel : Category → Err
  canceled deadline_exceeded : Err
  external : String → Err
  plain : String → List String → Err
  wrapped : String → List String → Err → Err

-- errors.Is(err, category) for a sentinel
unfoldable pub is : Err → Category → Bool
is (sentinel k) c = same_category k c
is (wrapped f a e) c = is e c
is canceled c = false
is deadline_exceeded c = false
is (external s) c = false
is (plain f a) c = false

-- errors.Is(err, context.Canceled)
unfoldable pub is_canceled : Err → Bool
is_canceled canceled = true
is_canceled (wrapped f a e) = is_canceled e
is_canceled (sentinel k) = false
is_canceled deadline_exceeded = false
is_canceled (external s) = false
is_canceled (plain f a) = false

-- A nil error stays nil.
unfoldable pub wrap : Option Err → String → Option Err
wrap none message = none
wrap (some e) message = some (wrapped "%s: %w" (message ∷ []) e)

unfoldable pub wrap_with_category : Option Err → String → Err → Option Err
wrap_with_category none message category = none
wrap_with_category (some e) message category = some (wrapped "%s: %w" (message ∷ []) category)

unfoldable pub is_category : Option Err → Category → Bool
unfolding is
is_category none c = false
is_category (some e) c = is e c

-- NotFound, PermissionDenied, InvalidInput, Transient, Internal, InvalidModelOutput
unfoldable pub of_category : Category → String → Err
of_category c message = wrapped "%s: %w" (message ∷ []) (sentinel c)

retryable : Err → Bool
unfolding is is_canceled
retryable e = if is_canceled e then false else is e transient || is e conflict

unfoldable pub is_retryable : Option Err → Bool
unfolding retryable
is_retryable none = false
is_retryable (some e) = retryable e

-- What a Go function with an error result returns: a value, or an error.
pub data Result {ℓ} (A : Type ℓ) : Type ℓ where
  ok : A → Result A
  err : Err → Result A

pub Result-cases {ℓ} :
    {A : Type ℓ} (r : Result A) → ((a : A) × (r ≡ ok a)) ⊎ ((e : Err) × (r ≡ err e))
Result-cases (ok a) = inl (a, refl)
Result-cases (err e) = inr (e, refl)

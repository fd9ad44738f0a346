-- ===== src/Errors/Wrapping.antt =====
-- What wrapping keeps of an error, and what it replaces.
use heike.Prelude.{String, ◌≡◌, refl, Option, none, some}
use heike.Errors.{
  Category, Err, is_category, is_retryable, same_category, sentinel, wrap, wrap_with_category,
}

-- `Wrap` keeps the category of an error and whether it may be retried, nil included.
pub wrap_keeps :
    (e : Option Err) (message : String) (c : Category)
    → (is_category (wrap e message) c ≡ is_category e c)
      × (is_retryable (wrap e message) ≡ is_retryable e)
unfolding wrap is_category is_retryable
wrap_keeps none message c = (refl, refl)
wrap_keeps (some e) message c = (refl, refl)

-- `WrapWithCategory` forgets the cause: an error wrapped with a sentinel has that category and no
-- other, and may be retried exactly when the sentinel may.
pub wrap_with_category_replaces :
    (e : Err) (message : String) (k c : Category)
    → (is_category (wrap_with_category (some e) message (sentinel k)) c ≡ same_category k c)
      × (is_retryable (wrap_with_category (some e) message (sentinel k))
          ≡ is_retryable (some (sentinel k)))
unfolding wrap_with_category is_category is_retryable
wrap_with_category_replaces e message k c = (refl, refl)

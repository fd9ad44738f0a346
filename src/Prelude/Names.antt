-- ===== src/Prelude/Names.antt =====
-- Lists of names: membership, names that stand once, and the count of those.
use Prim.Native.Nat.{◌≤◌, ◌<◌}
use Prim.Native.String.{String}
use mathlib.Core.Path.{◌≡◌, refl, ◌∙◌}
use mathlib.Core.Logic.{inl, inr}
use mathlib.Core.Bool.{Bool, true, false, not, ◌&&◌, ◌||◌}
use mathlib.Core.List.{List, [], ◌∷◌, ◌++◌}
use native.Mathlib.Omega.{arith}
use text.Mathlib.Text.{◌==◌}
use text.Mathlib.TextEquality.{eq_iff}
use text.Mathlib.TextPositions.{eq_refl}
use heike.Prelude.Tests.{if◌then◌else◌, Bool-cases}
use heike.Prelude.Lists.{length}

unfoldable pub mem : String → List String → Bool
mem x [] = false
mem x (y ∷ ys) = y == x || mem x ys

pub mem-append : (x : String) (ys zs : List String) → mem x (ys ++ zs) ≡ mem x ys || mem x zs
unfolding mem
mem-append x [] zs = refl
mem-append x (y ∷ ys) zs = ground (arith, mem-append x ys zs)

pub mem-single : (x name : String) → mem x (name ∷ []) ≡ (name == x)
unfolding mem
mem-single x name = ground arith

-- No name stands twice.
abbrev pub IsDistinct : List String → Type 0
IsDistinct [] = Unit
IsDistinct (x ∷ xs) = (mem x xs ≡ false) × IsDistinct xs

pub IsDistinct-snoc :
    (order : List String) (name : String)
    → IsDistinct order
    → mem name order ≡ false
    → IsDistinct (order ++ name ∷ [])
unfolding mem
IsDistinct-snoc [] name d h = (refl, tt)
IsDistinct-snoc (x ∷ xs) name d h = (
  grind
      (arith, mem-append x xs (name ∷ []), mem-single x name, h, d.0, eq_iff x name, eq_iff name x),
  IsDistinct-snoc xs name d.1 (ground (arith, h)),
)

pub IsDistinct-append :
    (xs ys : List String)
    → IsDistinct xs
    → IsDistinct ys
    → ((x : String) → mem x ys ≡ true → mem x xs ≡ false)
    → IsDistinct (xs ++ ys)
unfolding mem
IsDistinct-append [] ys dx dy apart = dy
IsDistinct-append (x ∷ xs) ys dx dy apart = (
  ground (arith, mem-append x xs ys, dx.0, apart x, eq_refl x),
  IsDistinct-append xs ys dx.1 dy (λ z m. ground (arith, apart z m)),
)

-- Every name of the first list is in the second.
abbrev pub Within : List String → List String → Type 0
Within xs ys = (x : String) → mem x xs ≡ true → mem x ys ≡ true

-- All occurrences of a name taken out.
unfoldable pub without : String → List String → List String
without x [] = []
without x (y ∷ ys) = let rest = without x ys in if y == x then rest else y ∷ rest

mem-without : (x y : String) (ys : List String) → mem y (without x ys) ≡ mem y ys && not (x == y)
unfolding mem without
mem-without x y [] = refl
mem-without x y (z ∷ ys) = ground (arith, mem-without x y ys, eq_iff z x, eq_iff z y, eq_iff x y)

length-without : (x : String) (ys : List String) → length (without x ys) ≤ length ys
unfolding without
length-without x [] = omega arith
length-without x (y ∷ ys) = ground (arith, length-without x ys)

length-without_of_mem :
    (x : String) (ys : List String) → mem x ys ≡ true → length (without x ys) < length ys
unfolding mem without
length-without_of_mem x [] h = ground (arith, h)
length-without_of_mem x (y ∷ ys) h =
    ground (arith, h, length-without x ys, length-without_of_mem x ys)

-- Different names within a list are no more than the list is long.
pub length-le_of_Within :
    (xs ys : List String) → IsDistinct xs → Within xs ys → length xs ≤ length ys
unfolding mem
length-le_of_Within [] ys d w = omega arith
length-le_of_Within (x ∷ xs) ys d w =
    let rest =
      length-le_of_Within xs (without x ys) d.1
        (λ z m. mem-without x z ys ∙ ground (arith, w z, m, eq_iff x z, d.0)) in
    omega (arith, rest, length-without_of_mem x ys (w x (ground (arith, eq_refl x))))

-- As many different names within a list as it is long are all of its names.
pub Within-of_length :
    (xs ys : List String) → IsDistinct xs → Within xs ys → length ys ≤ length xs → Within ys xs
unfolding mem
Within-of_length xs ys d w full y m = elim (Bool-cases (mem y xs)) [
  | inl there ↦ there
  | inr absent ↦ absurd (
      omega (
        arith,
        full,
        length-le_of_Within (y ∷ xs) ys (absent, d) (λ z n. ground (arith, w z, n, m, eq_iff y z)),
      ))
]

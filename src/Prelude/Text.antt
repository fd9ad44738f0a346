-- ===== src/Prelude/Text.antt =====
-- `strings.TrimSpace`, with the white space of `unicode.IsSpace`.
use Prim.Native.Nat.{ℕ, ◌≤◌}
use Prim.Native.Char.{Char, code}
use Prim.Native.String.{String}
use mathlib.Core.Path.{◌≡◌, refl}
use mathlib.Core.Bool.{Bool, true, false, ◌&&◌, ◌||◌}
use mathlib.Core.List.{List, [], ◌∷◌}
use mathlib.Core.Logic.{◌≢◌, inl, inr}
use native.Mathlib.Omega.{arith}
use text.Mathlib.Text.{◌==◌}
use text.Mathlib.TextEquality.{eq_iff}
use heike.Prelude.Lists.{length}
use heike.Prelude.Tests.{leb, eqb, if◌then◌else◌, Bool-cases}

-- The code points of a text.
abbrev pub codes : String → List ℕ
codes String.[] = []
codes (String.◌∷◌ c s) = code c ∷ codes s

unfoldable pub is_space : ℕ → Bool
is_space c =
    (leb 9 c && leb c 13)
    || eqb c 32
    || eqb c 0x85
    || eqb c 0xa0
    || eqb c 0x1680
    || (leb 0x2000 c && leb c 0x200a)
    || eqb c 0x2028
    || eqb c 0x2029
    || eqb c 0x202f
    || eqb c 0x205f
    || eqb c 0x3000

is_empty : String → Bool
is_empty String.[] = true
is_empty (String.◌∷◌ c s) = false

trim_left : String → String
trim_left String.[] = String.[]
trim_left (String.◌∷◌ c s) =
    let rest = trim_left s in if is_space (code c) then rest else String.◌∷◌ c s

-- Drops `c` if it is white space and nothing is kept behind it.
keep : Char → String → String
unfolding is_empty
keep c rest = if is_space (code c) && is_empty rest then String.[] else String.◌∷◌ c rest

trim_right : String → String
trim_right String.[] = String.[]
trim_right (String.◌∷◌ c s) = keep c (trim_right s)

unfoldable pub trim_space : String → String
unfolding trim_left trim_right keep is_space
trim_space s = trim_right (trim_left s)

-- The text is empty or begins with something other than white space.
abbrev Unpadded : String → Type 0
Unpadded String.[] = Unit
Unpadded (String.◌∷◌ c s) = is_space (code c) ≡ false

trim_left-Unpadded : (s : String) → Unpadded (trim_left s)
unfolding trim_left
trim_left-Unpadded String.[] = tt
trim_left-Unpadded (String.◌∷◌ c s) = elim (Bool-cases (is_space (code c))) [
  | inl p ↦ rw p (trim_left-Unpadded s)
  | inr p ↦ rw p p
]

trim_left_of_Unpadded : (s : String) → Unpadded s → trim_left s ≡ s
unfolding trim_left
trim_left_of_Unpadded String.[] h = refl
trim_left_of_Unpadded (String.◌∷◌ c s) h = rw h

trim_right-Unpadded : (s : String) → Unpadded s → Unpadded (trim_right s)
unfolding trim_right keep
trim_right-Unpadded String.[] h = tt
trim_right-Unpadded (String.◌∷◌ c s) h = rw (h, keep) h

trim_right-keep : (c : Char) (r : String) → trim_right r ≡ r → trim_right (keep c r) ≡ keep c r
unfolding trim_right keep
trim_right-keep c r h = elim (Bool-cases (is_space (code c) && is_empty r)) [
  | inl p ↦ rw p
  | inr p ↦ rw p (rw h (rw p))
]

trim_right_idem : (s : String) → trim_right (trim_right s) ≡ trim_right s
unfolding trim_right
trim_right_idem String.[] = refl
trim_right_idem (String.◌∷◌ c s) = trim_right-keep c (trim_right s) (trim_right_idem s)

-- Trimming twice is trimming once.
pub trim_space_idem : (s : String) → trim_space (trim_space s) ≡ trim_space s
unfolding trim_space
trim_space_idem s =
    rw
      (trim_left_of_Unpadded (trim_right (trim_left s))
        (trim_right-Unpadded (trim_left s) (trim_left-Unpadded s)))
      (trim_right_idem (trim_left s))

-- Two texts that test different are different.
pub differ : (a b : String) → (a == b) ≡ false → a ≢ b
differ a b h e = ground (arith, eq_iff a b)

length-trim_left : (s : String) → length (codes (trim_left s)) ≤ length (codes s)
unfolding trim_left
length-trim_left String.[] = omega arith
length-trim_left (String.◌∷◌ c s) = ground (arith, length-trim_left s)

length-trim_right : (s : String) → length (codes (trim_right s)) ≤ length (codes s)
unfolding trim_right keep
length-trim_right String.[] = omega arith
length-trim_right (String.◌∷◌ c s) = ground (arith, length-trim_right s)

pub length-trim_space : (s : String) → length (codes (trim_space s)) ≤ length (codes s)
unfolding trim_space
length-trim_space s = omega (arith, length-trim_right (trim_left s), length-trim_left s)

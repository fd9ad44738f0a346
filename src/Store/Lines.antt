-- ===== src/Store/Lines.antt =====
-- strings.TrimSpace and strings.Split at line ends, on the code points of a file.
use heike.Prelude.{
  ℕ, ◌≡◌, refl, ap, sym, ◌∙◌, Bool, true, false, ◌&&◌, ◌||◌, List, [], ◌∷◌, ◌++◌, arith, eqb,
  if◌then◌else◌, is_space, All,
}
use mathlib.Core.List.{append_assoc}

abbrev pub newline : ℕ
newline = 10

abbrev pub is_nil {ℓ} : {A : Type ℓ} → List A → Bool
is_nil [] = true
is_nil (x ∷ xs) = false

unfoldable pub trim_front : List ℕ → List ℕ
trim_front [] = []
trim_front (c ∷ s) = let rest = trim_front s in if is_space c then rest else c ∷ s

abbrev keep_code : ℕ → List ℕ → List ℕ
keep_code c rest = if is_space c && is_nil rest then [] else c ∷ rest

unfoldable pub trim_back : List ℕ → List ℕ
trim_back [] = []
trim_back (c ∷ s) = keep_code c (trim_back s)

unfoldable pub trim_codes : List ℕ → List ℕ
unfolding trim_front trim_back
trim_codes s = trim_back (trim_front s)

abbrev add_front : ℕ → List (List ℕ) → List (List ℕ)
add_front c [] = (c ∷ []) ∷ []
add_front c (l ∷ ls) = (c ∷ l) ∷ ls

-- strings.Split at "\n"
unfoldable pub split_lines : List ℕ → List (List ℕ)
split_lines [] = [] ∷ []
split_lines (c ∷ s) =
    let rest = split_lines s in if eqb c newline then [] ∷ rest else add_front c rest

-- Every line with its end.
abbrev pub unlines : List (List ℕ) → List ℕ
unlines [] = []
unlines (l ∷ ls) = l ++ newline ∷ unlines ls

abbrev pub has_newline : List ℕ → Bool
has_newline [] = false
has_newline (c ∷ s) = eqb c newline || has_newline s

abbrev pub starts_blank : List ℕ → Bool
starts_blank [] = false
starts_blank (c ∷ s) = is_space c

-- A line that is not empty, has no line end in it and no white space at its ends.
pub record IsLine (l : List ℕ) : Type 0 where
  pub one_line : has_newline l ≡ false
  pub not_empty : is_nil l ≡ false
  pub front : starts_blank l ≡ false
  pub back : trim_back l ≡ l

abbrev joined_lines : List ℕ → List (List ℕ) → List ℕ
joined_lines l [] = l
joined_lines l (k ∷ ls) = l ++ newline ∷ joined_lines k ls

unlines-joined_lines :
    (l : List ℕ) (ls : List (List ℕ)) → unlines (l ∷ ls) ≡ joined_lines l ls ++ newline ∷ []
unlines-joined_lines l [] = refl
unlines-joined_lines l (k ∷ ls) =
    ap (λ (s : List ℕ). l ++ newline ∷ s) (unlines-joined_lines k ls)
    ∙ sym (append_assoc l (newline ∷ joined_lines k ls) (newline ∷ []))

trim_back-append :
    (xs ys : List ℕ) → is_nil ys ≡ false → trim_back ys ≡ ys → trim_back (xs ++ ys) ≡ xs ++ ys
unfolding trim_back
trim_back-append [] ys n h = h
trim_back-append (x ∷ xs) ys n h =
    ap (keep_code x) (trim_back-append xs ys n h) ∙ ground (arith, nonempty xs)
  where
    nonempty : (zs : List ℕ) → is_nil (zs ++ ys) ≡ false
    nonempty [] = n
    nonempty (z ∷ zs) = refl

trim_back-newline : (xs : List ℕ) → trim_back (xs ++ newline ∷ []) ≡ trim_back xs
unfolding trim_back is_space
trim_back-newline [] = refl
trim_back-newline (x ∷ xs) = ap (keep_code x) (trim_back-newline xs)

joined_lines-is_nil :
    (l : List ℕ) (ls : List (List ℕ)) → is_nil l ≡ false → is_nil (joined_lines l ls) ≡ false
joined_lines-is_nil [] ls h = ground (arith, h)
joined_lines-is_nil (c ∷ l) [] h = refl
joined_lines-is_nil (c ∷ l) (k ∷ ls) h = refl

joined_lines-back :
    (l : List ℕ) (ls : List (List ℕ))
    → IsLine l
    → All IsLine ls
    → trim_back (joined_lines l ls) ≡ joined_lines l ls
unfolding trim_back
joined_lines-back l [] h a = h.back
joined_lines-back l (k ∷ ls) h a = trim_back-append l (newline ∷ joined_lines k ls) refl (
    ap (keep_code newline) (joined_lines-back k ls a.0 a.1)
    ∙ ground (arith, joined_lines-is_nil k ls a.0.not_empty))

joined_lines-front :
    (l : List ℕ) (ls : List (List ℕ)) (rest : List ℕ)
    → IsLine l
    → trim_front (joined_lines l ls ++ rest) ≡ joined_lines l ls ++ rest
unfolding trim_front
joined_lines-front [] ls rest h = ground (arith, h.not_empty)
joined_lines-front (c ∷ l) [] rest h = rw h.front refl
joined_lines-front (c ∷ l) (k ∷ ls) rest h = rw h.front refl

split_lines-newline :
    (l s : List ℕ) → has_newline l ≡ false → split_lines (l ++ newline ∷ s) ≡ l ∷ split_lines s
unfolding split_lines
split_lines-newline [] s h = refl
split_lines-newline (c ∷ l) s h = ground (arith, h, split_lines-newline l s)

split_lines-one : (l : List ℕ) → has_newline l ≡ false → split_lines l ≡ l ∷ []
unfolding split_lines
split_lines-one [] h = refl
split_lines-one (c ∷ l) h = ground (arith, h, split_lines-one l)

split_lines-joined_lines :
    (l : List ℕ) (ls : List (List ℕ))
    → IsLine l
    → All IsLine ls
    → split_lines (joined_lines l ls) ≡ l ∷ ls
split_lines-joined_lines l [] h a = split_lines-one l h.one_line
split_lines-joined_lines l (k ∷ ls) h a =
    split_lines-newline l (joined_lines k ls) h.one_line
    ∙ ap (λ (r : List (List ℕ)). l ∷ r) (split_lines-joined_lines k ls a.0 a.1)

-- The lines of a file that holds lines.
pub split_lines-trim_codes :
    (l : List ℕ) (ls : List (List ℕ))
    → IsLine l
    → All IsLine ls
    → split_lines (trim_codes (unlines (l ∷ ls))) ≡ l ∷ ls
unfolding trim_codes
split_lines-trim_codes l ls h a =
    ap (λ (s : List ℕ). split_lines (trim_back s))
      (ap trim_front (unlines-joined_lines l ls) ∙ joined_lines-front l ls (newline ∷ []) h)
    ∙ ap split_lines (trim_back-newline (joined_lines l ls) ∙ joined_lines-back l ls h a)
    ∙ split_lines-joined_lines l ls h a

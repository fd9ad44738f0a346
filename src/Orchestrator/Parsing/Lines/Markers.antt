-- ===== src/Orchestrator/Parsing/Lines/Markers.antt =====
-- The loop over the markers of a list item ends by itself.
use heike.Prelude.{
  ℕ, zero, suc, ◌+◌, ◌≤◌, ◌<◌, String, ◌≡◌, ◌⊎◌, refl, ap, ◌∙◌, inl, inr, Bool, true, false, Option,
  some, arith, Option-cases, trim_space, length-trim_space,
}
use heike.Orchestrator.Parsing.Lines.{size, strip, behind, strip_marker, strip_round, strip_markers}

size-strip : (p s rest : String) → strip p s ≡ some rest → size rest + size p ≡ size s
unfolding strip
size-strip String.[] s rest h =
    let same : s ≡ rest = ground (arith, h) in omega (arith, ap size same)
size-strip (String.◌∷◌ c p) String.[] rest h = ground (arith, h)
size-strip (String.◌∷◌ c p) (String.◌∷◌ d s) rest h =
    let behind_both : strip p s ≡ some rest = ground (arith, h) in
    omega (arith, size-strip p s rest behind_both)

-- A marker changes nothing, or the text is shorter.
abbrev Shortened : String × Bool → String × Bool → Type 0
Shortened r q = (q ≡ r) ⊎ ((q.1 ≡ true) × (size q.0 < size r.0))

strip_marker-Shortened :
    (p : String) (r : String × Bool) → 0 < size p → Shortened r (strip_marker p r)
unfolding strip_marker
strip_marker-Shortened p r h = elim (Option-cases (strip p r.0)) [
  | inl absent ↦ inl (rw absent refl)
  | inr (rest, found) ↦
      let shorter : size (trim_space rest) < size r.0 =
        omega (arith, size-strip p r.0 rest found, length-trim_space rest, h) in
      inr (ap (λ (o : Option String). (behind o r).1) found, rw found shorter)
]

Shortened-trans : (a b c : String × Bool) → Shortened a b → Shortened b c → Shortened a c
Shortened-trans a b c (inl e) (inl f) = inl (f ∙ e)
Shortened-trans a b c (inl e) (inr f) = inr (f.0, rw (← e) f.1)
Shortened-trans a b c (inr e) (inl f) = inr (ap (λ (q : String × Bool). q.1) f ∙ e.0, rw f e.1)
Shortened-trans a b c (inr e) (inr f) = inr (f.0, omega (arith, e.1, f.1))

strip_round-Shortened : (s : String) → Shortened (s, false) (strip_round s)
unfolding strip_round
strip_round-Shortened s =
    let first = strip_marker "- " (s, false) in
    let second = strip_marker "* " first in
    Shortened-trans (s, false) second (strip_marker "> " second)
      (Shortened-trans (s, false) first second
        (strip_marker-Shortened "- " (s, false) (omega arith))
        (strip_marker-Shortened "* " first (omega arith)))
      (strip_marker-Shortened "> " second (omega arith))

-- The loop that takes the markers off a list item ends: with fuel for as many rounds as the text has
-- characters, one more round would change nothing and report no change.
pub strip_markers-done :
    (fuel : ℕ) (s : String)
    → size s ≤ fuel
    → strip_round (strip_markers fuel s) ≡ (strip_markers fuel s, false)
unfolding strip_markers
strip_markers-done zero s h = elim (strip_round-Shortened s) [
  | inl e ↦ e
  | inr changed ↦ absurd (omega (arith, h, changed.1))
]
strip_markers-done (suc fuel) s h = elim (strip_round-Shortened s) [
  | inl e ↦
      let left = ap (λ (q : String × Bool). q.1) e in
      rw (left, strip_markers) (rw (ap (λ (q : String × Bool). q.0) e) e)
  | inr changed ↦
      let rest = strip_markers-done fuel (strip_round s).0 (omega (arith, h, changed.1)) in
      rw (changed.0, strip_markers) rest
]

-- ===== src/Orchestrator/Parsing/Brackets/Completeness.antt =====
-- What the bracketed part of an answer is, said without the loop.
use Prim.Native.Char.{Char, code}
use Prim.Native.String.{◌++◌}
use Prim.Native.String.append
use heike.Prelude.{
  ℕ, zero, suc, ◌<◌, String, ◌≡◌, refl, ap, sym, ◌∙◌, inl, inr, Bool, true, false, some, arith, eqb,
  Bool-cases,
}
use heike.Orchestrator.Parsing.Brackets.{
  Scan, Progress, done, more, fresh, scan_char, scan_from, outcome, first_balanced, snoc,
}
use heike.Orchestrator.Parsing.Brackets.Balanced.{Closes, Rest, at, scan_char-Turns}

module _ (opening closing : ℕ) where
  -- A bracketed part of a text: an opening bracket, and what closes it.
  pub record IsComplete (s t : String) : Type 0 where
    pub before : String
    pub after : String
    pub bracket : Char
    pub rest : String
    pub parts : s ≡ before ++ (t ++ after)
    pub opened : code bracket ≡ opening
    pub whole : t ≡ String.◌∷◌ bracket rest
    pub closed : Closes opening closing 1 rest

  record Finishes (st : Scan) (s t : String) : Type 0 where
    rest : String
    after : String
    parts : s ≡ rest ++ after
    whole : t ≡ st.taken ++ rest
    closed : Rest opening closing st.in_string st.escaped st.depth rest

  snoc-append : (a : String) (c : Char) (u : String) → (snoc a c) ++ u ≡ a ++ (String.◌∷◌ c u)
  unfolding snoc
  snoc-append String.[] c u =
      append.cons c String.[] u
      ∙ ap (λ x. String.◌∷◌ c x) (append.nil u)
      ∙ sym (append.nil (String.◌∷◌ c u))
  snoc-append (String.◌∷◌ d a) c u =
      append.cons d (snoc a c) u
      ∙ ap (λ x. String.◌∷◌ d x) (snoc-append a c u)
      ∙ sym (append.cons d a (String.◌∷◌ c u))

  snoc-last : (a : String) (c : Char) → snoc a c ≡ a ++ (String.◌∷◌ c String.[])
  unfolding snoc
  snoc-last String.[] c = sym (append.nil (String.◌∷◌ c String.[]))
  snoc-last (String.◌∷◌ d a) c =
      ap (λ x. String.◌∷◌ d x) (snoc-last a c) ∙ sym (append.cons d a (String.◌∷◌ c String.[]))

  scan_from-done : (t s : String) → scan_from opening closing (done t) s ≡ done t
  unfolding scan_from
  scan_from-done t String.[] = refl
  scan_from-done t (String.◌∷◌ c s) = scan_from-done t s

  -- One more character in front.
  Finishes-cons :
      (st later : Scan) (c : Char) (s t : String)
      → later.taken ≡ snoc st.taken c
      → ((u : String)
          → Rest opening closing later.in_string later.escaped later.depth u
          → Rest opening closing st.in_string st.escaped st.depth (String.◌∷◌ c u))
      → Finishes later s t
      → Finishes st (String.◌∷◌ c s) t
  Finishes-cons st later c s t taken extend f = record {
    rest = String.◌∷◌ c f.rest;
    after = f.after;
    parts = ap (λ x. String.◌∷◌ c x) f.parts ∙ sym (append.cons c f.rest f.after);
    whole = f.whole ∙ ap (λ (x : String). x ++ f.rest) taken ∙ snoc-append st.taken c f.rest;
    closed = extend f.rest f.closed;
  }

  done-eq : (a b : String) → done a ≡ done b → a ≡ b
  done-eq a b h = ground (arith, h)

  scan_from-Finishes :
      (taken : String) (depth : ℕ) (in_string escaped : Bool) (s t : String)
      → 0 < depth
      → (in_string ≡ false → escaped ≡ false)
      → scan_from opening closing
          (more (record { taken = taken; depth = depth; in_string = in_string; escaped = escaped }))
          s
        ≡ done t
      → Finishes
          (record { taken = taken; depth = depth; in_string = in_string; escaped = escaped })
          s
          t
  unfolding scan_from
  scan_from-Finishes taken d q esc String.[] t deep h e = absurd (ground (arith, e))
  scan_from-Finishes taken zero q esc (String.◌∷◌ c s) t deep h e = absurd (omega (arith, deep))
  scan_from-Finishes taken (suc n) q esc (String.◌∷◌ c s) t deep h e =
      elim (scan_char-Turns opening closing taken n q esc c h) [
        | inl (later, next, step) ↦
            Finishes-cons (at taken n q esc) later c s t step.taken step.extend (
              scan_from-Finishes later.taken later.depth later.in_string later.escaped s t
                step.open_still step.unescaped
                (ap (λ p. scan_from opening closing p s) (sym next) ∙ e))
        | inr (closed, rest) ↦ record {
          rest = String.◌∷◌ c String.[];
          after = s;
          parts = ap (λ x. String.◌∷◌ c x) (sym (append.nil s)) ∙ sym (append.cons c String.[] s);
          whole =
              done-eq t (snoc taken c) (
                sym e
                ∙ ap (λ p. scan_from opening closing p s) closed
                ∙ scan_from-done (snoc taken c) s)
              ∙ snoc-last taken c;
          closed = rest;
        }
      ]

  -- A character in front of the part.
  IsComplete-cons : (c : Char) (s t : String) → IsComplete s t → IsComplete (String.◌∷◌ c s) t
  IsComplete-cons c s t i = record {
    before = String.◌∷◌ c i.before;
    after = i.after;
    bracket = i.bracket;
    rest = i.rest;
    parts = ap (λ x. String.◌∷◌ c x) i.parts ∙ sym (append.cons c i.before (t ++ i.after));
    opened = i.opened;
    whole = i.whole;
    closed = i.closed;
  }

  Finishes-IsComplete :
      (c : Char) (s t : String)
      → code c ≡ opening
      → Finishes (at (String.◌∷◌ c String.[]) 0 false false) s t
      → IsComplete (String.◌∷◌ c s) t
  Finishes-IsComplete c s t o f =
      let whole : t ≡ String.◌∷◌ c f.rest =
        f.whole ∙ append.cons c String.[] f.rest ∙ ap (λ x. String.◌∷◌ c x) (append.nil f.rest) in
      record {
        before = String.[];
        after = f.after;
        bracket = c;
        rest = f.rest;
        parts =
            ap (λ x. String.◌∷◌ c x) f.parts
            ∙ sym (append.cons c f.rest f.after)
            ∙ ap (λ x. x ++ f.after) (sym whole)
            ∙ sym (append.nil (t ++ f.after));
        opened = o;
        whole = whole;
        closed = f.closed;
      }

  onward :
      (p q : Progress) (s t : String)
      → p ≡ q
      → scan_from opening closing p s ≡ done t
      → scan_from opening closing q s ≡ done t
  onward p q s t same e = ap (λ x. scan_from opening closing x s) (sym same) ∙ e

  abbrev outer : String → Bool → Bool → Scan
  outer taken in_string escaped = record {
    taken = taken;
    depth = 0;
    in_string = in_string;
    escaped = escaped;
  }

  -- A state in no bracket stays in none, or reads the opening bracket.
  scan_from-IsComplete :
      (taken : String) (in_string escaped : Bool) (s t : String)
      → (in_string ≡ false → escaped ≡ false)
      → scan_from opening closing (more (outer taken in_string escaped)) s ≡ done t
      → IsComplete s t
  unfolding scan_from scan_char
  scan_from-IsComplete taken q esc String.[] t h e = absurd (ground (arith, e))
  scan_from-IsComplete taken true true (String.◌∷◌ c s) t h e = IsComplete-cons c s t (
      scan_from-IsComplete taken true false s t (λ h. absurd (cc))
        (onward _ (more (outer taken true false)) s t (ground arith) e))
  scan_from-IsComplete taken true false (String.◌∷◌ c s) t h e =
      elim (Bool-cases (eqb (code c) 92)) [
        | inl slash ↦ IsComplete-cons c s t (
            scan_from-IsComplete taken true true s t (λ h. absurd (cc))
              (onward _ (more (outer taken true true)) s t (ground (arith, slash)) e))
        | inr other ↦ elim (Bool-cases (eqb (code c) 34)) [
          | inl quote ↦ IsComplete-cons c s t (
              scan_from-IsComplete taken false false s t (λ h. refl)
                (onward _ (more (outer taken false false)) s t (ground (arith, other, quote)) e))
          | inr plain ↦ IsComplete-cons c s t (
              scan_from-IsComplete taken true false s t (λ h. absurd (cc))
                (onward _ (more (outer taken true false)) s t (ground (arith, other, plain)) e))
        ]
      ]
  scan_from-IsComplete taken false true (String.◌∷◌ c s) t h e = absurd (cc (h refl))
  scan_from-IsComplete taken false false (String.◌∷◌ c s) t h e =
      elim (Bool-cases (eqb (code c) 34)) [
        | inl quote ↦ IsComplete-cons c s t (
            scan_from-IsComplete taken true false s t (λ h. absurd (cc))
              (onward _ (more (outer taken true false)) s t (ground (arith, quote)) e))
        | inr q ↦ elim (Bool-cases (eqb (code c) opening)) [
          | inl o ↦ Finishes-IsComplete c s t (ground (arith, o)) (
              scan_from-Finishes (String.◌∷◌ c String.[]) 1 false false s t (omega arith)
                (λ h. refl)
                (onward _ (more (at (String.◌∷◌ c String.[]) 0 false false)) s t
                  (ground (arith, q, o)) e))
          | inr o ↦ elim (Bool-cases (eqb (code c) closing)) [
            | inl close ↦ IsComplete-cons c s t (
                scan_from-IsComplete taken false false s t (λ h. refl)
                  (onward _ (more (outer taken false false)) s t (ground (arith, q, o, close)) e))
            | inr plain ↦ IsComplete-cons c s t (
                scan_from-IsComplete taken false false s t (λ h. refl)
                  (onward _ (more (outer taken false false)) s t (ground (arith, q, o, plain)) e))
          ]
        ]
      ]

  -- What is extracted from an answer, before it is trimmed, is a part of the answer that begins with
  -- an opening bracket and ends with the bracket that closes it: brackets inside are nested, those in
  -- strings do not count, and a backslash in a string takes the character behind it along.
  pub first_balanced-IsComplete :
      (s t : String) → first_balanced opening closing s ≡ some t → IsComplete s t
  unfolding first_balanced
  first_balanced-IsComplete s t h =
      scan_from-IsComplete "" false false s t (λ e. refl)
        (finished (scan_from opening closing (more fresh) s) t h)
    where
      finished : (p : Progress) (t : String) → outcome opening closing p ≡ some t → p ≡ done t
      finished (done u) t h = ground (arith, h)
      finished (more st) t h = ground (arith, h)

-- ===== src/Orchestrator/Parsing/Brackets/Balanced.antt =====
-- Balanced texts, said without the loop, and what the loop does in an open bracket.
use Prim.Native.Char.{Char, code}
use mathlib.Core.Path.{subst}
use heike.Prelude.{
  ℕ, zero, suc, ◌<◌, String, ◌≡◌, ◌≢◌, ◌⊎◌, refl, sym, inl, inr, Bool, true, false, arith, eqb,
  Bool-cases,
}
use heike.Orchestrator.Parsing.Brackets.{
  Scan, Progress, done, more, in_quotes, close_one, scan_char, snoc,
}

-- A state in an open bracket.
abbrev pub at : String → ℕ → Bool → Bool → Scan
at taken n in_string escaped = record {
  taken = taken;
  depth = suc n;
  in_string = in_string;
  escaped = escaped;
}

module _ (opening closing : ℕ) where
  mutual
    -- A text that closes `n` open brackets, the last one by its last character.
    pub data Closes : ℕ → String → Type 0 where
      last :
          (c : Char)
          → code c ≢ 34
          → code c ≢ opening
          → code c ≡ closing
          → Closes (suc zero) (String.◌∷◌ c String.[])
      down :
          (n : ℕ) (c : Char) (s : String)
          → code c ≢ 34
          → code c ≢ opening
          → code c ≡ closing
          → Closes (suc n) s
          → Closes (suc (suc n)) (String.◌∷◌ c s)
      up :
          (n : ℕ) (c : Char) (s : String)
          → code c ≢ 34
          → code c ≡ opening
          → Closes (suc (suc n)) s
          → Closes (suc n) (String.◌∷◌ c s)
      beside :
          (n : ℕ) (c : Char) (s : String)
          → code c ≢ 34
          → code c ≢ opening
          → code c ≢ closing
          → Closes n s
          → Closes n (String.◌∷◌ c s)
      quoted :
          (n : ℕ) (c : Char) (s : String) → code c ≡ 34 → Quoted n s → Closes n (String.◌∷◌ c s)

    -- The same from the inside of a string on: 34 is the quote and 92 the backslash, behind which any
    -- character belongs to the string.
    pub data Quoted : ℕ → String → Type 0 where
      escape :
          (n : ℕ) (c d : Char) (s : String)
          → code c ≡ 92
          → Quoted n s
          → Quoted n (String.◌∷◌ c (String.◌∷◌ d s))
      unquote :
          (n : ℕ) (c : Char) (s : String) → code c ≡ 34 → Closes n s → Quoted n (String.◌∷◌ c s)
      inside :
          (n : ℕ) (c : Char) (s : String)
          → code c ≢ 34
          → code c ≢ 92
          → Quoted n s
          → Quoted n (String.◌∷◌ c s)

  -- What closes the brackets of a state.
  abbrev pub Rest : Bool → Bool → ℕ → String → Type 0
  Rest false e n u = Closes n u
  Rest true false n u = Quoted n u
  Rest true true n u = (d : Char) × (v : String) × (u ≡ String.◌∷◌ d v) × Quoted n v

  -- The next state in an open bracket, and what is in front of its rest.
  pub record Steps (st : Scan) (c : Char) (later : Scan) : Type 0 where
    pub open_still : 0 < later.depth
    pub unescaped : later.in_string ≡ false → later.escaped ≡ false
    pub taken : later.taken ≡ snoc st.taken c
    pub extend :
        (u : String)
        → Rest later.in_string later.escaped later.depth u
        → Rest st.in_string st.escaped st.depth (String.◌∷◌ c u)

  -- One character: the loop goes on, or the last bracket is closed.
  abbrev pub Turns : Scan → Char → Progress → Type 0
  Turns st c p =
      ((later : Scan) × (p ≡ more later) × Steps st c later)
      ⊎ ((p ≡ done (snoc st.taken c))
          × Rest st.in_string st.escaped st.depth (String.◌∷◌ c String.[]))

  in_quotes-Turns :
      (taken : String) (n : ℕ) (escaped : Bool) (c : Char)
      → Turns (at taken n true escaped) c (in_quotes (at taken n true escaped) c)
  in_quotes-Turns taken n true c = inl (
    at (snoc taken c) n true false,
    ground arith,
    record {
      open_still = omega arith;
      unescaped = λ h. absurd (cc);
      taken = refl;
      extend = λ u r. (c, u, refl, r);
    },
  )
  in_quotes-Turns taken n false c = elim (Bool-cases (eqb (code c) 92)) [
    | inl slash ↦ inl (
      at (snoc taken c) n true true,
      ground (arith, slash),
      record {
        open_still = omega arith;
        unescaped = λ h. absurd (cc);
        taken = refl;
        extend = λ u r.
            subst (λ x. Quoted (suc n) (String.◌∷◌ c x)) (sym r.2)
              (escape (suc n) c r.0 r.1 (ground (arith, slash)) r.3);
      },
    )
    | inr other ↦ elim (Bool-cases (eqb (code c) 34)) [
      | inl quote ↦ inl (
        at (snoc taken c) n false false,
        ground (arith, other, quote),
        record {
          open_still = omega arith;
          unescaped = λ h. refl;
          taken = refl;
          extend = λ u r. unquote (suc n) c u (ground (arith, quote)) r;
        },
      )
      | inr plain ↦ inl (
        at (snoc taken c) n true false,
        ground (arith, other, plain),
        record {
          open_still = omega arith;
          unescaped = λ h. absurd (cc);
          taken = refl;
          extend = λ u r. inside (suc n) c u (ground (arith, plain)) (ground (arith, other)) r;
        },
      )
    ]
  ]

  close_one-Turns :
      (taken : String) (n : ℕ) (c : Char)
      → code c ≢ 34
      → code c ≢ opening
      → code c ≡ closing
      → Turns (at taken n false false) c (close_one (at taken n false false) c (suc n))
  close_one-Turns taken zero c q o e = inr (refl, last c q o e)
  close_one-Turns taken (suc n) c q o e = inl (
    at (snoc taken c) n false false,
    refl,
    record {
      open_still = omega arith;
      unescaped = λ h. refl;
      taken = refl;
      extend = λ u r. down n c u q o e r;
    },
  )

  outside-Turns :
      (taken : String) (n : ℕ) (c : Char)
      → Turns (at taken n false false) c (scan_char opening closing (at taken n false false) c)
  unfolding scan_char
  outside-Turns taken n c = elim (Bool-cases (eqb (code c) 34)) [
    | inl quote ↦ inl (
      at (snoc taken c) n true false,
      ground (arith, quote),
      record {
        open_still = omega arith;
        unescaped = λ h. absurd (cc);
        taken = refl;
        extend = λ u r. quoted (suc n) c u (ground (arith, quote)) r;
      },
    )
    | inr q ↦ elim (Bool-cases (eqb (code c) opening)) [
      | inl o ↦ inl (
        at (snoc taken c) (suc n) false false,
        ground (arith, q, o),
        record {
          open_still = omega arith;
          unescaped = λ h. refl;
          taken = refl;
          extend = λ u r. up n c u (ground (arith, q)) (ground (arith, o)) r;
        },
      )
      | inr o ↦ elim (Bool-cases (eqb (code c) closing)) [
        | inl e ↦
            let it : scan_char opening closing (at taken n false false) c
                ≡ close_one (at taken n false false) c (suc n) =
              ground (arith, q, o, e) in
            subst (Turns (at taken n false false) c) (sym it) (
              close_one-Turns taken n c (ground (arith, q)) (ground (arith, o)) (ground (arith, e)))
        | inr e ↦ inl (
          at (snoc taken c) n false false,
          ground (arith, q, o, e),
          record {
            open_still = omega arith;
            unescaped = λ h. refl;
            taken = refl;
            extend = λ u r.
                beside (suc n) c u (ground (arith, q)) (ground (arith, o)) (ground (arith, e)) r;
          },
        )
      ]
    ]
  ]

  pub scan_char-Turns :
      (taken : String) (n : ℕ) (in_string escaped : Bool) (c : Char)
      → (in_string ≡ false → escaped ≡ false)
      → Turns
          (at taken n in_string escaped)
          c
          (scan_char opening closing (at taken n in_string escaped) c)
  scan_char-Turns taken n true escaped c h = unfold scan_char in in_quotes-Turns taken n escaped c
  scan_char-Turns taken n false true c h = absurd (cc (h refl))
  scan_char-Turns taken n false false c h = outside-Turns taken n c

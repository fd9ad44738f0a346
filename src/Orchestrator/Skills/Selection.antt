-- ===== src/Orchestrator/Skills/Selection.antt =====
-- Which skills are selected, and what they change in a context.
use mathlib.Core.Path.{subst}
use heike.Prelude.{
  ℕ, zero, suc, ◌+◌, ◌*◌, ◌≤◌, ◌<◌, String, ◌≡◌, refl, ap, sym, ◌∙◌, inl, inr, false, ◌||◌, Option,
  none, some, List, [], ◌∷◌, ◌++◌, ◌==◌, arith, leb, eqb, length, length-append, take, mem,
  mem-append, IsDistinct, IsDistinct-snoc, Bool-cases, All, All-append,
}
use heike.Errors.{Err, Result, ok, err}
use heike.Cognitive.Context.{Context}
use heike.Orchestrator.Skills.{
  Skill, Provider, Texts, Selection, key, add, add_resolved, add_mentions, add_relevant,
  with_relevant, resolve_skill_mention, extract_skill_mentions, select_skills, set_skills,
  unless_failed, names_and_details, apply_skill_context,
}

take-all {ℓ} : {A : Type ℓ} (n : ℕ) (xs : List A) → length xs ≤ n → take n xs ≡ xs
take-all zero [] h = refl
take-all zero (x ∷ xs) h = absurd (omega (arith, h))
take-all (suc n) [] h = refl
take-all (suc n) (x ∷ xs) h = ap (λ (l : List _). x ∷ l) (take-all n xs (omega (arith, h)))

module _ (texts : Texts) where
  abbrev pub keys : List Skill → List String
  keys [] = []
  keys (s ∷ ss) = key texts s ∷ keys ss

  keys-append : (ss ts : List Skill) → keys (ss ++ ts) ≡ keys ss ++ keys ts
  keys-append [] ts = refl
  keys-append (s ∷ ss) ts = ap (λ (l : List String). key texts s ∷ l) (keys-append ss ts)

  -- Skills with names, which differ when they are trimmed and in lower case.
  pub record IsSelection (selected : List Skill) : Type 0 where
    pub distinct : IsDistinct (keys selected)
    pub named : All (λ (k : String). (k == "") ≡ false) (keys selected)

  record IsSeen (s : Selection texts) : Type 0 where
    selection : IsSelection s.0
    seen : (x : String) → mem x s.1 ≡ mem x (keys s.0)

  IsSeen-snoc :
      (selected : List Skill) (seen : List String) (skill : Skill)
      → IsSeen (selected, seen)
      → (key texts skill == "") ≡ false
      → mem (key texts skill) seen ≡ false
      → IsSeen (selected ++ skill ∷ [], key texts skill ∷ seen)
  unfolding mem
  IsSeen-snoc selected seen skill i named fresh = record {
    selection = record {
      distinct = subst IsDistinct (sym (keys-append selected (skill ∷ []))) (
          IsDistinct-snoc (keys selected) (key texts skill) i.selection.distinct
            (sym (i.seen (key texts skill)) ∙ fresh));
      named =
          subst (All (λ (k : String). (k == "") ≡ false)) (sym (keys-append selected (skill ∷ [])))
            (All-append (λ (k : String). (k == "") ≡ false) (keys selected) (key texts skill ∷ [])
              i.selection.named (named, tt));
    };
    seen = λ x. ground (
      arith,
      i.seen x,
      mem-append x (keys selected) (key texts skill ∷ []),
      ap (mem x) (keys-append selected (skill ∷ [])),
    );
  }

  IsSeen-add : (s : Selection texts) (o : Option Skill) → IsSeen s → IsSeen (add texts s o)
  unfolding add
  IsSeen-add s none i = i
  IsSeen-add (selected, seen) (some skill) i =
      elim (Bool-cases (key texts skill == "" || mem (key texts skill) seen)) [
        | inl skip ↦ rw (skip, add) i
        | inr take ↦
            rw (take, add)
              (IsSeen-snoc selected seen skill i (ground (arith, take)) (ground (arith, take)))
      ]

  length-add : (s : Selection texts) (o : Option Skill) → length (add texts s o).0 ≤ length s.0 + 1
  unfolding add
  length-add s none = omega arith
  length-add (selected, seen) (some skill) = ground (arith, length-append selected (skill ∷ []))

  -- What every step keeps: a selection within the limit.
  record IsWithin (limit : ℕ) (s : Selection texts) : Type 0 where
    selection : IsSeen s
    bounded : length s.0 ≤ limit

  IsWithin-add :
      (limit : ℕ) (s : Selection texts) (o : Option Skill)
      → IsWithin limit s
      → length s.0 < limit
      → IsWithin limit (add texts s o)
  IsWithin-add limit s o i room = record {
    selection = IsSeen-add s o i.selection;
    bounded = omega (arith, length-add s o, room);
  }

  IsWithin-add_mentions :
      (p : Provider) (limit : ℕ) (s : Selection texts) (ms : List String)
      → IsWithin limit s
      → IsWithin limit (add_mentions texts p limit s ms)
  unfolding add_mentions
  IsWithin-add_mentions p limit s [] i = i
  IsWithin-add_mentions p limit s (m ∷ ms) i = elim (Bool-cases (leb limit (length s.0))) [
    | inl full ↦ rw (full, add_mentions) i
    | inr room ↦
        rw (room, add_mentions)
          (IsWithin-add_mentions p limit (add_resolved texts s (resolve_skill_mention p m)) ms
            (resolved (resolve_skill_mention p m) (ground (arith, room))))
  ]
    where
      resolved :
          (r : Result (Option Skill)) → length s.0 < limit → IsWithin limit (add_resolved texts s r)
      resolved (err e) room = i
      resolved (ok skill) room = IsWithin-add limit s skill i room

  IsWithin-add_relevant :
      (limit : ℕ) (s : Selection texts) (cs : List (Option Skill))
      → IsWithin limit s
      → length s.0 < limit
      → IsWithin limit (add_relevant texts limit s cs)
  unfolding add_relevant
  IsWithin-add_relevant limit s [] i room = i
  IsWithin-add_relevant limit s (c ∷ cs) i room =
      let now = IsWithin-add limit s c i room in
      elim (Bool-cases (leb limit (length (add texts s c).0))) [
        | inl full ↦ rw (full, add_relevant) now
        | inr left ↦
            rw (left, add_relevant)
              (IsWithin-add_relevant limit (add texts s c) cs now (ground (arith, left)))
      ]

  IsSelection-nil : IsSelection []
  IsSelection-nil = record { distinct = tt; named = tt }

  IsWithin-nil : (limit : ℕ) → IsWithin limit ([], [])
  IsWithin-nil limit = record {
    selection = record { selection = IsSelection-nil; seen = λ x. refl };
    bounded = omega arith;
  }

  -- The skills of a request are at most as many as the limit, they have names, and their names
  -- differ, when they are trimmed and in lower case; with an error of the provider too.
  pub select_skills-IsSelection :
      (p : Option Provider) (goal : String) (limit : ℕ)
      → IsSelection (select_skills texts p goal limit).0
        × (length (select_skills texts p goal limit).0 ≤ limit)
  unfolding select_skills
  select_skills-IsSelection none goal limit = (IsSelection-nil, omega arith)
  select_skills-IsSelection (some p) goal limit =
      let s = add_mentions texts p limit ([], []) (extract_skill_mentions texts goal) in
      let w =
        IsWithin-add_mentions p limit ([], []) (extract_skill_mentions texts goal)
          (IsWithin-nil limit) in
      elim (Bool-cases (eqb limit 0)) [
        | inl unlimited ↦ rw (unlimited, select_skills) (IsSelection-nil, omega arith)
        | inr limited ↦
            rw (limited, select_skills)
              (elim (Bool-cases (leb limit (length s.0))) [
                | inl full ↦
                    rw full (rw (take-all limit s.0 w.bounded) (w.selection.selection, w.bounded))
                | inr room ↦
                    rw room (relevant s w (ground (arith, room)) (p.get_relevant goal (limit * 2)))
              ])
      ]
    where
      relevant :
          (s : Selection texts)
          → IsWithin limit s
          → length s.0 < limit
          → (r : Result (List (Option Skill)))
          → IsSelection (with_relevant texts limit s r).0
            × (length (with_relevant texts limit s r).0 ≤ limit)
      relevant s w room (err e) = (w.selection.selection, w.bounded)
      relevant s w room (ok cs) =
          let i = IsWithin-add_relevant limit s cs w room in (i.selection.selection, i.bounded)

  -- What the skills leave of a context.
  abbrev pub KeepsRest : Context → Context → Type 0
  KeepsRest c d =
      (d.history ≡ c.history) × (d.memories ≡ c.memories) × (d.token_budget ≡ c.token_budget)

  KeepsRest-set :
      (c : Context) (found : List String × List String) → KeepsRest c (set_skills texts c found)
  KeepsRest-set c ([], details) = (refl, refl, refl)
  KeepsRest-set c (n ∷ ns, details) = (refl, refl, refl)

  pub apply_skill_context-KeepsRest :
      (p : Option Provider) (c : Context) (goal : String)
      → KeepsRest c (apply_skill_context texts p c goal)
  unfolding apply_skill_context
  apply_skill_context-KeepsRest none c goal = (refl, refl, refl)
  apply_skill_context-KeepsRest (some p) c goal = applied (select_skills texts (some p) goal 4)
    where
      applied : (r : List Skill × Option Err) → KeepsRest c (unless_failed texts c r)
      applied (selected, some e) = (refl, refl, refl)
      applied (selected, none) = KeepsRest-set c (names_and_details texts selected)

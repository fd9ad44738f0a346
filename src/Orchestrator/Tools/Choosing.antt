-- ===== src/Orchestrator/Tools/Choosing.antt =====
-- The tools that a goal is offered are the best of its candidates.
use mathlib.Core.Path.{subst}
use mathlib.Core.List.{Perm}
use heike.Prelude.{
  ℕ, zero, suc, ◌≤◌, ◌<◌, String, ◌≡◌, ◌⊎◌, refl, ap, sym, inl, inr, Bool, false, List, [], ◌∷◌,
  ◌++◌, arith, length, take, drop, All,
}
use heike.Orchestrator.Tools.Catalog.{Descriptor, Words}
use heike.Orchestrator.Tools.{
  ScoredTool, exceeds, before, tools_of, score_tools, ToolSelectionResult, select_with_metadata,
}

module _ (w : Words) (decimal : ℕ → String) where
  -- No tool stands behind one that comes after it in the order.
  abbrev pub Ordered : List ScoredTool → Type 0
  Ordered [] = Unit
  Ordered (c ∷ cs) = All (λ (d : ScoredTool). before w decimal d c ≡ false) cs × Ordered cs

  abbrev pub NotBetter : List ScoredTool → ScoredTool → Type 0
  NotBetter left c = All (λ (d : ScoredTool). exceeds d.score c.score ≡ false) left

  not_better :
      (c : ScoredTool) (cs : List ScoredTool)
      → All (λ (d : ScoredTool). before w decimal d c ≡ false) cs
      → NotBetter cs c
  not_better c [] a = tt
  not_better c (d ∷ cs) a = (ground (arith, a.0), not_better c cs a.1)

  All-drop : (P : ScoredTool → Type 0) (n : ℕ) (cs : List ScoredTool) → All P cs → All P (drop n cs)
  All-drop P zero cs a = a
  All-drop P (suc n) [] a = tt
  All-drop P (suc n) (c ∷ cs) a = All-drop P n cs a.1

  best_first : (n : ℕ) (cs : List ScoredTool) → Ordered cs → All (NotBetter (drop n cs)) (take n cs)
  best_first zero cs o = tt
  best_first (suc n) [] o = tt
  best_first (suc n) (c ∷ cs) o = (
    All-drop (λ (d : ScoredTool). exceeds d.score c.score ≡ false) n cs (not_better c cs o.0),
    best_first n cs o.1,
  )

  take-drop : (n : ℕ) (cs : List ScoredTool) → take n cs ++ drop n cs ≡ cs
  take-drop zero cs = refl
  take-drop (suc n) [] = refl
  take-drop (suc n) (c ∷ cs) = ap (λ (l : List ScoredTool). c ∷ l) (take-drop n cs)

  length-take : (n : ℕ) (cs : List ScoredTool) → (drop n cs ≡ []) ⊎ (length (take n cs) ≡ n)
  length-take zero cs = inr refl
  length-take (suc n) [] = inl refl
  length-take (suc n) (c ∷ cs) = elim (length-take n cs) [
    | inl e ↦ inl e
    | inr e ↦ inr (omega (arith, e))
  ]

  length-take_le : (n : ℕ) (cs : List ScoredTool) → length (take n cs) ≤ n
  length-take_le zero cs = omega arith
  length-take_le (suc n) [] = omega arith
  length-take_le (suc n) (c ∷ cs) = omega (arith, length-take_le n cs)

  -- The candidates that are offered and those that are left out.
  pub record IsBest (limit : ℕ) (candidates : List ScoredTool) (result : ToolSelectionResult)
      : Type 0 where
    pub offered : List ScoredTool
    pub left : List ScoredTool
    pub split : Perm (offered ++ left) candidates
    pub tools : result.tools ≡ tools_of w decimal offered
    pub bounded : length offered ≤ limit
    pub full : (left ≡ []) ⊎ (length offered ≡ limit)
    pub best : All (NotBetter left) offered

  -- Of more tools than the limit, those that are offered are the best by their scores: as many as the
  -- limit, unless none is left out, and no tool left out has a higher score than one offered. It is
  -- assumed that sort.Slice puts the candidates in order and neither adds nor loses any.
  pub select_with_metadata-IsBest :
      (sort : (ScoredTool → ScoredTool → Bool) → List ScoredTool → List ScoredTool) (limit : ℕ)
      (goal : String) (tools : List Descriptor)
      → Perm
          (sort (before w decimal) (score_tools w decimal tools goal tools))
          (score_tools w decimal tools goal tools)
      → Ordered (sort (before w decimal) (score_tools w decimal tools goal tools))
      → 0 < limit
      → limit < length tools
      → IsBest limit
          (score_tools w decimal tools goal tools)
          (select_with_metadata w decimal sort limit goal tools)
  unfolding select_with_metadata
  select_with_metadata-IsBest sort limit goal tools perm ordered some_limit over =
      let candidates = score_tools w decimal tools goal tools in
      let ranked = sort (before w decimal) candidates in
      record {
        offered = take limit ranked;
        left = drop limit ranked;
        split =
            subst (λ (l : List ScoredTool). Perm l candidates) (sym (take-drop limit ranked)) perm;
        tools = ground (arith, some_limit, over);
        bounded = length-take_le limit ranked;
        full = length-take limit ranked;
        best = best_first limit ranked ordered;
      }

-- ===== src/Cognitive/Engine/Phases.antt =====
-- What one pass of the loop does: the order of its calls, and how the turn and the retries move.
use heike.Prelude.{
  ℕ, suc, ◌+◌, ◌≤◌, String, ◌≡◌, refl, ◌⊎◌, inl, inr, Option, none, some, List, [], ◌∷◌, ◌++◌,
  arith, leb, if_holds,
}
use heike.Errors.{Err, Result, ok, err}
use heike.Cognitive.Context.{
  Context, Reflection, ControlSignal, proceed, retry, replan, stop, prune, update,
}
use heike.Cognitive.Engine.{
  Agents, Action, Thought, ExecutionResult, Phase, planning, thinking, acting, reflecting, Outcome,
  answered, stopped, Pass, ended, again, next_action, add_thought, add_outputs, follow,
  after_reflect, after_act, after_think, pass,
}

-- The calls that may come next.
pub data Next : Phase → Phase → Type 0 where
  plan_think : Next planning thinking
  think_act : Next thinking acting
  act_reflect : Next acting reflecting
  reflect_think : Next reflecting thinking
  reflect_plan : Next reflecting planning

-- After the call `p`, the calls come in the order of the phases.
abbrev pub InOrder : Phase → List Phase → Type 0
InOrder p [] = Unit
InOrder p (q ∷ qs) = Next p q × InOrder q qs

pub InOrder-reflecting : (qs : List Phase) → InOrder planning qs → InOrder reflecting qs
InOrder-reflecting [] h = tt
InOrder-reflecting (thinking ∷ qs) (n, h) = (reflect_think, h)
InOrder-reflecting (planning ∷ qs) (n, h) = elim n [ ]
InOrder-reflecting (acting ∷ qs) (n, h) = elim n [ ]
InOrder-reflecting (reflecting ∷ qs) (n, h) = elim n [ ]

abbrev pub thinks : List Phase → ℕ
thinks [] = 0
thinks (thinking ∷ qs) = suc (thinks qs)
thinks (planning ∷ qs) = thinks qs
thinks (acting ∷ qs) = thinks qs
thinks (reflecting ∷ qs) = thinks qs

pub thinks-append : (ps qs : List Phase) → thinks (ps ++ qs) ≡ thinks ps + thinks qs
thinks-append [] qs = omega arith
thinks-append (thinking ∷ ps) qs = omega (arith, thinks-append ps qs)
thinks-append (planning ∷ ps) qs = thinks-append ps qs
thinks-append (acting ∷ ps) qs = thinks-append ps qs
thinks-append (reflecting ∷ ps) qs = thinks-append ps qs

-- The turn count that a result carries.
abbrev pub AtTurn : ℕ → Outcome → Type 0
AtTurn n (answered content turns) = turns ≡ n
AtTurn n (stopped content turns) = turns ≡ n
AtTurn n _ = Unit

-- The calls of a pass that goes on, before those of the rest.
abbrev pub LeadsOn : List Phase → Type 0
LeadsOn phases = (later : List Phase) → InOrder planning later → InOrder planning (phases ++ later)

module _ {W : Type 0} where
  abbrev pub Orderly : ℕ → ℕ → Pass W → Type 0
  Orderly i tries (ended phases facts o w) =
      InOrder planning phases × (thinks phases ≤ 1) × AtTurn (suc i) o
  Orderly i tries (again phases facts i' tries' c w) =
      LeadsOn phases
      × (thinks phases ≡ 1)
      × (tries' ≤ 3)
      × (((i' ≡ i) × (tries' ≡ suc tries)) ⊎ (i' ≡ suc i))

pass_order : LeadsOn (thinking ∷ acting ∷ reflecting ∷ [])
pass_order later h = (plan_think, (think_act, (act_reflect, InOrder-reflecting later h)))

replan_order : LeadsOn (thinking ∷ acting ∷ reflecting ∷ planning ∷ [])
replan_order later h = (plan_think, (think_act, (act_reflect, (reflect_plan, h))))

module _ {W : Type 0} (agents : Agents W) (goal : String) where
  follow-Orderly :
      (s : ControlSignal) (i tries : ℕ) (c : Context) (r : Reflection) (w : W)
      → tries ≤ 3
      → Orderly i tries (follow agents goal s i tries c r w)
  unfolding follow
  follow-Orderly retry i tries c r w h =
      if_holds (Orderly i tries) (leb 3 tries) (λ _. (pass_order, refl, omega arith, inr refl))
        (λ few. (pass_order, refl, ground arith, inl (refl, refl)))
  follow-Orderly replan i tries c r w h = (replan_order, refl, omega arith, inr refl)
  follow-Orderly stop i tries c r w h =
      ((plan_think, (think_act, (act_reflect, tt))), omega arith, refl)
  follow-Orderly proceed i tries c r w h = (pass_order, refl, omega arith, inr refl)

  reflect-Orderly :
      (i tries : ℕ) (c : Context) (r : Result Reflection × W)
      → tries ≤ 3
      → Orderly i tries (after_reflect agents goal i tries c r)
  unfolding after_reflect
  reflect-Orderly i tries c (err e, w) h = (pass_order, refl, h, inr refl)
  reflect-Orderly i tries c (ok r, w) h =
      follow-Orderly r.next_action i tries (update c (some r)) r w h

  act-Orderly :
      (i tries : ℕ) (c : Context) (a : Action) (r : Result ExecutionResult × W)
      → tries ≤ 3
      → Orderly i tries (after_act agents goal i tries c a r)
  unfolding after_act
  act-Orderly i tries c a (err e, w) h = ((plan_think, (think_act, tt)), omega arith, tt)
  act-Orderly i tries c a (ok r, w) h =
      reflect-Orderly i tries (prune (add_outputs c a r)) (agents.reflect goal a r w) h

  think-Orderly :
      (i tries : ℕ) (c : Context) (r : Result Thought × W)
      → tries ≤ 3
      → Orderly i tries (after_think agents goal i tries c r)
  unfolding after_think
  think-Orderly i tries c (err e, w) h = ((plan_think, tt), omega arith, tt)
  think-Orderly i tries c (ok t, w) h = by_action (next_action t)
    where
      by_action :
          (o : Option Action)
          → Orderly i tries (elim o [
            | none ↦ ended (thinking ∷ []) [] (answered t.content (suc i)) w
            | some a ↦ after_act agents goal i tries (add_thought c t) a (agents.act a w)
          ])
      by_action none = ((plan_think, tt), omega arith, refl)
      by_action (some a) = act-Orderly i tries (add_thought c t) a (agents.act a w) h

  -- A pass calls in the order of the phases, thinks at most once, and either keeps the turn and
  -- takes one of the three retries, or goes on to the next turn.
  pub pass-Orderly :
      (i tries : ℕ) (c : Context) (w : W)
      → tries ≤ 3
      → Orderly i tries (pass agents goal i tries c w)
  unfolding pass
  pass-Orderly i tries c w h = by_cancel (agents.cancelled w)
    where
      by_cancel :
          (o : Option Err)
          → Orderly i tries (elim o [
            | some e ↦ ended [] [] (Outcome.interrupted e) w
            | none ↦ after_think agents goal i tries c (agents.think goal c.current_plan c w)
          ])
      by_cancel (some e) = (tt, omega arith, tt)
      by_cancel none = think-Orderly i tries c (agents.think goal c.current_plan c w) h

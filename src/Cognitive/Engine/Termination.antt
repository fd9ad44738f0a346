-- ===== src/Cognitive/Engine/Termination.antt =====
-- The loop ends within its fuel, and the whole run is orderly.
use heike.Prelude.{
  ℕ, zero, suc, ◌+◌, ◌-◌, ◌*◌, ◌<◌, ◌≤◌, String, ◌≡◌, refl, ap, inl, inr, Option, some, List, [],
  ◌∷◌, ◌++◌, arith, ltb, Bool-cases,
}
use heike.Errors.{Result, ok, err}
use heike.Cognitive.Context.{Context, Plan}
use heike.Cognitive.Engine.{
  Agents, prepend, Phase, planning, Outcome, answered, stopped, Pass, ended, again, pass, continue,
  loop, enough, after_plan, run, planning_failed, max_turns_reached,
}
use heike.Cognitive.Engine.Phases.{InOrder, thinks, thinks-append, AtTurn, Orderly, pass-Orderly}

-- The turn count of an outcome is between 1 and the limit.
abbrev pub InTurns : ℕ → Outcome → Type 0
InTurns limit (answered content turns) = (1 ≤ turns) × (turns ≤ limit)
InTurns limit (stopped content turns) = (1 ≤ turns) × (turns ≤ limit)
InTurns limit _ = Unit

-- The calls of a loop that starts on turn `i` with `tries` retries used.
pub record Within (limit i tries : ℕ) (r : List Phase × List String × Outcome) : Type 0 where
  pub in_order : InOrder planning r.0
  pub bounded : thinks r.0 ≤ 4 * (limit - i) - tries
  pub in_turns : InTurns limit r.2

AtTurn-InTurns : (limit i : ℕ) (o : Outcome) → i < limit → AtTurn (suc i) o → InTurns limit o
AtTurn-InTurns limit i (answered content turns) h e = omega arith
AtTurn-InTurns limit i (stopped content turns) h e = omega arith
AtTurn-InTurns limit i _ h e = tt

module _ {W : Type 0} (agents : Agents W) (goal : String) where
  -- What a loop body gives when the rest of the loop does as it should.
  continue-Within :
      (limit i tries fuel : ℕ) (p : Pass W)
      → i < limit
      → tries ≤ 3
      → 4 * (limit - i) ≤ fuel + tries
      → Orderly i tries p
      → (rest : ℕ → ℕ → Context → W → Option (List Phase × List String × Outcome))
      → ((i' tries' : ℕ) (c : Context) (w : W)
          → tries' ≤ 3
          → 1 ≤ fuel
          → (i' < limit → 4 * (limit - i') + 1 ≤ fuel + tries')
          → (r : List Phase × List String × Outcome) × (rest i' tries' c w ≡ some r)
            × Within limit i' tries' r)
      → (r : List Phase × List String × Outcome) × (continue agents goal p rest ≡ some r)
        × Within limit i tries r
  unfolding continue
  continue-Within limit i tries fuel (ended phases facts o w) below few room h rest ih = (
    (phases, facts, o),
    refl,
    record { in_order = h.0; bounded = omega arith; in_turns = AtTurn-InTurns limit i o below h.2 },
  )
  continue-Within limit i tries fuel (again phases facts i' tries' c w) below few room h rest ih =
      let (r, e, good) = ih i' tries' c w h.2 (omega arith) (λ k. omega arith) in
      (
        (phases ++ r.0, facts ++ r.1, r.2),
        ap (prepend agents goal phases facts) e,
        record {
          in_order = h.0 r.0 good.in_order;
          bounded = omega (arith, thinks-append phases r.0, good.bounded);
          in_turns = good.in_turns;
        },
      )

  loop-Within :
      (limit fuel i tries : ℕ) (c : Context) (w : W)
      → tries ≤ 3
      → 1 ≤ fuel
      → (i < limit → 4 * (limit - i) + 1 ≤ fuel + tries)
      → (r : List Phase × List String × Outcome) × (loop agents goal fuel limit i tries c w
          ≡ some r)
        × Within limit i tries r
  unfolding loop
  loop-Within limit zero i tries c w few one h = elim one [ ]
  loop-Within limit (suc fuel) i tries c w few one h = elim (Bool-cases (ltb i limit)) [
    | inl below ↦ rw below (
        continue-Within limit i tries fuel (pass agents goal i tries c w) (ground arith) few
          (ground arith) (pass-Orderly agents goal i tries c w few) (loop agents goal fuel limit)
          (loop-Within limit fuel))
    | inr over ↦ rw over (
      ([], [], max_turns_reached),
      refl,
      record { in_order = tt; bounded = omega arith; in_turns = tt },
    )
  ]

  -- `Run` always ends. With the plan it makes one call of the planner, then at most four thoughts
  -- for each turn, in the order plan, think, act, reflect, with a new plan only after a reflection;
  -- an answer or a stop carries a turn count between 1 and the limit.
  pub run_total :
      (limit : ℕ) (c : Context) (w : W)
      → (calls : List Phase) × (facts : List String) × (o : Outcome) × (run agents goal limit c w
          ≡ some (planning ∷ calls, facts, o))
        × InOrder planning calls
        × (thinks calls ≤ 4 * limit)
        × InTurns limit o
  unfolding run
  run_total limit c w = planned (agents.plan goal c w)
    where
      planned :
          (p : Result Plan × W)
          → (calls : List Phase) × (facts : List String) × (o : Outcome) × (after_plan agents goal
                limit c p
              ≡ some (planning ∷ calls, facts, o))
            × InOrder planning calls
            × (thinks calls ≤ 4 * limit)
            × InTurns limit o
      planned (err e, w') = ([], [], planning_failed e, refl, tt, omega arith, tt)
      planned (ok p, w') =
          let (r, e, good) =
            loop-Within limit (enough agents goal limit) 0 0 (record c { current_plan = some p }) w'
              (omega arith) (omega arith) (λ _. omega arith) in
          (
            r.0,
            r.1,
            r.2,
            ap (prepend agents goal (planning ∷ []) []) e,
            good.in_order,
            omega (arith, good.bounded),
            good.in_turns,
          )

-- ===== src/Cognitive/Engine/Keeping.antt =====
-- What the passes of the engine's loop keep of a context without a token budget.
use mathlib.Core.Path.{subst}
use mathlib.Core.List.{append_assoc, append-nil}
use heike.Prelude.{
  ℕ, String, ◌≡◌, refl, ap, sym, ◌∙◌, inl, inr, Option, none, some, List, [], ◌∷◌, ◌++◌, map, arith,
  ◌==◌, if◌then◌else◌, Option-cases, Bool-cases, leb,
}
use heike.Errors.{Result, ok, err}
use heike.Cognitive.Context.{
  Message, Context, Plan, Reflection, ControlSignal, proceed, retry, replan, stop, prune, update,
}
use heike.Cognitive.Engine.{
  Agents, Action, Thought, ExecutionResult, Phase, Pass, ended, again, next_action, add_thought,
  add_outputs, take_plan, follow, after_reflect, after_act, after_think, pass, max_retries_per_turn,
  is_tool_call, tool_message,
}

-- The later context has the whole history and every memory of the first, in front of what was
-- added, and no budget.
pub record Extends (c d : Context) : Type 0 where
  pub said : List Message
  pub learned : List String
  pub history : d.history ≡ c.history ++ said
  pub memories : d.memories ≡ c.memories ++ learned
  pub unlimited : d.token_budget ≡ 0

pub Extends-refl : (c : Context) → c.token_budget ≡ 0 → Extends c c
Extends-refl c h = record {
  said = [];
  learned = [];
  history = sym (append-nil c.history);
  memories = sym (append-nil c.memories);
  unlimited = h;
}

pub Extends-trans : (a b c : Context) → Extends a b → Extends b c → Extends a c
Extends-trans a b c x y = record {
  said = x.said ++ y.said;
  learned = x.learned ++ y.learned;
  history =
      y.history
      ∙ ap (λ (l : List Message). l ++ y.said) x.history
      ∙ append_assoc a.history x.said y.said;
  memories =
      y.memories
      ∙ ap (λ (l : List String). l ++ y.learned) x.memories
      ∙ append_assoc a.memories x.learned y.learned;
  unlimited = y.unlimited;
}

prune-unlimited : (c : Context) → c.token_budget ≡ 0 → prune c ≡ c
unfolding prune
prune-unlimited c h = ground (arith, h)

-- The same history and memories, with more at their ends.
grown :
    (a c d : Context) (said : List Message) (learned : List String)
    → d.history ≡ c.history ++ said
    → d.memories ≡ c.memories ++ learned
    → d.token_budget ≡ c.token_budget
    → Extends a c
    → Extends a d
grown a c d said learned h m b x = Extends-trans a c d x (record {
  said = said;
  learned = learned;
  history = h;
  memories = m;
  unlimited = b ∙ x.unlimited;
})

pruned-Extends : (a c : Context) → Extends a c → Extends a (prune c)
pruned-Extends a c x = rw (prune-unlimited c x.unlimited) x

update-Extends : (a c : Context) (r : Option Reflection) → Extends a c → Extends a (update c r)
unfolding update
update-Extends a c none x = x
update-Extends a c (some r) x =
    let merged : Context = record c {
      scratchpad = if r.content == "" then c.scratchpad else c.scratchpad ++ r.content ∷ [];
      memories = c.memories ++ r.new_memories;
    } in
    pruned-Extends a merged
      (grown a c merged [] r.new_memories (sym (append-nil c.history)) refl refl x)

add_thought-Extends : (a c : Context) (t : Thought) → Extends a c → Extends a (add_thought c t)
unfolding add_thought
add_thought-Extends a c t x = grown a c _ _ [] refl (sym (append-nil c.memories)) refl x

module _ {W : Type 0} (agents : Agents W) (goal : String) where
  -- The contexts that the loop hands from pass to pass.
  pub data Reaches : ℕ → ℕ → Context → W → Context → Type 0 where
    here : (i tries : ℕ) (c : Context) (w : W) → Reaches i tries c w c
    onward :
        (i tries i' tries' : ℕ) (c d e : Context) (w w' : W) (phases : List Phase)
        (facts : List String)
        → pass agents goal i tries c w ≡ again phases facts i' tries' d w'
        → Reaches i' tries' d w' e
        → Reaches i tries c w e

module _ {W : Type 0} (agents : Agents W) (goal : String) (a : Context) where
  -- A pass that goes on hands a context on.
  abbrev Keeps : Pass W → Type 0
  Keeps (ended phases facts outcome w) = Unit
  Keeps (again phases facts i tries c w) = Extends a c

  take_plan-Extends :
      (c : Context) (r : Result Plan) → Extends a c → Extends a (take_plan agents goal c r)
  unfolding take_plan
  take_plan-Extends c (err e) x = x
  take_plan-Extends c (ok p) x =
      grown a c _ [] [] (sym (append-nil c.history)) (sym (append-nil c.memories)) refl x

  follow-Keeps :
      (signal : ControlSignal) (i tries : ℕ) (c : Context) (r : Reflection) (w : W)
      → Extends a c
      → Keeps (follow agents goal signal i tries c r w)
  unfolding follow
  follow-Keeps retry i tries c r w x = elim (Bool-cases (leb max_retries_per_turn tries)) [
    | inl over ↦ rw over x
    | inr under ↦ rw under x
  ]
  follow-Keeps replan i tries c r w x = take_plan-Extends c (agents.plan goal c w).0 x
  follow-Keeps stop i tries c r w x = tt
  follow-Keeps proceed i tries c r w x = x

  after_reflect-Keeps :
      (i tries : ℕ) (c : Context) (r : Result Reflection × W)
      → Extends a c
      → Keeps (after_reflect agents goal i tries c r)
  unfolding after_reflect
  after_reflect-Keeps i tries c (err e, w) x = x
  after_reflect-Keeps i tries c (ok r, w) x =
      follow-Keeps r.next_action i tries (update c (some r)) r w (update-Extends a c (some r) x)

  add_outputs-Extends :
      (c : Context) (action : Action) (r : ExecutionResult)
      → Extends a c
      → Extends a (add_outputs c action r)
  unfolding add_outputs
  add_outputs-Extends c action r x = elim (Bool-cases (is_tool_call action.kind)) [
    | inl called ↦
        rw called (
          grown a c _ (map tool_message r.tool_outputs) [] refl (sym (append-nil c.memories)) refl
            x)
    | inr other ↦ rw other x
  ]

  after_act-Keeps :
      (i tries : ℕ) (c : Context) (action : Action) (r : Result ExecutionResult × W)
      → Extends a c
      → Keeps (after_act agents goal i tries c action r)
  unfolding after_act
  after_act-Keeps i tries c action (err e, w) x = tt
  after_act-Keeps i tries c action (ok r, w) x =
      after_reflect-Keeps i tries (prune (add_outputs c action r)) (agents.reflect goal action r w)
        (pruned-Extends a (add_outputs c action r) (add_outputs-Extends c action r x))

  after_think-Keeps :
      (i tries : ℕ) (c : Context) (r : Result Thought × W)
      → Extends a c
      → Keeps (after_think agents goal i tries c r)
  unfolding after_think
  after_think-Keeps i tries c (err e, w) x = tt
  after_think-Keeps i tries c (ok t, w) x = elim (Option-cases (next_action t)) [
    | inl answer ↦ rw (answer, after_think, Keeps) tt
    | inr (action, acts) ↦
        rw (acts, after_think, Keeps)
          (after_act-Keeps i tries (add_thought c t) action (agents.act action w)
            (add_thought-Extends a c t x))
  ]

  pub pass-Keeps :
      (i tries : ℕ) (c : Context) (w : W) → Extends a c → Keeps (pass agents goal i tries c w)
  unfolding pass
  pass-Keeps i tries c w x = elim (Option-cases (agents.cancelled w)) [
    | inr (e, over) ↦ rw (over, pass, Keeps) tt
    | inl fine ↦
        rw (fine, pass, Keeps)
          (after_think-Keeps i tries c (agents.think goal c.current_plan c w) x)
  ]

  pub Reaches-Extends :
      (i tries : ℕ) (c d : Context) (w : W)
      → Reaches agents goal i tries c w d
      → Extends a c
      → Extends a d
  Reaches-Extends i tries c d w (here _ _ _ _) x = x
  Reaches-Extends i tries c d w (onward _ _ i' tries' _ c' _ _ w' phases facts e later) x =
      Reaches-Extends i' tries' c' d w' later (subst Keeps e (pass-Keeps i tries c w x))

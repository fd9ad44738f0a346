-- ===== src/Cognitive/Engine.antt =====
-- internal/cognitive/engine.go: plan, then at most `max_turns` turns of think, act and reflect.
-- The planner, the thinker, the actor and the reflector are interfaces that the engine is given:
-- functions over a world `W` that each call may change. The model also lists the calls made, in
-- order, and the facts handed to the memory manager.
pub mod Phases
pub mod Termination
pub mod Keeping
use Prim.Native.String.{◌++◌ as text_append}
use heike.Prelude.{
  ℕ, zero, suc, ◌+◌, ◌*◌, String, Bool, true, false, Option, none, some, List, [], ◌∷◌, ◌++◌, map,
  leb, ltb, if◌then◌else◌,
}
use heike.Errors.{Err, Result, ok, err}
use heike.Cognitive.Context.{
  Message, ToolCall, Plan, Reflection, Context, ControlSignal, proceed, retry, replan, stop, prune,
  update,
}

pub data ActionType : Type 0 where
  tool_call answer : ActionType
  other : String → ActionType

pub record Action : Type 0 where
  pub kind : ActionType
  pub tool_calls : List ToolCall
  pub content : String

pub record Thought : Type 0 where
  pub content : String
  pub action : Option Action

pub record ToolOutput : Type 0 where
  pub call_id : String
  pub name : String
  pub text : String

pub record ExecutionResult : Type 0 where
  pub output : String
  pub tool_outputs : List ToolOutput

-- The interfaces that the engine calls. `cancelled` is `ctx.Err()`.
pub record Agents (W : Type 0) : Type 0 where
  pub plan : String → Context → W → Result Plan × W
  pub think : String → Option Plan → Context → W → Result Thought × W
  pub act : Action → W → Result ExecutionResult × W
  pub reflect : String → Action → ExecutionResult → W → Result Reflection × W
  pub cancelled : W → Option Err

pub data Phase : Type 0 where
  planning thinking acting reflecting : Phase

pub data Outcome : Type 0 where
  answered : String → ℕ → Outcome
  stopped : String → ℕ → Outcome
  planning_failed thinking_failed action_failed interrupted : Err → Outcome
  max_turns_reached : Outcome

-- What one pass of the loop leaves: an end, or the next turn number, retry count, context and world.
pub data Pass (W : Type 0) : Type 0 where
  ended : List Phase → List String → Outcome → W → Pass W
  again : List Phase → List String → ℕ → ℕ → Context → W → Pass W

abbrev pub max_retries_per_turn : ℕ
max_retries_per_turn = 3

abbrev pub is_tool_call : ActionType → Bool
is_tool_call tool_call = true
is_tool_call answer = false
is_tool_call (other s) = false

abbrev pub is_answer : ActionType → Bool
is_answer answer = true
is_answer tool_call = false
is_answer (other s) = false

-- The action of a thought that is no final answer.
unfoldable pub next_action : Thought → Option Action
next_action t = elim (t.action) [ none ↦ none | some a ↦ if is_answer a.kind then none else some a ]

abbrev pub calls_of : Option Action → List ToolCall
calls_of none = []
calls_of (some a) = if is_tool_call a.kind then a.tool_calls else []

unfoldable pub add_thought : Context → Thought → Context
add_thought c t = record c {
  history =
      c.history
      ++ record {
        role = "assistant";
        content = t.content;
        tool_call_id = "";
        tool_calls = calls_of t.action;
      }
        ∷ [];
}

pub tool_message : ToolOutput → Message
tool_message o = record {
  role = "tool";
  content = o.text;
  tool_call_id = o.call_id;
  tool_calls = [];
}

unfoldable pub add_outputs : Context → Action → ExecutionResult → Context
unfolding tool_message
add_outputs c a r =
    if is_tool_call a.kind
    then record c { history = c.history ++ map tool_message r.tool_outputs }
    else c

module _ {W : Type 0} (agents : Agents W) (goal : String) where
  -- The replan signal: a plan that fails leaves the old one.
  unfoldable pub take_plan : Context → Result Plan → Context
  take_plan c (ok p) = record c { current_plan = some p }
  take_plan c (err e) = c

  -- The control signal of a reflection, on turn `i`.
  unfoldable pub follow : ControlSignal → ℕ → ℕ → Context → Reflection → W → Pass W
  unfolding take_plan
  follow retry i tries c r w =
      if leb max_retries_per_turn tries
      then again (thinking ∷ acting ∷ reflecting ∷ []) [] (suc i) 0 c w
      else again (thinking ∷ acting ∷ reflecting ∷ []) [] i (suc tries) c w
  follow replan i tries c r w =
      let p = agents.plan goal c w in
      again (thinking ∷ acting ∷ reflecting ∷ planning ∷ []) r.new_memories (suc i) 0
        (take_plan c p.0) p.1
  follow stop i tries c r w =
      ended (thinking ∷ acting ∷ reflecting ∷ []) []
        (stopped (text_append "Stopped by reflector: " r.content) (suc i)) w
  follow proceed i tries c r w =
      again (thinking ∷ acting ∷ reflecting ∷ []) r.new_memories (suc i) 0 c w

  unfoldable pub after_reflect : ℕ → ℕ → Context → Result Reflection × W → Pass W
  unfolding follow
  after_reflect i tries c (err e, w) =
      again (thinking ∷ acting ∷ reflecting ∷ []) [] (suc i) tries c w
  after_reflect i tries c (ok r, w) = follow r.next_action i tries (update c (some r)) r w

  unfoldable pub after_act : ℕ → ℕ → Context → Action → Result ExecutionResult × W → Pass W
  unfolding after_reflect add_outputs
  after_act i tries c a (err e, w) = ended (thinking ∷ acting ∷ []) [] (action_failed e) w
  after_act i tries c a (ok r, w) =
      after_reflect i tries (prune (add_outputs c a r)) (agents.reflect goal a r w)

  unfoldable pub after_think : ℕ → ℕ → Context → Result Thought × W → Pass W
  unfolding after_act next_action add_thought
  after_think i tries c (err e, w) = ended (thinking ∷ []) [] (thinking_failed e) w
  after_think i tries c (ok t, w) = elim (next_action t) [
    | none ↦ ended (thinking ∷ []) [] (answered t.content (suc i)) w
    | some a ↦ after_act i tries (add_thought c t) a (agents.act a w)
  ]

  -- One pass of the loop's body.
  unfoldable pub pass : ℕ → ℕ → Context → W → Pass W
  unfolding after_think
  pass i tries c w = elim (agents.cancelled w) [
    | some e ↦ ended [] [] (interrupted e) w
    | none ↦ after_think i tries c (agents.think goal c.current_plan c w)
  ]

  -- The calls made, the facts remembered, and the outcome.
  abbrev pub Report : Type 0
  Report = List Phase × List String × Outcome

  -- The calls and facts of one pass, before those of the rest.
  abbrev pub prepend : List Phase → List String → Option Report → Option Report
  prepend phases facts none = none
  prepend phases facts (some (later, more, outcome)) =
      some (phases ++ later, facts ++ more, outcome)

  unfoldable pub continue : Pass W → (ℕ → ℕ → Context → W → Option Report) → Option Report
  continue (ended phases facts outcome w) rest = some (phases, facts, outcome)
  continue (again phases facts i tries c w) rest = prepend phases facts (rest i tries c w)

  -- `for i := 0; i < e.maxTurns; i++`, on fuel.
  unfoldable pub loop : ℕ → ℕ → ℕ → ℕ → Context → W → Option Report
  unfolding continue pass
  loop zero max_turns i tries c w = none
  loop (suc fuel) max_turns i tries c w =
      let body = continue (pass i tries c w) (loop fuel max_turns) in
      if ltb i max_turns then body else some ([], [], max_turns_reached)

  -- The fuel of `loop`: four passes for each turn, and the test that ends it.
  abbrev pub enough : ℕ → ℕ
  enough max_turns = suc (4 * max_turns)

  unfoldable pub after_plan : ℕ → Context → Result Plan × W → Option Report
  unfolding loop
  after_plan max_turns c (err e, w) = some (planning ∷ [], [], planning_failed e)
  after_plan max_turns c (ok p, w) =
      prepend (planning ∷ []) []
        (loop (enough max_turns) max_turns 0 0 (record c { current_plan = some p }) w)

  -- `Run` on the context that the options have filled.
  unfoldable pub run : ℕ → Context → W → Option Report
  unfolding after_plan
  run max_turns c w = after_plan max_turns c (agents.plan goal c w)

-- NewEngine's defaults.
unfoldable pub positive_or : ℕ → ℕ → ℕ
positive_or zero default = default
positive_or (suc n) default = suc n

-- ===== src/Cognitive/Actor.antt =====
-- internal/cognitive/actor.go: the actor, over an executor of tools.
use Prim.Native.String.{◌++◌ as text_append}
use heike.Prelude.{String, List, [], ◌∷◌}
use heike.Errors.{Err, Result, ok, err, plain}
use heike.Cognitive.Context.{ToolCall}
use heike.Cognitive.Engine.{ActionType, tool_call, answer, Action, ToolOutput, ExecutionResult}

-- ToolExecutor on a world: the tool's name, its arguments and an input.
abbrev pub ToolExecutor : Type 0 → Type 0
ToolExecutor W = String → String → String → W → Result String × W

abbrev pub failed_text : (Err → String) → String → Result String → String
failed_text text name (ok out) = out
failed_text text name (err e) =
    text_append "Tool " (text_append name (text_append " failed: " (text e)))

abbrev pub tool_output : ToolCall → String → ToolOutput
tool_output c out = record { call_id = c.id; name = c.name; text = out }

module _ {W : Type 0} (executor : ToolExecutor W) (text : Err → String) where
  -- The loop over the calls; an error is the output of its call.
  unfoldable pub execute_calls : List ToolCall → W → List ToolOutput × W
  execute_calls [] w = ([], w)
  execute_calls (c ∷ cs) w =
      let r = executor c.name c.input "" w in
      let rest = execute_calls cs r.1 in
      (tool_output c (failed_text text c.name r.0) ∷ rest.0, rest.1)

  abbrev pub output_lines : List ToolOutput → String
  output_lines [] = ""
  output_lines (o ∷ os) =
      text_append
        (text_append "Tool "
          (text_append o.name (text_append " output: " (text_append o.text "\n"))))
        (output_lines os)

  abbrev pub executed_calls : List ToolOutput × W → Result ExecutionResult × W
  executed_calls (os, w) = (ok (record { output = output_lines os; tool_outputs = os }), w)

  abbrev pub act_kind : ActionType → Action → W → Result ExecutionResult × W
  act_kind answer a w = (ok (record { output = a.content; tool_outputs = [] }), w)
  act_kind tool_call a w = executed_calls (execute_calls a.tool_calls w)
  act_kind (ActionType.other kind) a w = (err (plain "unknown action type: %s" (kind ∷ [])), w)

  unfoldable pub act : Action → W → Result ExecutionResult × W
  unfolding execute_calls
  act a w = act_kind a.kind a w

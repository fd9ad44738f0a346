-- ===== src/Examples/Thinking.antt =====
-- The context and the loop of the cognitive engine on concrete values.
use heike.Prelude.{
  ℕ, zero, suc, Option, ◌==◌, if◌then◌else◌, ◌<◌, ◌≤◌, String, ◌≡◌, refl, none, some, List, [], ◌∷◌,
  arith,
}
use heike.Errors.{Result, ok}
use heike.Cognitive.Context.{
  Message, Context, retry, estimate, plan_cost, total, prune, keep_first, keep_last, prune_rest,
}
use heike.Cognitive.Context.Pruning.{content_cost, PrunedTo, prune_budget, prune-PrunedTo}
use heike.Cognitive.Structured.{ask}
use heike.Cognitive.Structured.Asking.{Decided, ask-decides}
use heike.Cognitive.Engine.{Agents, Action, tool_call, Phase, planning, Outcome, run}
use heike.Cognitive.Engine.Phases.{InOrder, thinks}
use heike.Cognitive.Engine.Termination.{InTurns, run_total}

abbrev note : String → Message
note s = record { role = "user"; content = s; tool_call_id = ""; tool_calls = [] }

abbrev full_context : Context
full_context = record {
  session_id = "s";
  workspace_id = "w";
  available_skills = [];
  history = note "an old message" ∷ note "a new one!!!" ∷ [];
  memories = "remember this" ∷ "and that" ∷ [];
  scratchpad = "thinking" ∷ [];
  current_plan = none;
  metadata = [];
  token_budget = 10;
  token_usage = 0;
}

old_message_dropped : (prune full_context).history ≡ note "a new one!!!" ∷ []
unfolding prune prune_rest keep_first keep_last total estimate plan_cost
old_message_dropped = refl

prune_budget_example :
    ((prune full_context).token_usage ≤ 10)
    × (plan_cost none ≤ 10 → (prune full_context).token_usage ≡ content_cost (prune full_context))
    × (10 < plan_cost none
        → ((prune full_context).scratchpad ≡ [])
          × ((prune full_context).memories ≡ [])
          × ((prune full_context).history ≡ []))
prune_budget_example = prune_budget full_context (omega arith)

prune-PrunedTo_example : PrunedTo full_context (prune full_context)
prune-PrunedTo_example = prune-PrunedTo full_context

abbrev search_action : Action
search_action = record { kind = tool_call; tool_calls = []; content = "" }

-- Agents that always ask for a tool and then for a retry.
abbrev pub stubborn : Agents (Unit {0})
stubborn = record {
  plan = λ goal c w. (ok (record { steps = []; raw = "" }), w);
  think = λ goal p c w. (ok (record { content = "again"; action = some search_action }), w);
  act = λ a w. (ok (record { output = ""; tool_outputs = [] }), w);
  reflect = λ goal a r w. (ok (record { content = ""; next_action = retry; new_memories = [] }), w);
  cancelled = λ w. none;
}

run_total_example :
    (calls : List Phase) × (facts : List String) × (o : Outcome) × (run stubborn "goal" 2
        full_context tt
      ≡ some (planning ∷ calls, facts, o))
    × InOrder planning calls
    × (thinks calls ≤ 8)
    × InTurns 2 o
run_total_example = run_total stubborn "goal" 2 full_context tt

-- A model whose first answer cannot be read, and whose second one can.
abbrev second_time : ℕ → Result String
second_time zero = ok "well..."
second_time (suc n) = ok "yes"

abbrev read_yes : String → Option String
read_yes s = if s == "yes" then some s else none

ask-decides_example :
    Decided read_yes second_time "failed: %w" "invalid" 0 3
      (ask "failed: %w" "invalid" read_yes second_time 3 0)
ask-decides_example = ask-decides read_yes second_time "failed: %w" "invalid" 3 0

-- ===== src/Cognitive/Structured.antt =====
-- internal/cognitive: structured_response.go, and the loops of planner.go and reflector.go that ask the
-- language model until its answer can be read. encoding/json and strings.ToLower are parameters.
pub mod Asking
use heike.Prelude.{
  ℕ, zero, suc, String, Bool, true, false, Option, none, some, List, [], ◌∷◌, ◌==◌, ◌||◌,
  if◌then◌else◌, mem, trim_space,
}
use heike.Errors.{Err, Result, ok, err, wrapped, of_category, invalid_model_output}
use heike.Orchestrator.Parsing.Lines.{clean_model_json_block}
use heike.Cognitive.Context.{
  PlanStep, Plan, ControlSignal, proceed, retry, replan, stop, Reflection,
}

pub record PlannerPayload : Type 0 where
  pub steps : List PlanStep
  pub plan : List PlanStep
  pub items : List PlanStep
  pub tasks : List PlanStep

pub record ReflectionPayload : Type 0 where
  pub analysis : String
  pub action : String
  pub new_memories : List String

-- json.Unmarshal, `none` on an error, the text of "step-%d", and strings.ToLower. `cleanModelJSON` is,
-- word by word, the task manager's function of the same purpose.
pub record Answers : Type 0 where
  pub steps : String → Option (List PlanStep)
  pub planner : String → Option PlannerPayload
  pub reflection : String → Option ReflectionPayload
  pub step_id : ℕ → String
  pub to_lower : String → String

abbrev pub default_to : String → String → String
default_to fallback text = if text == "" then fallback else text

unfoldable pub normalize_memories : List String → List String → List String
unfolding mem trim_space
normalize_memories seen [] = []
normalize_memories seen (m ∷ ms) =
    let clean = trim_space m in
    let skipped = normalize_memories seen ms in
    let taken = normalize_memories (clean ∷ seen) ms in
    if clean == "" || mem clean seen then skipped else clean ∷ taken

abbrev pub unless_none : List PlanStep → Option (List PlanStep)
unless_none [] = none
unless_none (s ∷ ss) = some (s ∷ ss)

abbrev pub or_later : Option (List PlanStep) → Option (List PlanStep) → Option (List PlanStep)
or_later none later = later
or_later (some ss) later = some ss

module _ (a : Answers) where
  open a use {step_id, to_lower}

  abbrev pub normalize_step : ℕ → PlanStep → PlanStep
  normalize_step n s = record {
    id =
        if trim_space s.id == "" || trim_space s.id == "<nil>"
        then step_id (suc n)
        else trim_space s.id;
    description = trim_space s.description;
    status = default_to "pending" (trim_space s.status);
  }

  -- The loop, with the number of steps that are out.
  unfoldable pub normalize_plan_steps : ℕ → List PlanStep → List PlanStep
  unfolding trim_space
  normalize_plan_steps n [] = []
  normalize_plan_steps n (s ∷ ss) = elim (trim_space s.description == "") [
    | true ↦ normalize_plan_steps n ss
    | false ↦ normalize_step n s ∷ normalize_plan_steps (suc n) ss
  ]

  abbrev pub read_steps : Option (List PlanStep) → Option (List PlanStep)
  read_steps none = none
  read_steps (some ss) = unless_none (normalize_plan_steps 0 ss)

  unfoldable pub parse_plan_step_array_json : String → Option (List PlanStep)
  unfolding normalize_plan_steps trim_space
  parse_plan_step_array_json raw = if trim_space raw == "" then none else read_steps (a.steps raw)

  abbrev pub read_payload : Option PlannerPayload → Option (List PlanStep)
  read_payload none = none
  read_payload (some p) = or_later (read_steps (some p.steps)) (
      or_later (read_steps (some p.plan))
        (or_later (read_steps (some p.items)) (read_steps (some p.tasks))))

  unfoldable pub parse_plan_step_object_json : String → Option (List PlanStep)
  unfolding normalize_plan_steps trim_space
  parse_plan_step_object_json raw =
      if trim_space raw == "" then none else read_payload (a.planner raw)

  unfoldable pub parse_planner_response : String → Option (List PlanStep)
  unfolding parse_plan_step_array_json parse_plan_step_object_json clean_model_json_block
  parse_planner_response raw =
      or_later (parse_plan_step_array_json (clean_model_json_block raw))
        (parse_plan_step_object_json (clean_model_json_block raw))

  unfoldable pub parse_control_signal : String → Option ControlSignal
  unfolding trim_space
  parse_control_signal action =
      let text = to_lower (trim_space action) in
      if text == "retry"
      then some retry
      else if text == "replan"
      then some replan
      else if text == "stop"
      then some stop
      else if text == "continue"
      then some proceed
      else none

  abbrev pub with_signal : ReflectionPayload → Option ControlSignal → Option Reflection
  with_signal p none = none
  with_signal p (some signal) = some (record {
    content = default_to "No analysis provided." (trim_space p.analysis);
    next_action = signal;
    new_memories = normalize_memories [] p.new_memories;
  })

  abbrev pub read_reflection : Option ReflectionPayload → Option Reflection
  read_reflection none = none
  read_reflection (some p) = with_signal p (parse_control_signal p.action)

  unfoldable pub parse_reflection_response : String → Option Reflection
  unfolding parse_control_signal normalize_memories trim_space clean_model_json_block
  parse_reflection_response raw =
      if trim_space (clean_model_json_block raw) == ""
      then none
      else read_reflection (a.reflection (clean_model_json_block raw))

  abbrev pub plan_of : String → Option (List PlanStep) → Option Plan
  plan_of raw none = none
  plan_of raw (some steps) = some (record { steps = steps; raw = raw })

  -- What the planner makes of an answer, which it cleans before it is parsed.
  unfoldable pub read_plan : String → Option Plan
  unfolding parse_planner_response clean_model_json_block
  read_plan response =
      plan_of (clean_model_json_block response)
        (parse_planner_response (clean_model_json_block response))

abbrev pub read_or : {A : Type 0} → Option A → Result A → Result A
read_or none later = later
read_or (some x) later = ok x

abbrev pub read_answer :
    {A : Type 0} → String → (String → Option A) → Result String → Result A → Result A
read_answer failure read (err e) later = err (wrapped failure [] e)
read_answer failure read (ok response) later = read_or (read response) later

-- The loop over the attempts: `complete` is the language model by attempt, `left` the attempts left.
unfoldable pub ask :
    {A : Type 0} → String → String → (String → Option A) → (ℕ → Result String) → ℕ → ℕ → Result A
ask failure invalid read complete zero n = err (of_category invalid_model_output invalid)
ask failure invalid read complete (suc left) n =
    read_answer failure read (complete n) (ask failure invalid read complete left (suc n))

unfoldable pub plan_steps : Answers → ℕ → (ℕ → Result String) → Result Plan
unfolding ask read_plan
plan_steps a retry_max complete =
    ask "planning failed: %w" "planner returned invalid JSON output" (read_plan a) complete
      (suc retry_max) 0

unfoldable pub reflect_on : Answers → ℕ → (ℕ → Result String) → Result Reflection
unfolding ask parse_reflection_response
reflect_on a retry_max complete =
    ask "reflection failed: %w" "reflector returned invalid JSON output"
      (parse_reflection_response a) complete (suc retry_max) 0

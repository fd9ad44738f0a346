-- ===== src/Orchestrator/Requests.antt =====
-- internal/orchestrator/task/manager.go: the way of a request through the task manager. What the
-- engine and the language model answer are parameters; the skills are those of Orchestrator/Skills.
pub mod Replies
pub mod Budget
pub mod Truncation
use Prim.Native.String.{◌++◌ as text_append}
use heike.Prelude.{
  ℕ, String, Bool, true, false, Option, none, some, List, [], ◌∷◌, ◌++◌, ◌==◌, not, ◌&&◌, ltb,
  if◌then◌else◌, length, take,
}
use heike.Errors.{Err, Result, ok, err, wrapped}
use heike.Cognitive.Context.{Context}
use heike.Orchestrator.Batches.{SubTask}
use heike.Orchestrator.Dag.{Env, SubTaskResult, execute_dag}
use heike.Orchestrator.Session.{Moment, append_interaction, get_context}
use heike.Orchestrator.Skills.{Texts, Provider, apply_skill_context}
use heike.Orchestrator.Tools.{ScoredTool, apply_tool_definitions}
use heike.Orchestrator.Tools.Catalog.{Descriptor, Words}
use heike.Orchestrator.Command.{State, Setup, Instant}

-- What the manager was built with. `run` is the engine on a goal, the tools that its context is given
-- and the option that it applies to its fresh context; `tasks` and `after_tasks` are what it answers to the subtasks of a batch and
-- what their runs leave; `decimal` is %d.
pub record Parts : Type 0 where
  pub run : String → List Descriptor → (Context → Context) → State → State × Result String
  pub tasks : List Descriptor → Context → State → Env
  pub after_tasks : List Descriptor → Context → State → List (Option SubTask) → State
  pub should_decompose : String → Bool
  pub decompose : String → State → Result (List (Option SubTask))
  pub texts : Texts
  pub words : Words
  pub sort : (ScoredTool → ScoredTool → Bool) → List ScoredTool → List ScoredTool
  pub tools : List Descriptor
  pub max_tools : Option ℕ
  pub skills : Option Provider
  pub memory : Option (String → Result (List String))
  pub sorted : List String → List String
  pub decimal : ℕ → String
  pub history_limit : ℕ
  pub retry_max : ℕ
  pub max_sub_tasks : ℕ

-- When the message is kept, when the context is loaded, when the decomposition is noted, and when the answer is sent.
pub record Times : Type 0 where
  pub asking : Moment
  pub loading : Moment
  pub noting : Moment
  pub answering : Instant

-- subTasks[:tm.maxSubTasks]
unfoldable pub truncate : ℕ → List (Option SubTask) → List (Option SubTask)
truncate limit tasks = if ltb limit (length tasks) then take limit tasks else tasks

abbrev pub error_text : (Err → String) → Option Err → String
error_text text none = "<nil>"
error_text text (some e) = text e

-- One task's lines of the answer.
abbrev pub result_lines : (Err → String) → SubTaskResult → String
result_lines text r =
    let status =
      if r.success
      then "Success"
      else text_append "Failed (" (text_append (error_text text r.error) ")") in
    let head =
      text_append "- Task " (text_append r.id (text_append ": " (text_append status "\n"))) in
    if r.output == ""
    then head
    else text_append head (text_append "  Output: " (text_append r.output "\n"))

abbrev pub results_lines : (Err → String) → List SubTaskResult → String
results_lines text [] = ""
results_lines text (r ∷ rs) = text_append (result_lines text r) (results_lines text rs)

unfoldable pub results_text : (Err → String) → List SubTaskResult → String
results_text text rs = text_append "Sub-task results:\n" (results_lines text rs)

-- The tools that a goal is offered.
unfoldable pub offered : Parts → String → List Descriptor
unfolding apply_tool_definitions
offered parts goal =
    apply_tool_definitions parts.words parts.decimal parts.sort parts.max_tools goal parts.tools

module _ (setup : Setup) where
  -- Egress.Send, and what its error becomes.
  abbrev pub send_reply : State → Instant → String → String → State × Option Err
  send_reply s t id content = if not setup.has_output then (s, none) else (
    record s { sent = s.sent ++ (id, content) ∷ [] },
    elim t.send_error [ none ↦ none | some e ↦ some (wrapped "send response: %w" [] e) ],
  )

  abbrev pub unless_lost :
      State → Instant → String → String → String → Option Err → State × Option Err
  unless_lost s t id role content (some e) = (s, some e)
  unless_lost s t id role content none =
      if not (role == "assistant") && not (role == "system")
      then (s, none)
      else send_reply s t id content

  unfoldable pub persist_and_send : State → Instant → String → String → String → State × Option Err
  unfolding append_interaction
  persist_and_send s t id role content =
      let r = append_interaction setup.json setup.max_bytes s.files t.moment id role content in
      unless_lost (record s { files = r.0 }) t id role content r.1

  module _ (parts : Parts) where
    abbrev pub answer_run : Times → String → State × Result String → State × Option Err
    answer_run t id (s, ok content) = persist_and_send s t.answering id "assistant" content
    answer_run t id (s, err e) =
        persist_and_send s t.answering id "system" (text_append "Error: " (setup.text e))

    -- The option replaces the whole of the engine's context.
    unfoldable pub execute_simple_task :
        State → Times → String → Context → String → State × Option Err
    unfolding persist_and_send offered
    execute_simple_task s t id c goal =
        answer_run t id (parts.run goal (offered parts goal) (λ (fresh : Context). c) s)

    -- `none` is a schedule that ran out of fuel.
    abbrev pub answer_tasks :
        State → Times → String → Option (Result (List SubTaskResult)) → Option (State × Option Err)
    answer_tasks s t id none = none
    answer_tasks s t id (some (err e)) = some (s, some (wrapped "DAG execution failed: %w" [] e))
    answer_tasks s t id (some (ok rs)) =
        some (persist_and_send s t.answering id "assistant" (results_text setup.text rs))

    -- The note's error is dropped.
    abbrev pub note_decomposition : State → Times → String → ℕ → State
    note_decomposition s t id n = record s {
      files =
          (append_interaction setup.json setup.max_bytes s.files t.noting id "system"
            (text_append "Task decomposed into " (text_append (parts.decimal n) " sub-tasks."))).0;
    }

    abbrev pub run_tasks :
        State
        → Times
        → String
        → Context
        → List Descriptor
        → List (Option SubTask)
        → Option (State × Option Err)
    run_tasks s t id c tools tasks =
        let noted = note_decomposition s t id (length tasks) in
        let r = execute_dag parts.sorted (parts.tasks tools c noted) parts.retry_max tasks in
        answer_tasks (parts.after_tasks tools c noted tasks) t id r

    abbrev pub with_tasks :
        State
        → Times
        → String
        → Context
        → List Descriptor
        → Result (List (Option SubTask))
        → Option (State × Option Err)
    with_tasks s t id c tools (err e) = some (s, some e)
    with_tasks s t id c tools (ok tasks) =
        run_tasks s t id c tools (truncate parts.max_sub_tasks tasks)

    unfoldable pub execute_complex_task :
        State → Times → String → Context → String → Option (State × Option Err)
    unfolding persist_and_send append_interaction execute_dag truncate results_text offered
    execute_complex_task s t id c goal =
        with_tasks s t id c (offered parts goal) (parts.decompose goal s)

    unfoldable pub request_context : State → Times → String → String → Context
    unfolding get_context apply_skill_context
    request_context s t id goal =
        apply_skill_context parts.texts parts.skills
          (get_context setup.json parts.memory parts.history_limit s.files t.loading id) goal

    unfoldable pub handle_request : State → Times → String → String → Option (State × Option Err)
    unfolding execute_simple_task execute_complex_task request_context
    handle_request s t id goal =
        let c = request_context s t id goal in
        if parts.should_decompose goal
        then execute_complex_task s t id c goal
        else some (execute_simple_task s t id c goal)

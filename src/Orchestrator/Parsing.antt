-- ===== src/Orchestrator/Parsing.antt =====
-- internal/orchestrator/task/manager.go: how the answer of the language model becomes subtasks.
-- encoding/json is a parameter.
pub mod Lines
pub mod Brackets
pub mod Usable
pub mod Scheduled
use Prim.Native.String.{◌++◌ as text_append, len}
use heike.Prelude.{
  ℕ, suc, ◌<◌, String, Bool, true, false, not, ◌&&◌, Option, none, some, List, [], ◌∷◌, ◌==◌, ltb,
  if◌then◌else◌, length, trim_space,
}
use heike.Errors.{Err, Result, ok, err, wrapped}
use heike.Orchestrator.Batches.{SubTask}
use heike.Orchestrator.Normalizing.{normalize_sub_tasks, default_sub_tasks}
use heike.Orchestrator.Parsing.Brackets.{extract_first_balanced_json}
use heike.Orchestrator.Parsing.Lines.{
  clean_model_json_block, split_text, normalize_task_line, looks_like_control_token,
}

-- subTaskPayload
pub record Payload : Type 0 where
  pub sub_tasks_snake : List SubTask
  pub sub_tasks : List SubTask
  pub tasks : List SubTask
  pub items : List SubTask
  pub steps : List SubTask
  pub plan : List SubTask

-- The libraries: json.Unmarshal of an array and of an object, `none` on an error, the text of
-- "task-%d", unicode's classes and strings.Fields.
pub record Reader : Type 0 where
  pub array : String → Option (List SubTask)
  pub object : String → Option Payload
  pub task_id : ℕ → String
  pub is_upper : ℕ → Bool
  pub is_number : ℕ → Bool
  pub words : String → List String

pub data Mode : Type 0 where
  json_array json_object extracted line_split goal_default : Mode

abbrev pub unless_empty : List SubTask → Option (List SubTask)
unless_empty [] = none
unless_empty (t ∷ ts) = some (t ∷ ts)

abbrev pub or_next : Option (List SubTask) → Option (List SubTask) → Option (List SubTask)
or_next none next = next
or_next (some ts) next = some ts

-- The bytes of the brackets.
abbrev pub open_array : ℕ
open_array = 91

abbrev pub close_array : ℕ
close_array = 93

abbrev pub open_object : ℕ
open_object = 123

abbrev pub close_object : ℕ
close_object = 125

module _ (r : Reader) where
  open r use {task_id}

  abbrev pub normalized : Option (List SubTask) → Option (List SubTask)
  normalized none = none
  normalized (some ts) = unless_empty (normalize_sub_tasks task_id ts)

  unfoldable pub parse_sub_task_array_json : String → Option (List SubTask)
  unfolding normalize_sub_tasks trim_space
  parse_sub_task_array_json raw = if trim_space raw == "" then none else normalized (r.array raw)

  -- The first of the candidates that has a task.
  abbrev pub first_candidate : List (List SubTask) → Option (List SubTask)
  first_candidate [] = none
  first_candidate (ts ∷ rest) =
      or_next (unless_empty (normalize_sub_tasks task_id ts)) (first_candidate rest)

  abbrev pub candidate : Option Payload → Option (List SubTask)
  candidate none = none
  candidate (some p) =
      first_candidate (p.sub_tasks_snake ∷ p.sub_tasks ∷ p.tasks ∷ p.items ∷ p.steps ∷ p.plan ∷ [])

  unfoldable pub parse_sub_task_object_json : String → Option (List SubTask)
  unfolding normalize_sub_tasks trim_space
  parse_sub_task_object_json raw = if trim_space raw == "" then none else candidate (r.object raw)

  abbrev pub line_task : ℕ → String → SubTask
  line_task n description = record {
    id = task_id n;
    description = description;
    priority = n;
    dependencies = [];
  }

  -- The loop, with the number of tasks that are out.
  unfoldable pub tasks_from_lines : ℕ → List String → List SubTask
  unfolding normalize_task_line
  tasks_from_lines n [] = []
  tasks_from_lines n (line ∷ lines) = elim (normalize_task_line line == "") [
    | true ↦ tasks_from_lines n lines
    | false ↦ line_task (suc n) (normalize_task_line line) ∷ tasks_from_lines (suc n) lines
  ]

  unfoldable pub parse_sub_task_lines : String → List SubTask
  unfolding tasks_from_lines split_text
  parse_sub_task_lines raw = tasks_from_lines 0 (split_text raw)

  -- A part that was found is read; there may be none.
  abbrev pub parse_part : (String → Option (List SubTask)) → String → Option (List SubTask)
  parse_part read part = if part == "" then none else read part

  abbrev pub is_control : List SubTask → Bool
  is_control [] = false
  is_control (t ∷ []) = looks_like_control_token r.is_upper r.is_number len t.description
  is_control (t ∷ u ∷ ts) = false

  abbrev pub or_default : String → List SubTask → List SubTask × Mode
  or_default goal [] = (default_sub_tasks goal, goal_default)
  or_default goal (t ∷ ts) =
      if is_control (t ∷ ts) then (default_sub_tasks goal, goal_default) else (t ∷ ts, line_split)

  abbrev pub or_mode : Option (List SubTask) → Mode → List SubTask × Mode → List SubTask × Mode
  or_mode none mode rest = rest
  or_mode (some ts) mode rest = (ts, mode)

  unfoldable pub parse_decomposition_response : String → String → List SubTask × Mode
  unfolding clean_model_json_block parse_sub_task_array_json parse_sub_task_object_json
      extract_first_balanced_json parse_sub_task_lines default_sub_tasks looks_like_control_token
  parse_decomposition_response raw goal =
      let text = clean_model_json_block raw in
      let in_array =
        parse_part parse_sub_task_array_json
          (extract_first_balanced_json open_array close_array text) in
      let in_object =
        parse_part parse_sub_task_object_json
          (extract_first_balanced_json open_object close_object text) in
      or_mode (parse_sub_task_array_json text) json_array (
        or_mode (parse_sub_task_object_json text) json_object (
          or_mode in_array extracted
            (or_mode in_object extracted (or_default goal (parse_sub_task_lines text)))))

  unfoldable pub should_decompose : ℕ → String → Bool
  should_decompose threshold task = ltb threshold (length (r.words task))

  abbrev pub prompt : String → String → String → String
  prompt system requirements task = text_append "\n" (
      text_append system (
        text_append "\nGOAL: "
          (text_append task (text_append "\n\n" (text_append requirements "\n")))))

  abbrev pub answered_tasks : String → Result String → Result (List SubTask)
  answered_tasks task (err e) = err (wrapped "decomposition failed: %w" [] e)
  answered_tasks task (ok response) =
      ok (parse_decomposition_response (clean_model_json_block response) task).0

  -- `complete` is the language model.
  unfoldable pub decompose :
      String → String → (String → Result String) → String → Result (List SubTask)
  unfolding parse_decomposition_response
  decompose system requirements complete task =
      answered_tasks task (complete (prompt system requirements task))

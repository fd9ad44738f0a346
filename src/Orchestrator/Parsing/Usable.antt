-- ===== src/Orchestrator/Parsing/Usable.antt =====
-- What a decomposition always is.
use heike.Prelude.{
  ℕ, suc, ◌<◌, String, ◌≢◌, refl, inl, inr, Bool, true, false, Option, none, some, List, [], ◌∷◌,
  arith, ◌==◌, if◌then◌else◌, length, Bool-cases, All, differ, trim_space,
}
use heike.Orchestrator.Batches.{SubTask}
use heike.Orchestrator.Normalizing.{normalize_sub_tasks, described, default_sub_tasks}
use heike.Orchestrator.Decomposition.{IsClean, normalize_from-IsClean}
use heike.Orchestrator.Parsing.Brackets.{extract_first_balanced_json}
use heike.Orchestrator.Parsing.Lines.{clean_model_json_block, split_text, normalize_task_line}
use heike.Orchestrator.Parsing.{
  open_array, close_array, open_object, close_object, json_array, json_object, extracted, Reader,
  Payload, Mode, unless_empty, or_next, normalized, first_candidate, candidate, tasks_from_lines,
  is_control, or_default, or_mode, parse_part, parse_sub_task_array_json,
  parse_sub_task_object_json, parse_sub_task_lines, parse_decomposition_response,
}

-- At least one task, each with an id and a description, and dependencies on others only.
pub record IsUsable (ts : List SubTask) : Type 0 where
  pub some_left : 0 < length ts
  pub clean : All IsClean ts

abbrev IsUsableOption : Option (List SubTask) → Type 0
IsUsableOption none = Unit {0}
IsUsableOption (some ts) = IsUsable ts

module _ (r : Reader) (named : (n : ℕ) → r.task_id n ≢ "") where
  unless_empty-IsUsable : (ts : List SubTask) → All IsClean ts → IsUsableOption (unless_empty ts)
  unless_empty-IsUsable [] a = tt
  unless_empty-IsUsable (t ∷ ts) a = record { some_left = omega arith; clean = a }

  normalized-IsUsable : (ts : Option (List SubTask)) → IsUsableOption (normalized r ts)
  normalized-IsUsable none = tt
  normalized-IsUsable (some ts) =
      unless_empty-IsUsable (normalize_sub_tasks r.task_id ts)
        (unfold normalize_sub_tasks in normalize_from-IsClean r.task_id named 0 [] ts)

  if-IsUsable :
      (b : Bool) (x y : Option (List SubTask))
      → IsUsableOption x
      → IsUsableOption y
      → IsUsableOption (if b then x else y)
  if-IsUsable true x y u v = u
  if-IsUsable false x y u v = v

  array-IsUsable : (raw : String) → IsUsableOption (parse_sub_task_array_json r raw)
  unfolding parse_sub_task_array_json
  array-IsUsable raw =
      if-IsUsable (trim_space raw == "") none (normalized r (r.array raw)) tt
        (normalized-IsUsable (r.array raw))

  first_candidate-IsUsable :
      (lists : List (List SubTask)) → IsUsableOption (first_candidate r lists)
  first_candidate-IsUsable [] = tt
  first_candidate-IsUsable (ts ∷ rest) =
      either (unless_empty (normalize_sub_tasks r.task_id ts)) (first_candidate r rest)
        (normalized-IsUsable (some ts)) (first_candidate-IsUsable rest)
    where
      either :
          (found later : Option (List SubTask))
          → IsUsableOption found
          → IsUsableOption later
          → IsUsableOption (or_next found later)
      either none later u v = v
      either (some us) later u v = u

  candidate-IsUsable : (p : Option Payload) → IsUsableOption (candidate r p)
  candidate-IsUsable none = tt
  candidate-IsUsable (some p) =
      first_candidate-IsUsable
        (p.sub_tasks_snake ∷ p.sub_tasks ∷ p.tasks ∷ p.items ∷ p.steps ∷ p.plan ∷ [])

  object-IsUsable : (raw : String) → IsUsableOption (parse_sub_task_object_json r raw)
  unfolding parse_sub_task_object_json
  object-IsUsable raw =
      if-IsUsable (trim_space raw == "") none (candidate r (r.object raw)) tt
        (candidate-IsUsable (r.object raw))

  lines-IsClean : (n : ℕ) (lines : List String) → All IsClean (tasks_from_lines r n lines)
  unfolding tasks_from_lines
  lines-IsClean n [] = tt
  lines-IsClean n (line ∷ lines) = elim (Bool-cases (normalize_task_line line == "")) [
    | inl blank ↦ rw (blank, tasks_from_lines) (lines-IsClean n lines)
    | inr set ↦
        rw (set, tasks_from_lines)
          (
            record {
              named = named (suc n);
              described = differ (normalize_task_line line) "" set;
              proper = tt;
              once = tt;
            },
            lines-IsClean (suc n) lines,
          )
  ]

  described-set : (goal : String) → described goal ≢ ""
  described-set goal = elim (Bool-cases (goal == "")) [
    | inl unset ↦ rw unset (differ "Execute the user goal safely." "" refl)
    | inr set ↦ rw set (differ goal "" set)
  ]

  default-IsUsable : (goal : String) → IsUsable (default_sub_tasks goal)
  unfolding default_sub_tasks
  default-IsUsable goal = record {
    some_left = omega arith;
    clean = (
      record {
        named = differ "task-1" "" refl;
        described = described-set (trim_space goal);
        proper = tt;
        once = tt;
      },
      tt,
    );
  }

  or_default-IsUsable :
      (goal : String) (ts : List SubTask) → All IsClean ts → IsUsable (or_default r goal ts).0
  or_default-IsUsable goal [] a = default-IsUsable goal
  or_default-IsUsable goal (t ∷ ts) a = elim (Bool-cases (is_control r (t ∷ ts))) [
    | inl control ↦ rw control (default-IsUsable goal)
    | inr work ↦ rw work (record { some_left = omega arith; clean = a })
  ]

  or_mode-IsUsable :
      (found : Option (List SubTask)) (mode : Mode) (rest : List SubTask × Mode)
      → IsUsableOption found
      → IsUsable rest.0
      → IsUsable (or_mode r found mode rest).0
  or_mode-IsUsable none mode rest u v = v
  or_mode-IsUsable (some ts) mode rest u v = u

  -- Whatever the language model answers, its decomposition holds at least one subtask, and each has
  -- an id and a description and depends on others only, on each once; if the text of "task-%d" is
  -- never empty.
  pub parse_decomposition_response-IsUsable :
      (raw goal : String) → IsUsable (parse_decomposition_response r raw goal).0
  unfolding parse_decomposition_response parse_sub_task_lines
  parse_decomposition_response-IsUsable raw goal =
      let text = clean_model_json_block raw in
      let first = extract_first_balanced_json open_array close_array text in
      let second = extract_first_balanced_json open_object close_object text in
      or_mode-IsUsable (parse_sub_task_array_json r text) json_array _ (array-IsUsable text) (
        or_mode-IsUsable (parse_sub_task_object_json r text) json_object _ (object-IsUsable text) (
          or_mode-IsUsable (parse_part r (parse_sub_task_array_json r) first) extracted _
            (if-IsUsable (first == "") none (parse_sub_task_array_json r first) tt
              (array-IsUsable first))
            (or_mode-IsUsable (parse_part r (parse_sub_task_object_json r) second) extracted _
              (if-IsUsable (second == "") none (parse_sub_task_object_json r second) tt
                (object-IsUsable second))
              (or_default-IsUsable goal (parse_sub_task_lines r text)
                (lines-IsClean 0 (split_text text))))))

-- ===== src/Examples/Readings.antt =====
-- The answers of a language model that are read as subtasks.
use heike.Prelude.{
  ℕ, zero, suc, ◌+◌, String, ◌≡◌, ◌≢◌, refl, ap, true, false, none, some, List, [], ◌∷◌, map, arith,
  is_space, trim_space,
}
use heike.Errors.{ok}
use heike.Orchestrator.Batches.{SubTask, resolve_execution_batches}
use heike.Orchestrator.Schedule.{IsSchedule}
use heike.Orchestrator.Parsing.Brackets.{first_balanced}
use heike.Orchestrator.Parsing.Brackets.Completeness.{IsComplete, first_balanced-IsComplete}
use heike.Orchestrator.Parsing.Lines.{size, normalize_task_line}
use heike.Orchestrator.Parsing.{Reader, line_split, line_task, parse_decomposition_response}
use heike.Orchestrator.Parsing.Usable.{IsUsable, parse_decomposition_response-IsUsable}
use heike.Orchestrator.Parsing.Scheduled.{is_plain, parse_decomposition_response-scheduled}
use heike.Examples.Subtasks.{as_is, as_is-IsSorting}

-- Names of different lengths.
task_id : ℕ → String
task_id zero = "task-"
task_id (suc n) = String.◌∷◌ "x" (task_id n)

size-task_id : (n : ℕ) → size (task_id n) ≡ n + 5
unfolding task_id
size-task_id zero = refl
size-task_id (suc n) = omega (arith, size-task_id n)

task_id-named : (n : ℕ) → task_id n ≢ ""
task_id-named n e = absurd (omega (arith, size-task_id n, ap size e))

task_id_inj : (n m : ℕ) → task_id n ≡ task_id m → n ≡ m
task_id_inj n m e = omega (arith, size-task_id n, size-task_id m, ap size e)

abbrev reader : Reader
reader = record {
  array = λ s. none;
  object = λ s. none;
  task_id = task_id;
  is_upper = λ c. false;
  is_number = λ c. false;
  words = λ s. [];
}

item : normalize_task_line "  - > 12) Read the file " ≡ "Read the file"
unfolding normalize_task_line is_space
item = refl

dates_kept : normalize_task_line "2024 is a year" ≡ "2024 is a year"
unfolding normalize_task_line is_space
dates_kept = refl

nested : first_balanced 91 93 "so: [1, \"]\", [2]] and [3]" ≡ some "[1, \"]\", [2]]"
unfolding first_balanced
nested = refl

first_balanced-IsComplete_example : IsComplete 91 93 "so: [1, \"]\", [2]] and [3]" "[1, \"]\", [2]]"
first_balanced-IsComplete_example =
    first_balanced-IsComplete 91 93 "so: [1, \"]\", [2]] and [3]" "[1, \"]\", [2]]" nested

abbrev response : String
response = "1. Read the file\n\n2. Sum it up"

two_lines :
    parse_decomposition_response reader response ""
    ≡ (line_task reader 1 "Read the file" ∷ line_task reader 2 "Sum it up" ∷ [], line_split)
unfolding parse_decomposition_response is_space trim_space
two_lines = refl

parse_decomposition_response-IsUsable_example :
    IsUsable (parse_decomposition_response reader response "").0
parse_decomposition_response-IsUsable_example =
    parse_decomposition_response-IsUsable reader task_id-named response ""

no_json : is_plain (parse_decomposition_response reader response "").1 ≡ true
unfolding parse_decomposition_response is_space trim_space
no_json = refl

parse_decomposition_response-scheduled_example :
    (bs : List (List SubTask)) × (resolve_execution_batches as_is
        (map some (parse_decomposition_response reader response "").0)
      ≡ some (ok bs))
    × IsSchedule (parse_decomposition_response reader response "").0 bs
parse_decomposition_response-scheduled_example =
    parse_decomposition_response-scheduled reader task_id-named task_id_inj as_is response ""
      as_is-IsSorting no_json

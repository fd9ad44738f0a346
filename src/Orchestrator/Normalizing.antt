-- ===== src/Orchestrator/Normalizing.antt =====
-- internal/orchestrator/task/manager.go: `normalizeSubTasks` and `defaultSubTasks`. `task_id` is the
-- text of "task-%d". A priority below 0 is as 0.
use heike.Prelude.{
  ℕ, suc, String, true, false, ◌||◌, List, [], ◌∷◌, ◌==◌, eqb, if◌then◌else◌, mem, trim_space,
}
use heike.Orchestrator.Batches.{SubTask}

-- The loop over the dependencies of the task `id`.
unfoldable pub clean_dependencies : String → List String → List String → List String
unfolding mem trim_space
clean_dependencies id seen [] = []
clean_dependencies id seen (d ∷ ds) =
    let dep = trim_space d in
    let skipped = clean_dependencies id seen ds in
    let taken = clean_dependencies id (dep ∷ seen) ds in
    if dep == "" || dep == id || mem dep seen then skipped else dep ∷ taken

-- The id that is given, unless it is missing.
abbrev pub given_id : String → String → String
given_id fallback id = if id == "" || id == "<nil>" then fallback else id

-- An id that was used gives way to the fallback, used or not.
abbrev pub choose_id : String → List String → String → String
choose_id fallback used id =
    if mem (given_id fallback id) used then fallback else given_id fallback id

abbrev pub normalize_task : (ℕ → String) → ℕ → List String → SubTask → SubTask
normalize_task task_id n used t = record {
  id = choose_id (task_id (suc n)) used (trim_space t.id);
  description = trim_space t.description;
  priority = if eqb t.priority 0 then suc n else t.priority;
  dependencies =
      clean_dependencies (choose_id (task_id (suc n)) used (trim_space t.id)) [] t.dependencies;
}

-- The loop, with the number of tasks that are out and their ids.
unfoldable pub normalize_from : (ℕ → String) → ℕ → List String → List SubTask → List SubTask
unfolding mem trim_space clean_dependencies
normalize_from task_id n used [] = []
normalize_from task_id n used (t ∷ ts) = elim (trim_space t.description == "") [
  | true ↦ normalize_from task_id n used ts
  | false ↦
      normalize_task task_id n used t
      ∷ normalize_from task_id (suc n) ((normalize_task task_id n used t).id ∷ used) ts
]

unfoldable pub normalize_sub_tasks : (ℕ → String) → List SubTask → List SubTask
unfolding normalize_from
normalize_sub_tasks task_id ts = normalize_from task_id 0 [] ts

abbrev pub described : String → String
described goal = if goal == "" then "Execute the user goal safely." else goal

unfoldable pub default_sub_tasks : String → List SubTask
unfolding trim_space
default_sub_tasks goal =
    record {
      id = "task-1";
      description = described (trim_space goal);
      priority = 1;
      dependencies = [];
    }
    ∷ []

-- ===== src/Examples/Subtasks.antt =====
-- The coordinator on three subtasks, one of which needs the other two.
use heike.Prelude.{
  ◌≢◌, All, trim_space, ℕ, ◌≡◌, ◌⊎◌, ◌≤◌, refl, true, none, some, List, [], ◌∷◌, String, differ,
  mem, lookup, map, zero, suc, IsDistinct,
}
use heike.Errors.{plain, Result, ok, err, sentinel, transient}
use heike.Orchestrator.Batches.{SubTask, circular, resolve_execution_batches}
use heike.Orchestrator.Linking.{ids}
use heike.Orchestrator.Rounds.{IsSorting}
use heike.Orchestrator.Schedule.{IsSchedule}
use heike.Orchestrator.Verdict.{resolved-IsSchedule}
use heike.Orchestrator.Acceptance.{IsValid, resolve_execution_batches-decides}
use heike.Orchestrator.Normalizing.{normalize_sub_tasks}
use heike.Orchestrator.Decomposition.{IsFresh, Known, given_ids, normalize_sub_tasks-decides}
use heike.Orchestrator.Dag.{SubTaskResult, Env, dependency_outputs, execute_task, execute_dag}
use heike.Orchestrator.Execution.{IsLastAnswer, all_succeeded, execute_task-IsLastAnswer}
use heike.Orchestrator.Results.{IsExecution, execute_dag-IsExecution}

abbrev pub task : String → List String → SubTask
task id deps = record { id = id; description = "work"; priority = 1; dependencies = deps }

abbrev pub merge : SubTask
merge = task "merge" ("fetch" ∷ "read" ∷ [])

abbrev pub tasks : List SubTask
tasks = merge ∷ task "fetch" [] ∷ task "read" [] ∷ []

abbrev batches : List (List SubTask)
batches = (task "fetch" [] ∷ task "read" [] ∷ []) ∷ (merge ∷ []) ∷ []

abbrev pub as_is : List String → List String
as_is names = names

pub as_is-IsSorting : IsSorting as_is
as_is-IsSorting = record { same = λ x l. refl; distinct = λ l d. d }

resolved : resolve_execution_batches as_is (map some tasks) ≡ some (ok batches)
unfolding resolve_execution_batches
resolved = refl

resolved-IsSchedule_example :
    (ss : List SubTask) × (map some tasks ≡ map some ss)
    × IsDistinct (ids ss)
    × IsSchedule ss batches
resolved-IsSchedule_example =
    resolved-IsSchedule as_is (map some tasks) batches as_is-IsSorting resolved

-- Two subtasks that wait for each other.
abbrev knot : List SubTask
knot = task "a" ("b" ∷ []) ∷ task "b" ("a" ∷ []) ∷ []

knot-circular : resolve_execution_batches as_is (map some knot) ≡ some (err circular)
unfolding resolve_execution_batches
knot-circular = refl

tasks-IsValid : IsValid tasks
unfolding mem
tasks-IsValid = record {
  distinct = (refl, (refl, (refl, tt)));
  named = (differ "merge" "" refl, (differ "fetch" "" refl, (differ "read" "" refl, tt)));
  known = (
    ((refl, differ "fetch" "merge" refl), ((refl, differ "read" "merge" refl), tt)),
    (tt, (tt, tt)),
  );
}

resolve_execution_batches-decides_example :
    ((bs : List (List SubTask)) × (resolve_execution_batches as_is (map some tasks) ≡ some (ok bs))
      × IsSchedule tasks bs)
    ⊎ ((resolve_execution_batches as_is (map some tasks) ≡ some (err circular))
        × ((bs : List (List SubTask)) → ¬ IsSchedule tasks bs))
resolve_execution_batches-decides_example =
    resolve_execution_batches-decides as_is tasks as_is-IsSorting tasks-IsValid

abbrev run_once : SubTask → List (String × String) → ℕ → Result String
run_once t outs zero = err (sentinel transient)
run_once t outs (suc n) = ok "done"

-- Each engine fails on its first attempt.
abbrev pub env : Env
env = record {
  run = run_once;
  done_before_slot = λ id. none;
  done_before_attempt = λ id n. none;
  done_in_backoff = λ id n. none;
  done_before_batch = λ n. none;
  done_after_batch = λ n. none;
}

abbrev answer : String → SubTaskResult
answer id = record { id = id; success = true; output = "done"; error = none }

abbrev known : List (String × SubTaskResult)
known = ("fetch", answer "fetch") ∷ ("read", answer "read") ∷ []

second_attempt : execute_task env 3 merge known ≡ (answer "merge", 2)
unfolding execute_task
second_attempt = refl

succeeds : (execute_task env 3 merge known).0.success ≡ true
unfolding execute_task
succeeds = refl

execute_task-IsLastAnswer_example :
    (all_succeeded (λ d. lookup d known) merge.dependencies ≡ true)
    × ((execute_task env 3 merge known).1 ≤ 3)
    × IsLastAnswer env merge
        (dependency_outputs known merge.dependencies)
        0
        (execute_task env 3 merge known).0
        (execute_task env 3 merge known).1
execute_task-IsLastAnswer_example = execute_task-IsLastAnswer env 3 merge known succeeds

executed :
    execute_dag as_is env 3 (map some tasks)
    ≡ some (ok (answer "fetch" ∷ answer "read" ∷ answer "merge" ∷ []))
unfolding execute_dag
executed = refl

execute_dag-IsExecution_example :
    IsExecution (map some tasks) (answer "fetch" ∷ answer "read" ∷ answer "merge" ∷ [])
execute_dag-IsExecution_example =
    execute_dag-IsExecution as_is env 3 (map some tasks)
      (answer "fetch" ∷ answer "read" ∷ answer "merge" ∷ []) as_is-IsSorting executed

-- The first ids of "task-%d".
abbrev task_id : ℕ → String
task_id zero = "task-0"
task_id (suc zero) = "task-1"
task_id (suc (suc n)) = "task-2"

task_id-named : (n : ℕ) → task_id n ≢ ""
task_id-named zero = differ "task-0" "" refl
task_id-named (suc zero) = differ "task-1" "" refl
task_id-named (suc (suc n)) = differ "task-2" "" refl

-- The second of two tasks with the id task-2 is given the same id again, and both are refused.
abbrev twice : List SubTask
twice = task "task-2" [] ∷ task "task-2" [] ∷ []

twice-refused :
    resolve_execution_batches as_is (map some (normalize_sub_tasks task_id twice))
    ≡ some (err (plain "duplicate sub-task id: %s" ("task-2" ∷ [])))
unfolding resolve_execution_batches normalize_sub_tasks
twice-refused = refl

ids-IsFresh : All (IsFresh []) (given_ids tasks)
unfolding mem trim_space
ids-IsFresh = (
  (differ "merge" "" refl, differ "merge" "<nil>" refl, refl),
  (
    (differ "fetch" "" refl, differ "fetch" "<nil>" refl, refl),
    ((differ "read" "" refl, differ "read" "<nil>" refl, refl), tt),
  ),
)

ids-IsDistinct : IsDistinct (given_ids tasks)
unfolding mem trim_space
ids-IsDistinct = (refl, (refl, (refl, tt)))

ids-Known : Known (normalize_sub_tasks task_id tasks)
unfolding mem normalize_sub_tasks
ids-Known = ((refl, (refl, tt)), (tt, (tt, tt)))

normalize_sub_tasks-decides_example :
    ((bs : List (List SubTask)) × (resolve_execution_batches as_is
          (map some (normalize_sub_tasks task_id tasks))
        ≡ some (ok bs))
      × IsSchedule (normalize_sub_tasks task_id tasks) bs)
    ⊎ ((resolve_execution_batches as_is (map some (normalize_sub_tasks task_id tasks))
          ≡ some (err circular))
        × ((bs : List (List SubTask)) → ¬ IsSchedule (normalize_sub_tasks task_id tasks) bs))
normalize_sub_tasks-decides_example =
    normalize_sub_tasks-decides task_id as_is tasks task_id-named as_is-IsSorting ids-IsFresh
      ids-IsDistinct ids-Known

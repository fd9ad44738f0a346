-- ===== src/Orchestrator/Batches.antt =====
-- internal/orchestrator/task/coordinator.go: `resolveExecutionBatches`. A nil subtask is `none`, and
-- `sorted` is sort.Strings. A degree is a natural number: one that Go would take below 0 is never 0
-- again there, and here it stays at 0 and frees nothing.
use heike.Prelude.{
  ℕ, zero, suc, ◌+◌, ◌-◌, String, Bool, true, false, Option, none, some, List, [], ◌∷◌, ◌++◌, ◌==◌,
  eqb, if◌then◌else◌, Dict, lookup, insert, length, mem,
}
use heike.Errors.{Err, Result, ok, err, plain}

pub record SubTask : Type 0 where
  pub id : String
  pub description : String
  pub priority : ℕ
  pub dependencies : List String

-- taskByID, inDegree and dependents
pub record Tables : Type 0 where
  pub task_by_id : Dict SubTask
  pub in_degree : Dict ℕ
  pub dependents : Dict (List String)

abbrev pub is_some {ℓ} : {A : Type ℓ} → Option A → Bool
is_some none = false
is_some (some x) = true

abbrev pub degree_of : Option ℕ → ℕ
degree_of none = 0
degree_of (some n) = n

abbrev pub names_of : Option (List String) → List String
names_of none = []
names_of (some l) = l

abbrev pub empty_tables : Tables
empty_tables = record { task_by_id = []; in_degree = []; dependents = [] }

abbrev pub add_task : Tables → SubTask → Tables
add_task t s = record t {
  task_by_id = insert s.id s t.task_by_id;
  in_degree = insert s.id 0 t.in_degree;
}

-- The first loop.
unfoldable pub register_tasks : Tables → List (Option SubTask) → Result Tables
unfolding lookup insert
register_tasks t [] = ok t
register_tasks t (none ∷ rest) = err (plain "nil sub-task" [])
register_tasks t (some s ∷ rest) =
    let later = register_tasks (add_task t s) rest in
    if s.id == ""
    then err (plain "sub-task with empty id" [])
    else if is_some (lookup s.id t.task_by_id)
    then err (plain "duplicate sub-task id: %s" (s.id ∷ []))
    else later

abbrev pub add_edge : Tables → String → String → Tables
add_edge t id dep = record t {
  in_degree = insert id (degree_of (lookup id t.in_degree) + 1) t.in_degree;
  dependents = insert dep (names_of (lookup dep t.dependents) ++ id ∷ []) t.dependents;
}

-- The loop over one task's dependencies.
unfoldable pub add_edges : Tables → String → List String → Result Tables
unfolding lookup insert
add_edges t id [] = ok t
add_edges t id (dep ∷ deps) =
    let later = add_edges (add_edge t id dep) id deps in
    if is_some (lookup dep t.task_by_id)
    then (if dep == id then err (plain "sub-task %s cannot depend on itself" (id ∷ [])) else later)
    else err (plain "sub-task %s depends on unknown task %s" (id ∷ dep ∷ []))

-- What an error of the first step does to the loop's rest.
abbrev pub and_then {ℓ} : {A : Type ℓ} {B : Type ℓ} → Result A → (A → Result B) → Result B
and_then (ok a) k = k a
and_then (err e) k = err e

-- The second loop. A nil subtask was refused by the first.
unfoldable pub link_tasks : Tables → List (Option SubTask) → Result Tables
unfolding add_edges
link_tasks t [] = ok t
link_tasks t (none ∷ rest) = link_tasks t rest
link_tasks t (some s ∷ rest) = and_then (add_edges t s.id s.dependencies) (λ t'. link_tasks t' rest)

-- The names with no open dependency.
unfoldable pub free : Dict ℕ → List String
free [] = []
free ((id, n) ∷ m) = let rest = free m in if eqb n 0 then id ∷ rest else rest

abbrev pub add_name : List String → String → List String
add_name names id = if mem id names then names else names ++ id ∷ []

-- inDegree[depID]--, and the set of those that come to 0.
abbrev pub release : Dict ℕ × List String → String → Dict ℕ × List String
release (m, next) id = (
  insert id (degree_of (lookup id m) - 1) m,
  if eqb (degree_of (lookup id m)) 1 then add_name next id else next,
)

unfoldable pub release_each : Dict ℕ × List String → List String → Dict ℕ × List String
unfolding lookup insert mem
release_each r [] = r
release_each r (id ∷ ids) = release_each (release r id) ids

-- The loop over the ids of a batch.
unfoldable pub release_all :
    Dict (List String) → Dict ℕ × List String → List String → Dict ℕ × List String
unfolding lookup release_each
release_all dependents r [] = r
release_all dependents r (id ∷ ids) =
    release_all dependents (release_each r (names_of (lookup id dependents))) ids

-- The tasks of a batch; every id is that of a task.
unfoldable pub tasks_of : Dict SubTask → List String → List SubTask
unfolding lookup
tasks_of m [] = []
tasks_of m (id ∷ ids) = elim (lookup id m) [ none ↦ tasks_of m ids | some s ↦ s ∷ tasks_of m ids ]

-- A batch before those of the later rounds.
abbrev pub add_batch :
    List SubTask → ℕ → Option (List (List SubTask) × ℕ) → Option (List (List SubTask) × ℕ)
add_batch b n none = none
add_batch b n (some (later, processed)) = some (b ∷ later, n + processed)

-- The loop over `ready`, with the number of tasks processed. `none` is out of fuel.
unfoldable pub batches_from :
    (List String → List String)
    → Dict SubTask
    → Dict (List String)
    → ℕ
    → Dict ℕ
    → List String
    → Option (List (List SubTask) × ℕ)
unfolding tasks_of release_all
batches_from sorted tasks dependents fuel degrees [] = some ([], 0)
batches_from sorted tasks dependents zero degrees (id ∷ ids) = none
batches_from sorted tasks dependents (suc fuel) degrees (id ∷ ids) =
    let r = release_all dependents (degrees, []) (id ∷ ids) in
    add_batch (tasks_of tasks (id ∷ ids)) (length (id ∷ ids))
      (batches_from sorted tasks dependents fuel r.0 (sorted r.1))

abbrev pub circular : Err
circular = plain "circular dependency detected in sub-tasks" []

-- The test on the number of tasks processed.
abbrev pub checked : ℕ → Option (List (List SubTask) × ℕ) → Option (Result (List (List SubTask)))
checked n none = none
checked n (some (batches, processed)) = some (if eqb processed n then ok batches else err circular)

abbrev pub run_batches :
    (List String → List String) → ℕ → Result Tables → Option (Result (List (List SubTask)))
run_batches sorted n (err e) = some (err e)
run_batches sorted n (ok t) =
    checked n (
      batches_from sorted t.task_by_id t.dependents (suc n) t.in_degree (sorted (free t.in_degree)))

unfoldable pub resolve_execution_batches :
    (List String → List String) → List (Option SubTask) → Option (Result (List (List SubTask)))
unfolding register_tasks link_tasks free batches_from
resolve_execution_batches sorted subs =
    run_batches sorted (length subs)
      (and_then (register_tasks empty_tables subs) (λ t. link_tasks t subs))

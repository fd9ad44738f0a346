-- ===== src/Orchestrator/Dag.antt =====
-- internal/orchestrator/task/coordinator.go: `ExecuteDAG`, `executeBatch` and `executeTask`. The tasks
-- of a batch run at once, but each reads only the results of earlier batches, so that their order
-- makes no difference; the ids of a batch are different, and each result is that of its own task.
use heike.Prelude.{
  ℕ, zero, suc, String, Bool, true, false, Option, none, some, List, [], ◌∷◌, ◌++◌, if◌then◌else◌,
  Dict, lookup, insert,
}
use heike.Errors.{Err, Result, ok, err, plain}
use heike.Orchestrator.Batches.{SubTask, and_then, resolve_execution_batches}

pub record SubTaskResult : Type 0 where
  pub id : String
  pub success : Bool
  pub output : String
  pub error : Option Err

-- The engine's answer to a task with the outputs of its dependencies, by attempt, and the context's
-- error at each place where the code looks for it.
pub record Env : Type 0 where
  pub run : SubTask → List (String × String) → ℕ → Result String
  pub done_before_slot : String → Option Err
  pub done_before_attempt : String → ℕ → Option Err
  pub done_in_backoff : String → ℕ → Option Err
  pub done_before_batch : ℕ → Option Err
  pub done_after_batch : ℕ → Option Err

abbrev pub failure : String → Option Err → SubTaskResult
failure id e = record { id = id; success = false; output = ""; error = e }

abbrev pub completion : String → String → SubTaskResult
completion id out = record { id = id; success = true; output = out; error = none }

-- What the first loop of executeTask finds of one dependency.
abbrev pub dependency_error : String → Option SubTaskResult → Option Err
dependency_error d none = some (plain "dependency %s missing result" (d ∷ []))
dependency_error d (some r) =
    if r.success then none else some (plain "dependency %s failed" (d ∷ []))

unfoldable pub failed_dependency : Dict SubTaskResult → List String → Option Err
unfolding lookup
failed_dependency m [] = none
failed_dependency m (d ∷ ds) =
    let rest = failed_dependency m ds in
    elim (dependency_error d (lookup d m)) [ some e ↦ some e | none ↦ rest ]

-- The scratchpad lines: a dependency and its output.
abbrev pub output_line :
    String → Option SubTaskResult → List (String × String) → List (String × String)
output_line d none rest = rest
output_line d (some r) rest = if r.success then (d, r.output) ∷ rest else rest

unfoldable pub dependency_outputs : Dict SubTaskResult → List String → List (String × String)
unfolding lookup
dependency_outputs m [] = []
dependency_outputs m (d ∷ ds) = output_line d (lookup d m) (dependency_outputs m ds)

-- A failed attempt: the backoff, unless it was the last one.
abbrev pub backed_off : String → ℕ → Option Err → SubTaskResult × ℕ → SubTaskResult × ℕ
backed_off id zero e later = later
backed_off id (suc left) none later = later
backed_off id (suc left) (some e) later = (failure id (some e), 0)

abbrev pub counted : SubTaskResult × ℕ → SubTaskResult × ℕ
counted (r, n) = (r, suc n)

-- One attempt's answer.
abbrev pub answered : String → Result String → (Err → SubTaskResult × ℕ) → SubTaskResult × ℕ
answered id (ok out) later = (completion id out, 0)
answered id (err e) later = later e

-- The loop over the attempts, with the number of runs of the engine.
unfoldable pub attempts_from :
    Env → SubTask → List (String × String) → ℕ → ℕ → Option Err → SubTaskResult × ℕ
attempts_from env t outs zero attempt last = (failure t.id last, 0)
attempts_from env t outs (suc left) attempt last = elim (env.done_before_attempt t.id attempt) [
  | some e ↦ (failure t.id (some e), 0)
  | none ↦ counted (
      answered t.id (env.run t outs attempt) (λ e.
        backed_off t.id left (env.done_in_backoff t.id attempt)
          (attempts_from env t outs left (suc attempt) (some e))))
]

unfoldable pub execute_task : Env → ℕ → SubTask → Dict SubTaskResult → SubTaskResult × ℕ
unfolding failed_dependency dependency_outputs attempts_from
execute_task env retry_max t m = elim (failed_dependency m t.dependencies) [
  | some e ↦ (failure t.id (some e), 0)
  | none ↦ attempts_from env t (dependency_outputs m t.dependencies) retry_max 0 none
]

-- One goroutine of a batch: the wait for a slot, then the task.
unfoldable pub execute_slot : Env → ℕ → SubTask → Dict SubTaskResult → SubTaskResult
unfolding execute_task
execute_slot env retry_max t m = elim (env.done_before_slot t.id) [
  | some e ↦ failure t.id (some e)
  | none ↦ (execute_task env retry_max t m).0
]

unfoldable pub batch_results : Env → ℕ → List SubTask → Dict SubTaskResult → List SubTaskResult
unfolding execute_slot
batch_results env retry_max [] m = []
batch_results env retry_max (t ∷ ts) m =
    execute_slot env retry_max t m ∷ batch_results env retry_max ts m

abbrev pub unless_done : Option Err → List SubTaskResult → Result (List SubTaskResult)
unless_done none rs = ok rs
unless_done (some e) rs = err e

unfoldable pub execute_batch :
    Env → ℕ → ℕ → List SubTask → Dict SubTaskResult → Result (List SubTaskResult)
unfolding batch_results
execute_batch env retry_max n b m =
    unless_done (env.done_after_batch n) (batch_results env retry_max b m)

unfoldable pub record_all : Dict SubTaskResult → List SubTaskResult → Dict SubTaskResult
unfolding insert
record_all m [] = m
record_all m (r ∷ rs) = record_all (insert r.id r m) rs

-- The loop over the batches.
unfoldable pub execute_batches :
    Env → ℕ → ℕ → List (List SubTask) → Dict SubTaskResult → Result (List SubTaskResult)
unfolding execute_batch record_all
execute_batches env retry_max n [] m = ok []
execute_batches env retry_max n (b ∷ bs) m = elim (env.done_before_batch n) [
  | some e ↦ err e
  | none ↦ and_then (execute_batch env retry_max n b m) (λ rs.
      and_then (execute_batches env retry_max (suc n) bs (record_all m rs))
        (λ later. ok (rs ++ later)))
]

-- `none` is a resolution that is out of fuel.
abbrev pub with_batches :
    Env → ℕ → Option (Result (List (List SubTask))) → Option (Result (List SubTaskResult))
with_batches env retry_max none = none
with_batches env retry_max (some (err e)) = some (err e)
with_batches env retry_max (some (ok bs)) = some (execute_batches env retry_max 0 bs [])

unfoldable pub execute_dag :
    (List String → List String)
    → Env
    → ℕ
    → List (Option SubTask)
    → Option (Result (List SubTaskResult))
unfolding resolve_execution_batches execute_batches
execute_dag sorted env retry_max [] = some (ok [])
execute_dag sorted env retry_max (s ∷ ss) =
    with_batches env retry_max (resolve_execution_batches sorted (s ∷ ss))

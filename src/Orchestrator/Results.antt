-- ===== src/Orchestrator/Results.antt =====
-- What `ExecuteDAG` returns: every subtask's result once, and no success without those before it.
use mathlib.Core.Path.{subst}
use heike.Prelude.{
  ℕ, zero, suc, String, ◌≡◌, refl, ap, sym, ◌∙◌, inl, inr, Bool, true, not, ◌&&◌, ◌||◌, Option,
  none, some, List, [], ◌∷◌, ◌++◌, map, arith, ◌==◌, if◌then◌else◌, Dict, lookup, insert,
  lookup-insert, mem, IsDistinct, Bool-cases, Option-cases, All,
}
use heike.Errors.{Err, Result, ok, err}
use heike.Orchestrator.Batches.{SubTask, and_then, resolve_execution_batches}
use heike.Orchestrator.Linking.{ids, deps_of, and_then-eq-ok, find_task, find_task-deps_of}
use heike.Orchestrator.Rounds.{scheduled, IsGiven, IsSorting}
use heike.Orchestrator.Verdict.{resolved-IsSchedule}
use heike.Orchestrator.Dag.{
  SubTaskResult, Env, attempts_from, execute_task, execute_slot, batch_results, execute_batch,
  record_all, execute_batches, with_batches, execute_dag,
}
use heike.Orchestrator.Execution.{success_of, all_succeeded, execute_task-IsLastAnswer}

abbrev pub result_ids : List SubTaskResult → List String
result_ids [] = []
result_ids (r ∷ rs) = r.id ∷ result_ids rs

-- The latest result first.
abbrev pub find_result : List SubTaskResult → String → Option SubTaskResult
find_result [] d = none
find_result (r ∷ rs) d = if r.id == d then some r else find_result rs d

abbrev pub add_results : List SubTaskResult → List SubTaskResult → List SubTaskResult
add_results seen [] = seen
add_results seen (r ∷ rs) = add_results (r ∷ seen) rs

-- A result is a failure, or every dependency of its subtask has a success among those `seen`.
abbrev pub is_supported : List SubTask → List SubTaskResult → SubTaskResult → Bool
is_supported ss seen r = not r.success || all_succeeded (find_result seen) (deps_of ss r.id)

-- The results of each batch are supported by those of the batches before it.
abbrev pub IsSupported : List SubTask → List SubTaskResult → List (List SubTaskResult) → Type 0
IsSupported ss seen [] = Unit
IsSupported ss seen (rs ∷ rss) =
    All (λ (r : SubTaskResult). is_supported ss seen r ≡ true) rs
    × IsSupported ss (add_results seen rs) rss

abbrev pub flat : List (List SubTaskResult) → List SubTaskResult
flat [] = []
flat (rs ∷ rss) = rs ++ flat rss

abbrev Reflects : Dict SubTaskResult → List SubTaskResult → Type 0
Reflects m seen = (d : String) → lookup d m ≡ find_result seen d

Reflects-record_all :
    (m : Dict SubTaskResult) (seen rs : List SubTaskResult)
    → Reflects m seen
    → Reflects (record_all m rs) (add_results seen rs)
unfolding record_all
Reflects-record_all m seen [] h = h
Reflects-record_all m seen (r ∷ rs) h = Reflects-record_all (insert r.id r m) (r ∷ seen) rs (λ d.
    lookup-insert r.id d r m
    ∙ ap (λ (o : Option SubTaskResult). if r.id == d then some r else o) (h d))

all_succeeded-cong :
    (f g : String → Option SubTaskResult) (ds : List String)
    → ((d : String) → f d ≡ g d)
    → all_succeeded f ds ≡ all_succeeded g ds
all_succeeded-cong f g [] h = refl
all_succeeded-cong f g (d ∷ ds) h =
    rw (h d) (ap (λ (b : Bool). success_of (g d) && b) (all_succeeded-cong f g ds h))

attempts_id :
    (env : Env) (t : SubTask) (outs : List (String × String)) (left a : ℕ) (last : Option Err)
    → (attempts_from env t outs left a last).0.id ≡ t.id
unfolding attempts_from
attempts_id env t outs zero a last = refl
attempts_id env t outs (suc left) a last =
    let later = λ (e : Err). attempts_id env t outs left (suc a) (some e) in grind (arith, later)

slot_id :
    (env : Env) (n : ℕ) (t : SubTask) (m : Dict SubTaskResult) → (execute_slot env n t m).id ≡ t.id
unfolding execute_slot execute_task
slot_id env n t m = grind (arith, attempts_id)

slot_supported :
    (env : Env) (n : ℕ) (t : SubTask) (m : Dict SubTaskResult)
    → not (execute_slot env n t m).success || all_succeeded (λ d. lookup d m) t.dependencies ≡ true
unfolding execute_slot
slot_supported env n t m = elim (Bool-cases (execute_task env n t m).0.success) [
  | inl won ↦ ground (arith, (execute_task-IsLastAnswer env n t m won).0)
  | inr lost ↦ ground (arith, lost)
]

result_ids-append :
    (xs ys : List SubTaskResult) → result_ids (xs ++ ys) ≡ result_ids xs ++ result_ids ys
result_ids-append [] ys = refl
result_ids-append (x ∷ xs) ys = ap (λ (l : List String). x.id ∷ l) (result_ids-append xs ys)

module _ (env : Env) (n : ℕ) (ss : List SubTask) (once : IsDistinct (ids ss)) where
  batch_supported :
      (b : List SubTask) (m : Dict SubTaskResult) (seen : List SubTaskResult)
      → Reflects m seen
      → All (λ (s : SubTask). find_task ss s.id ≡ some s) b
      → All (λ (r : SubTaskResult). is_supported ss seen r ≡ true) (batch_results env n b m)
        × (result_ids (batch_results env n b m) ≡ ids b)
  unfolding batch_results
  batch_supported [] m seen h g = (tt, refl)
  batch_supported (t ∷ b) m seen h g =
      let rest = batch_supported b m seen h g.1 in
      let deps = ap (deps_of ss) (slot_id env n t m) ∙ (find_task-deps_of ss t.id t once g.0).1 in
      (
        (
          ap
                (λ (ds : List String).
                  not (execute_slot env n t m).success || all_succeeded (find_result seen) ds)
                deps
              ∙ ap (λ (q : Bool). not (execute_slot env n t m).success || q)
                  (sym (all_succeeded-cong (λ d. lookup d m) (find_result seen) t.dependencies h))
              ∙ slot_supported env n t m,
          rest.0,
        ),
        ap (λ (x : String). x ∷ result_ids (batch_results env n b m)) (slot_id env n t m)
            ∙ ap (λ (l : List String). t.id ∷ l) rest.1,
      )

  -- The results of the batches, batch by batch.
  record IsResults (seen : List SubTaskResult) (bs : List (List SubTask)) (rs : List SubTaskResult)
      : Type 0 where
    grouped : List (List SubTaskResult)
    same : rs ≡ flat grouped
    supported : IsSupported ss seen grouped
    names : result_ids rs ≡ scheduled bs

  execute_batch-ok :
      (k : ℕ) (b : List SubTask) (m : Dict SubTaskResult) (rs : List SubTaskResult)
      → execute_batch env n k b m ≡ ok rs
      → batch_results env n b m ≡ rs
  unfolding execute_batch
  execute_batch-ok k b m rs h = ground (arith, h)

  IsResults-cons :
      (b : List SubTask) (bs : List (List SubTask)) (m : Dict SubTaskResult)
      (seen later : List SubTaskResult)
      → Reflects m seen
      → All (λ (s : SubTask). find_task ss s.id ≡ some s) b
      → IsResults (add_results seen (batch_results env n b m)) bs later
      → IsResults seen (b ∷ bs) (batch_results env n b m ++ later)
  IsResults-cons b bs m seen later h g r =
      let here = batch_supported b m seen h g in
      record {
        grouped = batch_results env n b m ∷ r.grouped;
        same = ap (λ (l : List SubTaskResult). batch_results env n b m ++ l) r.same;
        supported = (here.0, r.supported);
        names =
            result_ids-append (batch_results env n b m) later
            ∙ ap (λ (l : List String). l ++ result_ids later) here.1
            ∙ ap (λ (l : List String). ids b ++ l) r.names;
      }

  results_lem :
      (k : ℕ) (bs : List (List SubTask)) (m : Dict SubTaskResult) (seen rs : List SubTaskResult)
      → Reflects m seen
      → IsGiven ss bs
      → execute_batches env n k bs m ≡ ok rs
      → IsResults seen bs rs
  unfolding execute_batches
  results_lem k [] m seen rs h g e =
      let none_left : [] ≡ rs = ground (arith, e) in
      subst (IsResults seen []) none_left
        (record { grouped = []; same = refl; supported = tt; names = refl })
  results_lem k (b ∷ bs) m seen rs h g e = elim (Option-cases (env.done_before_batch k)) [
    | inr (x, stopped) ↦ ground (arith, e, stopped)
    | inl free ↦
        let one =
          and_then-eq-ok (execute_batch env n k b m)
            (λ q.
              and_then (execute_batches env n (suc k) bs (record_all m q))
                (λ later. ok (q ++ later)))
            rs (rw (free, execute_batches) at e) in
        let two =
          and_then-eq-ok (execute_batches env n (suc k) bs (record_all m one.0))
            (λ later. ok (one.0 ++ later)) rs one.2 in
        let mine : batch_results env n b m ≡ one.0 = execute_batch-ok k b m one.0 one.1 in
        let whole : one.0 ++ two.0 ≡ rs = ground (arith, two.2) in
        let later =
          results_lem (suc k) bs (record_all m one.0) (add_results seen one.0) two.0
            (Reflects-record_all m seen one.0 h) g.1 two.1 in
        subst (IsResults seen (b ∷ bs)) (ap (λ (q : List SubTaskResult). q ++ two.0) mine ∙ whole) (
          IsResults-cons b bs m seen two.0 h g.0 (
            subst (λ (q : List SubTaskResult). IsResults (add_results seen q) bs two.0) (sym mine)
              later))
  ]

with_batches-ok :
    (env : Env) (n : ℕ) (o : Option (Result (List (List SubTask)))) (rs : List SubTaskResult)
    → with_batches env n o ≡ some (ok rs)
    → (bs : List (List SubTask)) × (o ≡ some (ok bs)) × (execute_batches env n 0 bs [] ≡ ok rs)
with_batches-ok env n none rs h = ground (arith, h)
with_batches-ok env n (some (err e)) rs h = ground (arith, h)
with_batches-ok env n (some (ok bs)) rs h = (bs, refl, ground (arith, h))

-- What a run of the subtasks returns.
pub record IsExecution (subs : List (Option SubTask)) (rs : List SubTaskResult) : Type 0 where
  pub tasks : List SubTask
  pub given : subs ≡ map some tasks
  pub distinct : IsDistinct (result_ids rs)
  pub complete : (x : String) → mem x (result_ids rs) ≡ mem x (ids tasks)
  pub batches : List (List SubTaskResult)
  pub grouped : rs ≡ flat batches
  pub supported : IsSupported tasks [] batches

-- When `ExecuteDAG` returns results, they are one for each subtask, and in the order of the batches
-- a result is a success only if each dependency of its subtask has a success in an earlier batch.
pub execute_dag-IsExecution :
    (sorted : List String → List String) (env : Env) (retry_max : ℕ) (subs : List (Option SubTask))
    (rs : List SubTaskResult)
    → IsSorting sorted
    → execute_dag sorted env retry_max subs ≡ some (ok rs)
    → IsExecution subs rs
unfolding execute_dag lookup mem
execute_dag-IsExecution sorted env n [] rs sorts h =
    let none_left : [] ≡ rs = ground (arith, h) in
    subst (IsExecution []) none_left (record {
      tasks = [];
      given = refl;
      distinct = tt;
      complete = λ x. refl;
      batches = [];
      grouped = refl;
      supported = tt;
    })
execute_dag-IsExecution sorted env n (s ∷ rest) rs sorts h =
    let b = with_batches-ok env n (resolve_execution_batches sorted (s ∷ rest)) rs h in
    let v = resolved-IsSchedule sorted (s ∷ rest) b.0 sorts b.1 in
    let r = results_lem env n v.0 v.2 0 b.0 [] [] rs (λ d. refl) v.3.given b.2 in
    record {
      tasks = v.0;
      given = v.1;
      distinct = subst IsDistinct (sym r.names) v.3.distinct;
      complete = λ x. ap (mem x) r.names ∙ v.3.complete x;
      batches = r.grouped;
      grouped = r.same;
      supported = r.supported;
    }

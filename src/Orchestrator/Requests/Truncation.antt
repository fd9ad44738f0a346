-- ===== src/Orchestrator/Requests/Truncation.antt =====
-- A decomposition that is cut at the limit of subtasks.
use heike.Prelude.{
  ℕ, zero, suc, ◌<◌, String, ◌≡◌, refl, ap, sym, ◌∙◌, inl, inr, true, false, Option, some, List, [],
  ◌∷◌, map, arith, lookup, length, take, mem,
}
use heike.Cognitive.Context.{Context}
use heike.Errors.{Result-cases, Err, Result, ok, err, wrapped}
use heike.Orchestrator.Batches.{
  SubTask, Tables, is_some, empty_tables, register_tasks, link_tasks, and_then, checked,
  run_batches, resolve_execution_batches,
}
use heike.Orchestrator.Dag.{Env, with_batches, execute_dag}
use heike.Orchestrator.Linking.{
  ids, deps_of, find_task, register_tasks-Registered, link_tasks-Linked, and_then-eq-ok,
  is_some-find_task,
}
use heike.Orchestrator.Rounds.{IsSorting}
use heike.Orchestrator.Schedule.{length-given, run_prepared, or_else-none}
use heike.Orchestrator.Verdict.{All-mem}
use heike.Orchestrator.Command.{State, Setup}
use heike.Orchestrator.Tools.Catalog.{Descriptor}
use heike.Orchestrator.Requests.{
  offered, Parts, Times, truncate, note_decomposition, answer_tasks, with_tasks, run_tasks,
  execute_complex_task,
}

map-some_inj : (xs ys : List SubTask) → map some xs ≡ map some ys → xs ≡ ys
map-some_inj [] [] h = refl
map-some_inj [] (y ∷ ys) h = ground (arith, h)
map-some_inj (x ∷ xs) [] h = ground (arith, h)
map-some_inj (x ∷ xs) (y ∷ ys) h =
    let tails : map some xs ≡ map some ys = ground (arith, h) in
    ground (arith, h, map-some_inj xs ys tails)

map-take : (n : ℕ) (ts : List SubTask) → take n (map some ts) ≡ map some (take n ts)
map-take zero ts = refl
map-take (suc n) [] = refl
map-take (suc n) (t ∷ ts) = ap (λ (l : List (Option SubTask)). some t ∷ l) (map-take n ts)

module _ (sorted : List String → List String) (sorts : IsSorting sorted) where
  checked-total :
      (n : ℕ) (p : List (List SubTask) × ℕ)
      → (r : Result (List (List SubTask))) × (checked n (some p) ≡ some r)
  checked-total n (bs, m) = (_, refl)

  -- Every decomposition has a schedule or an error: the fuel is enough.
  resolve_total :
      (subs : List (Option SubTask))
      → (r : Result (List (List SubTask))) × (resolve_execution_batches sorted subs ≡ some r)
  unfolding resolve_execution_batches
  resolve_total subs = elim (Result-cases (register_tasks empty_tables subs)) [
    | inr (e, p) ↦ (err e, rw p refl)
    | inl (t, p) ↦ elim (Result-cases (link_tasks t subs)) [
      | inr (e, q) ↦ (err e, rw p (rw q refl))
      | inl (u, q) ↦
          let r = register_tasks-Registered empty_tables subs t p in
          let f =
            run_prepared sorted sorts subs t u r
              (link_tasks-Linked t r.tasks u (ap (link_tasks t) (sym r.given) ∙ q)) in
          let c = checked-total (length subs) (f.0, f.1) in (c.0, rw p (rw q (f.2 ∙ c.1)))
    ]
  ]

  run_batches-ok :
      (n : ℕ) (p : Result Tables) (bs : List (List SubTask))
      → run_batches sorted n p ≡ some (ok bs)
      → (t : Tables) × (p ≡ ok t)
  run_batches-ok n (ok t) bs h = (t, refl)
  run_batches-ok n (err e) bs h = ground (arith, h)

  -- In a schedule, what a subtask depends on is among the subtasks.
  resolved-known :
      (ss : List SubTask) (bs : List (List SubTask)) (x d : String)
      → resolve_execution_batches sorted (map some ss) ≡ some (ok bs)
      → mem d (deps_of ss x) ≡ true
      → mem d (ids ss) ≡ true
  unfolding resolve_execution_batches lookup
  resolved-known ss bs x d h m =
      let prepared =
        run_batches-ok (length (map some ss))
          (and_then (register_tasks empty_tables (map some ss)) (λ t. link_tasks t (map some ss)))
          bs h in
      let linked =
        and_then-eq-ok (register_tasks empty_tables (map some ss)) (λ t. link_tasks t (map some ss))
          prepared.0 prepared.1 in
      let r = register_tasks-Registered empty_tables (map some ss) linked.0 linked.1 in
      let same = map-some_inj ss r.tasks r.given in
      let l = link_tasks-Linked linked.0 ss prepared.0 linked.2 in
      let there =
        All-mem (λ (y : String). is_some (lookup y linked.0.task_by_id) ≡ true) (deps_of ss x) d
          (l.edges x) m in
      sym (is_some-find_task ss d)
      ∙ ap (λ (l : List SubTask). is_some (find_task l d)) same
      ∙ ap is_some (sym (r.found d ∙ or_else-none (find_task r.tasks d)))
      ∙ there

with_batches-refused :
    (env : Env) (n : ℕ) (r : Result (List (List SubTask)))
    → ((bs : List (List SubTask)) → ¬ (r ≡ ok bs))
    → (e : Err) × (with_batches env n (some r) ≡ some (err e))
with_batches-refused env n (ok bs) never = absurd (never bs refl)
with_batches-refused env n (err e) never = (e, refl)

-- A list of subtasks, one of which depends on none of them, is never executed.
execute_dag-refused :
    (sorted : List String → List String) (env : Env) (n : ℕ) (ss : List SubTask) (x d : String)
    → IsSorting sorted
    → mem d (deps_of ss x) ≡ true
    → mem d (ids ss) ≡ false
    → (e : Err) × (execute_dag sorted env n (map some ss) ≡ some (err e))
unfolding execute_dag mem
execute_dag-refused sorted env n [] x d sorts m k = ground (arith, m)
execute_dag-refused sorted env n (s ∷ ss) x d sorts m k =
    let total = resolve_total sorted sorts (map some (s ∷ ss)) in
    let refused = with_batches-refused env n total.0 (λ bs h.
      let there = resolved-known sorted sorts (s ∷ ss) bs x d (total.1 ∙ ap some h) m in cc) in
    (refused.0, ap (with_batches env n) total.1 ∙ refused.1)

-- The subtasks that are run and noted.
abbrev pub kept : Parts → List SubTask → List SubTask
kept parts tasks = take parts.max_sub_tasks tasks

-- A decomposition over the limit is cut. Where one of the subtasks that are left depends on one that
-- was cut off, the whole request ends with an error and no answer is sent, if the subtasks' own runs
-- send none.
pub execute_complex_task-truncated :
    (setup : Setup) (parts : Parts) (s : State) (t : Times) (id : String) (c : Context)
    (goal : String) (tasks : List SubTask) (x d : String)
    → IsSorting parts.sorted
    → ((tools : List Descriptor) (c : Context) (s : State) (ts : List (Option SubTask))
        → (parts.after_tasks tools c s ts).sent ≡ s.sent)
    → parts.decompose goal s ≡ ok (map some tasks)
    → parts.max_sub_tasks < length tasks
    → mem d (deps_of (kept parts tasks) x) ≡ true
    → mem d (ids (kept parts tasks)) ≡ false
    → (s' : State) × (e : Err) × (execute_complex_task setup parts s t id c goal
        ≡ some (s', some (wrapped "DAG execution failed: %w" [] e)))
      × (s'.sent ≡ s.sent)
unfolding execute_complex_task truncate
execute_complex_task-truncated setup parts s t id c goal tasks x d sorts silent h over m k =
    let cut : truncate parts.max_sub_tasks (map some tasks) ≡ map some (kept parts tasks) =
      ground (arith, over, map-take parts.max_sub_tasks tasks, length-given tasks) in
    let ts = map some (kept parts tasks) in
    let noted = note_decomposition setup parts s t id (length ts) in
    let r =
      execute_dag-refused parts.sorted (parts.tasks (offered parts goal) c noted) parts.retry_max
        (kept parts tasks) x d sorts m k in
    (
      parts.after_tasks (offered parts goal) c noted ts,
      r.0,
      ap (with_tasks setup parts s t id c (offered parts goal)) h
          ∙ ap (run_tasks setup parts s t id c (offered parts goal)) cut
          ∙ ap (answer_tasks setup parts (parts.after_tasks (offered parts goal) c noted ts) t id)
              r.1,
      silent (offered parts goal) c noted ts,
    )

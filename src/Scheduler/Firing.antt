-- ===== src/Scheduler/Firing.antt =====
-- One pass of the engine over the tasks: which events it submits, and when a task fires again.
use heike.Prelude.{
  ℕ, String, ◌≡◌, ◌≢◌, refl, ap, sym, ◌∙◌, inl, inr, Bool, true, false, ◌&&◌, not, Option, none,
  some, List, [], ◌∷◌, ◌++◌, arith, ◌==◌, eq_iff, eq_refl, ltb, if◌then◌else◌, lookup, insert,
  lookup-insert, Bool-cases, Dict, Unique, All,
}
use heike.Errors.{Err, Result, ok, err}
use heike.Ingress.Event.{Event}
use heike.Scheduler.Store.{
  Task, TaskStore, save, put, held, lease_found, acquire_lease, fire_parsed, fire_found,
  should_fire, done_parsed, done_found, mark_task_done,
}
use heike.Scheduler.Leases.{tasks-put}
use heike.Scheduler.Engine.{
  Scheduler, World, hand_over, cron_event, finish, with_lease, execute_task, fire, process_task,
  process_tasks, load_tasks, process_cron_jobs,
}

-- A task with a schedule that parses, whose next run has come and whose lease is free,
-- while the store can be written.
abbrev pub parses : Result (ℕ → ℕ) → Bool
parses (ok next) = true
parses (err e) = false

unfoldable pub is_due : World → Task → Bool
is_due w t =
    not (t.schedule == "")
    && (not (ltb w.now t.next_run)
        && (parses (w.parse t.schedule) && (not (held w.now t.lease) && w.writable)))

-- The event names its task.
abbrev pub task_ids : List Event → List (Option String)
task_ids [] = []
task_ids (e ∷ es) = lookup "task_id" e.metadata ∷ task_ids es

abbrev pub due_ids : World → List Task → List (Option String)
due_ids w [] = []
due_ids w (t ∷ ts) = if is_due w t then some t.id ∷ due_ids w ts else due_ids w ts

task_ids-append : (es fs : List Event) → task_ids (es ++ fs) ≡ task_ids es ++ task_ids fs
task_ids-append [] fs = refl
task_ids-append (e ∷ es) fs =
    ap (λ (xs : List (Option String)). lookup "task_id" e.metadata ∷ xs) (task_ids-append es fs)

-- What processing one task leaves of another.
process_task-other :
    (w : World) (s : Scheduler) (t : Task) (k : String)
    → t.id ≢ k
    → lookup k (process_task w s t).store.tasks ≡ lookup k s.store.tasks
unfolding process_task fire execute_task with_lease finish hand_over should_fire fire_found
    fire_parsed acquire_lease lease_found mark_task_done done_found done_parsed
process_task-other w s t k h = grind (arith, tasks-put, lookup-insert, eq_iff t.id k)

event-id :
    (w : World) (s : Scheduler) (i r : String) (t : Task) (at : ℕ)
    → lookup "task_id" (cron_event w s i r t at).metadata ≡ some t.id
unfolding cron_event lookup
event-id w s i r t at = refl

submitted-finish :
    (w : World) (id run : String) (r : Scheduler × Option Err)
    → (finish w id run r).submitted ≡ r.0.submitted
unfolding finish
submitted-finish w id run (s, none) = refl
submitted-finish w id run (s, some e) = refl

executed :
    (w : World) (s : Scheduler) (t u : Task) (at : ℕ)
    → lookup t.id s.store.tasks ≡ some u
    → task_ids (execute_task w s t at).submitted ≡ (
        if not (held w.now u.lease) && w.writable
        then task_ids s.submitted ++ some t.id ∷ []
        else task_ids s.submitted)
unfolding execute_task with_lease hand_over acquire_lease lease_found put save
executed w s t u at h = grind (arith, submitted-finish, task_ids-append, event-id)

fired :
    (w : World) (s : Scheduler) (t : Task) (p : Result (ℕ → ℕ))
    → task_ids (fire w s t (fire_parsed s.store w.now t.id t p)).submitted ≡ (
        if parses p && (not (held w.now t.lease) && w.writable)
        then task_ids s.submitted ++ some t.id ∷ []
        else task_ids s.submitted)
unfolding fire fire_parsed
fired w s t (err e) = refl
fired w s t (ok next) =
    executed w (record s { store = moved }) t (record t { next_run = next w.now }) (next w.now)
      (lookup-insert t.id t.id (record t { next_run = next w.now }) s.store.tasks
        ∙ rw (eq_refl t.id) refl)
  where
    moved : TaskStore
    moved = record s.store {
      tasks = insert t.id (record t { next_run = next w.now }) s.store.tasks;
    }

one-submitted :
    (w : World) (s : Scheduler) (t : Task)
    → lookup t.id s.store.tasks ≡ some t
    → task_ids (process_task w s t).submitted
      ≡ (if is_due w t then task_ids s.submitted ++ some t.id ∷ [] else task_ids s.submitted)
unfolding is_due process_task fire should_fire fire_found
one-submitted w s t h = elim (Bool-cases (t.schedule == "")) [
  | inl e ↦ rw e refl
  | inr e ↦ elim (Bool-cases (ltb w.now t.next_run)) [
    | inl l ↦ rw e (rw h (rw l refl))
    | inr l ↦ rw e (rw h (rw l (fired w s t (w.parse t.schedule))))
  ]
]

append-cons :
    (xs : List (Option String)) (x : Option String) (ys : List (Option String))
    → (xs ++ x ∷ []) ++ ys ≡ xs ++ x ∷ ys
append-cons [] x ys = refl
append-cons (z ∷ xs) x ys = ap (λ (l : List (Option String)). z ∷ l) (append-cons xs x ys)

append-nil : (xs : List (Option String)) → xs ++ [] ≡ xs
append-nil [] = refl
append-nil (z ∷ xs) = ap (λ (l : List (Option String)). z ∷ l) (append-nil xs)

-- No two tasks of the list have one id.
abbrev pub Distinct : List Task → Type 0
Distinct [] = Unit
Distinct (t ∷ ts) = All (λ (u : Task). t.id ≢ u.id) ts × Distinct ts

-- The store has each task of the list under its id.
abbrev pub Stored : TaskStore → List Task → Type 0
Stored s = All (λ (t : Task). lookup t.id s.tasks ≡ some t)

Stored-process_task :
    (w : World) (s : Scheduler) (t : Task) (ts : List Task)
    → All (λ (u : Task). t.id ≢ u.id) ts
    → Stored s.store ts
    → Stored (process_task w s t).store ts
Stored-process_task w s t [] d h = tt
Stored-process_task w s t (u ∷ ts) d h =
    (process_task-other w s t u.id d.0 ∙ h.0, Stored-process_task w s t ts d.1 h.1)

processed :
    (w : World) (s : Scheduler) (ts : List Task)
    → Distinct ts
    → Stored s.store ts
    → task_ids (process_tasks w s ts).submitted ≡ task_ids s.submitted ++ due_ids w ts
unfolding process_tasks
processed w s [] d h = sym (append-nil (task_ids s.submitted))
processed w s (t ∷ ts) d h =
    processed w (process_task w s t) ts d.1 (Stored-process_task w s t ts d.0 h.1)
    ∙ rw (one-submitted w s t h.0) (elim (Bool-cases (is_due w t)) [
      | inl due ↦ rw due (append-cons (task_ids s.submitted) (some t.id) (due_ids w ts))
      | inr not_due ↦ rw not_due refl
    ])

-- Each task stands under its id, as `UpdateTask` puts it.
abbrev pub Keyed : Dict Task → Type 0
Keyed [] = Unit
Keyed ((k, t) ∷ m) = (k ≡ t.id) × Keyed m

lookup-apart :
    (k : String) (t : Task) (m : Dict Task)
    → lookup k m ≡ none
    → Keyed m
    → k ≡ t.id
    → All (λ (u : Task). t.id ≢ u.id) (load_tasks m)
unfolding lookup load_tasks
lookup-apart k t [] h ks e = tt
lookup-apart k t ((j, u) ∷ m) h ks e = (
  λ same. ground (arith, h, eq_refl j, e, ks.0, same),
  lookup-apart k t m (ground (arith, h)) ks.1 e,
)

Distinct-load_tasks : (m : Dict Task) → Unique m → Keyed m → Distinct (load_tasks m)
unfolding load_tasks
Distinct-load_tasks [] u ks = tt
Distinct-load_tasks ((k, t) ∷ m) u ks =
    (lookup-apart k t m u.0 ks.1 ks.0, Distinct-load_tasks m u.1 ks.1)

Stored-cons :
    (k : String) (t : Task) (m : Dict Task) (ts : List Task)
    → k ≡ t.id
    → All (λ (u : Task). t.id ≢ u.id) ts
    → All (λ (u : Task). lookup u.id m ≡ some u) ts
    → All (λ (u : Task). lookup u.id ((k, t) ∷ m) ≡ some u) ts
unfolding lookup
Stored-cons k t m [] e d h = tt
Stored-cons k t m (u ∷ ts) e d h =
    (ground (arith, eq_iff k u.id, d.0, e, h.0), Stored-cons k t m ts e d.1 h.1)

Stored-load_tasks :
    (m : Dict Task) → Unique m → Keyed m → All (λ (u : Task). lookup u.id m ≡ some u) (load_tasks m)
unfolding load_tasks lookup
Stored-load_tasks [] u ks = tt
Stored-load_tasks ((k, t) ∷ m) u ks = (
  ground (arith, eq_iff k t.id, ks.0),
  Stored-cons k t m (load_tasks m) ks.0 (lookup-apart k t m u.0 ks.1 ks.0)
      (Stored-load_tasks m u.1 ks.1),
)

-- In a store where each task stands under its own id, a pass over the tasks submits exactly one
-- event for each task that is due, in the order of the tasks, and none for any other: due means
-- that its schedule is set and parses, its next run has come, no live lease is on it and the store
-- can be written. What the ingress answers makes no difference.
pub process_cron_jobs-due :
    (w : World) (s : Scheduler)
    → Unique s.store.tasks
    → Keyed s.store.tasks
    → task_ids (process_cron_jobs w s).submitted
      ≡ task_ids s.submitted ++ due_ids w (load_tasks s.store.tasks)
unfolding process_cron_jobs
process_cron_jobs-due w s u k =
    processed w s (load_tasks s.store.tasks) (Distinct-load_tasks s.store.tasks u k)
      (Stored-load_tasks s.store.tasks u k)

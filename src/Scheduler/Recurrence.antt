-- ===== src/Scheduler/Recurrence.antt =====
-- A task that was due is not fired again before the next time of its schedule.
use heike.Prelude.{
  ℕ, ◌+◌, ◌≢◌, ◌<◌, ◌≤◌, String, ◌≡◌, refl, ap, ◌∙◌, Bool, true, false, Option, none, some, arith,
  ◌==◌, List, [], ◌∷◌, Bool-cases, inl, inr, All, eq_iff, eq_refl, ltb, lookup, insert,
  lookup-insert,
}
use heike.Errors.{Err, Result, ok, err}
use heike.Scheduler.Store.{
  Task, TaskStore, Cron, lease_found, acquire_lease, fire_parsed, fire_found, should_fire,
  done_parsed, done_found, mark_task_done,
}
use heike.Scheduler.Leases.{tasks-put}
use heike.Scheduler.Engine.{
  Scheduler, World, hand_over, finish, with_lease, execute_task, fire, process_task, process_tasks,
  load_tasks, process_cron_jobs, process_heartbeat, on_tick,
}

-- A task's schedule and next run.
abbrev pub timing : Option Task → Option (String × ℕ)
timing none = none
timing (some t) = some (t.schedule, t.next_run)

abbrev pub timing_of : TaskStore → String → Option (String × ℕ)
timing_of s id = timing (lookup id s.tasks)

timing_of-acquire_lease :
    (s : TaskStore) (w : Bool) (now : ℕ) (id r : String) (e : ℕ)
    → timing_of (acquire_lease s w now id r e).0 id ≡ timing_of s id
unfolding acquire_lease lease_found
timing_of-acquire_lease s w now id r e = grind (arith, tasks-put, lookup-insert, eq_refl id)

timing_of-mark_task_done :
    (cron : Cron) (s : TaskStore) (w : Bool) (now : ℕ) (id r sch : String) (next : ℕ → ℕ)
    → timing_of s id ≡ some (sch, next now)
    → cron sch ≡ ok next
    → timing_of (mark_task_done cron s w now id r).0 id ≡ some (sch, next now)
unfolding mark_task_done done_found done_parsed
timing_of-mark_task_done cron s w now id r sch next h p =
    grind (arith, tasks-put, lookup-insert, eq_refl id)

module _ (w : World) (t : Task) (next : ℕ → ℕ) (p : w.parse t.schedule ≡ ok next) where
  Waits : TaskStore → Type 0
  Waits s = timing_of s t.id ≡ some (t.schedule, next w.now)

  Waits-finish :
      (run : String) (r : Scheduler × Option Err)
      → Waits r.0.store
      → Waits (finish w t.id run r).store
  unfolding finish Waits
  Waits-finish run (s, some e) h = h
  Waits-finish run (s, none) h =
      timing_of-mark_task_done w.parse s.store w.writable w.now t.id run t.schedule next h p

  Waits-with_lease :
      (s : Scheduler) (at : ℕ) (run : String) (r : TaskStore × Option Err)
      → Waits r.0
      → Waits (with_lease w s t at run r).store
  unfolding with_lease hand_over
  Waits-with_lease s at run (store, some e) h = h
  Waits-with_lease s at run (store, none) h = Waits-finish run _ h

  Waits-execute_task :
      (s : Scheduler) (at : ℕ) → Waits s.store → Waits (execute_task w s t at).store
  unfolding execute_task Waits
  Waits-execute_task s at h =
      Waits-with_lease s at (w.ulid s.made)
        (acquire_lease s.store w.writable w.now t.id (w.ulid s.made) (w.now + s.lease_duration))
        (timing_of-acquire_lease s.store w.writable w.now t.id (w.ulid s.made)
            (w.now + s.lease_duration)
          ∙ h)

  Waits-process_task :
      (s : Scheduler)
      → lookup t.id s.store.tasks ≡ some t
      → t.schedule ≢ ""
      → t.next_run ≤ w.now
      → Waits (process_task w s t).store
  unfolding process_task fire should_fire fire_found fire_parsed
  Waits-process_task s found set come = rw found (
      rw late (
        rw p (
          rw unset (
            Waits-execute_task (record s { store = moved }) (next w.now)
              (unfold Waits in
                (ap timing (lookup-insert t.id t.id t' s.store.tasks) ∙ rw (eq_refl t.id) refl))))))
    where
      t' : Task
      t' = record t { next_run = next w.now }

      moved : TaskStore
      moved = record s.store { tasks = insert t.id t' s.store.tasks }

      late : ltb w.now t.next_run ≡ false
      late = ground arith

      unset : t.schedule == "" ≡ false
      unset = ground (arith, eq_iff t.schedule "")

not_yet :
    (w : World) (s : Scheduler) (t : Task) (sch : String) (at : ℕ)
    → timing_of s.store t.id ≡ some (sch, at)
    → w.now < at
    → (process_task w s t).submitted ≡ s.submitted
unfolding process_task fire should_fire fire_found
not_yet w s t sch at h soon = grind arith

-- What the scheduler does later: its ticks, and the processing of any one task, as a tick had it
-- when it started.
pub data Later : Type 0 where
  tick : World → Later
  job : World → Task → Later

abbrev pub time_of : Later → ℕ
time_of (tick w) = w.now
time_of (job w t) = w.now

unfoldable pub go_on : Scheduler → List Later → Scheduler
unfolding on_tick process_task
go_on s [] = s
go_on s (tick w ∷ ls) = go_on (on_tick w s) ls
go_on s (job w t ∷ ls) = go_on (process_task w s t) ls

timing_of-acquired :
    (s : TaskStore) (w : Bool) (now : ℕ) (k r : String) (e : ℕ) (id : String)
    → timing_of (acquire_lease s w now k r e).0 id ≡ timing_of s id
unfolding acquire_lease lease_found
timing_of-acquired s w now k r e id = grind (arith, tasks-put, lookup-insert, eq_iff k id)

module _ (id : String) (w : World) (t : Task) (other : t.id == id ≡ false) where
  timing_of-done :
      (s : TaskStore) (run : String)
      → timing_of (mark_task_done w.parse s w.writable w.now t.id run).0 id ≡ timing_of s id
  unfolding mark_task_done done_found done_parsed
  timing_of-done s run = grind (arith, other, tasks-put, lookup-insert, eq_iff t.id id)

  timing_of-finish :
      (run : String) (r : Scheduler × Option Err)
      → timing_of (finish w t.id run r).store id ≡ timing_of r.0.store id
  unfolding finish
  timing_of-finish run (s, some e) = refl
  timing_of-finish run (s, none) = timing_of-done s.store run

  timing_of-with_lease :
      (s : Scheduler) (at : ℕ) (run : String) (r : TaskStore × Option Err)
      → timing_of (with_lease w s t at run r).store id ≡ timing_of r.0 id
  unfolding with_lease hand_over
  timing_of-with_lease s at run (store, some e) = refl
  timing_of-with_lease s at run (store, none) = timing_of-finish run _

  timing_of-fire :
      (s : Scheduler) (r : TaskStore × Result (Bool × ℕ))
      → timing_of (fire w s t r).store id ≡ timing_of r.0 id
  unfolding fire execute_task
  timing_of-fire s (store, err e) = refl
  timing_of-fire s (store, ok (false, at)) = refl
  timing_of-fire s (store, ok (true, at)) =
      timing_of-with_lease (record s { store = store }) at _ _
      ∙ timing_of-acquired store w.writable w.now t.id (w.ulid s.made) (w.now + s.lease_duration) id

  timing_of-should_fire :
      (s : TaskStore) (schedule : String)
      → timing_of (should_fire w.parse s w.now t.id schedule).0 id ≡ timing_of s id
  unfolding should_fire fire_found fire_parsed
  timing_of-should_fire s schedule = grind (arith, other, lookup-insert, eq_iff t.id id)

  timing_of-process_task :
      (s : Scheduler) → timing_of (process_task w s t).store id ≡ timing_of s.store id
  unfolding process_task
  timing_of-process_task s = elim (Bool-cases (t.schedule == "")) [
    | inl unset ↦ rw unset refl
    | inr set ↦ rw set (timing_of-fire s _ ∙ timing_of-should_fire s.store t.schedule)
  ]

module _ (id sch : String) (at : ℕ) where
  Set : Scheduler → Type 0
  Set s = timing_of s.store id ≡ some (sch, at)

  process_task-Set :
      (w : World) (s : Scheduler) (t : Task) → w.now < at → Set s → Set (process_task w s t)
  unfolding Set process_task fire should_fire fire_found
  process_task-Set w s t soon h = elim (Bool-cases (t.id == id)) [
    | inl same ↦ rw ((eq_iff t.id id).0 same) (grind arith)
    | inr other ↦ timing_of-process_task id w t other s ∙ h
  ]

  process_tasks-Set :
      (w : World) (s : Scheduler) (ts : List Task) → w.now < at → Set s → Set (process_tasks w s ts)
  unfolding process_tasks
  process_tasks-Set w s [] soon h = h
  process_tasks-Set w s (t ∷ ts) soon h =
      process_tasks-Set w (process_task w s t) ts soon (process_task-Set w s t soon h)

  on_tick-Set : (w : World) (s : Scheduler) → w.now < at → Set s → Set (on_tick w s)
  unfolding Set on_tick process_heartbeat hand_over process_cron_jobs
  on_tick-Set w s soon h = process_tasks-Set w s (load_tasks s.store.tasks) soon h

  go_on-Set :
      (s : Scheduler) (ls : List Later) → All (λ l. time_of l < at) ls → Set s → Set (go_on s ls)
  unfolding go_on
  go_on-Set s [] before h = h
  go_on-Set s (tick w ∷ ls) before h =
      go_on-Set (on_tick w s) ls before.1 (on_tick-Set w s before.0 h)
  go_on-Set s (job w t ∷ ls) before h =
      go_on-Set (process_task w s t) ls before.1 (process_task-Set w s t before.0 h)

-- Once a task whose run has come was processed, whether its lease was free, the ingress took its
-- event or the store could be written, every later processing of that task before the next time of
-- its schedule submits nothing, after any ticks of the scheduler and any processing of tasks in
-- between, all before that time: a run that was not submitted then is skipped.
pub fired_once :
    (w w' : World) (s : Scheduler) (t t' : Task) (next : ℕ → ℕ) (ls : List Later)
    → lookup t.id s.store.tasks ≡ some t
    → t.schedule ≢ ""
    → w.parse t.schedule ≡ ok next
    → t.next_run ≤ w.now
    → t'.id ≡ t.id
    → w'.now < next w.now
    → All (λ l. time_of l < next w.now) ls
    → (process_task w' (go_on (process_task w s t) ls) t').submitted
      ≡ (go_on (process_task w s t) ls).submitted
unfolding Waits Set
fired_once w w' s t t' next ls found set p come same soon before =
    let later =
      go_on-Set t.id t.schedule (next w.now) (process_task w s t) ls before
        (Waits-process_task w t next p s found set come) in
    not_yet w' (go_on (process_task w s t) ls) t' t.schedule (next w.now) (rw same later) soon

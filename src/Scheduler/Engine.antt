-- ===== src/Scheduler/Engine.antt =====
-- internal/scheduler/engine.go: one tick of the scheduler. The clock is read once for a pass over
-- the tasks, and the map is walked in the order of the store's list. `made` counts the identifiers
-- made, `submitted` holds the events handed to the ingress, in order.
use heike.Prelude.{
  ℕ, suc, ◌+◌, String, Bool, true, false, Option, none, some, List, [], ◌∷◌, ◌++◌, ◌==◌, ltb, ◌&&◌,
  not, eqb, if◌then◌else◌, Dict,
}
use heike.Errors.{Err, Result, ok, err}
use heike.Ingress.Event.{Event, cron, system_event}
use heike.Scheduler.Store.{Lease, Task, TaskStore, Cron, should_fire, acquire_lease, mark_task_done}

pub record Scheduler : Type 0 where
  pub store : TaskStore
  pub lease_duration : ℕ
  pub max_catchup_runs : ℕ
  pub heartbeat_workspace_id : String
  pub made : ℕ
  pub submitted : List Event

-- What a pass finds outside: the time, the identifiers (ulid.Make), the printed forms of times and
-- numbers, whether the store can be written, the ingress's answer and the schedules' parser.
pub record World : Type 0 where
  pub now : ℕ
  pub ulid : ℕ → String
  pub format : ℕ → String
  pub digits : ℕ → String
  pub missed_text : ℕ → String
  pub writable : Bool
  pub submit : Event → Option Err
  pub parse : Cron

-- ingressSubmit.Submit
unfoldable pub hand_over : World → Scheduler → Event → Scheduler × Option Err
hand_over w s evt = (record s { submitted = s.submitted ++ evt ∷ [] }, w.submit evt)

unfoldable pub cron_event : World → Scheduler → String → String → Task → ℕ → Event
cron_event w s event_id run task fire_time = record {
  id = event_id;
  source = "scheduler";
  workspace_id = "";
  session_id = "scheduler";
  kind = cron;
  content = task.content;
  metadata =
      ("task_id", task.id)
      ∷ ("run_id", run)
      ∷ ("fire_time", w.format fire_time)
      ∷ ("lease_expires_at", w.format (w.now + s.lease_duration))
      ∷ [];
  created_at = 0;
}

abbrev pub system_tick : World → Scheduler → String → Dict String → Event
system_tick w s content metadata = record {
  id = w.ulid s.made;
  source = "scheduler";
  workspace_id = "";
  session_id = "";
  kind = system_event;
  content = content;
  metadata = metadata;
  created_at = 0;
}

-- The end of executeTask: an error of the ingress returns before the task is marked done, and an
-- error of marking is only logged.
unfoldable pub finish : World → String → String → Scheduler × Option Err → Scheduler
unfolding mark_task_done
finish w task_id run (s, some e) = s
finish w task_id run (s, none) = record s {
  store = (mark_task_done w.parse s.store w.writable w.now task_id run).0;
}

-- executeTask after AcquireLease.
unfoldable pub with_lease :
    World → Scheduler → Task → ℕ → String → TaskStore × Option Err → Scheduler
unfolding finish hand_over cron_event
with_lease w s task fire_time run (store, some e) = record s { store = store; made = suc s.made }
with_lease w s task fire_time run (store, none) = finish w task.id run (
    hand_over w (record s { store = store; made = suc (suc s.made) })
      (cron_event w s (w.ulid (suc s.made)) run task fire_time))

-- The count of tasks in flight, raised before and lowered after, is left out.
unfoldable pub execute_task : World → Scheduler → Task → ℕ → Scheduler
unfolding with_lease acquire_lease
execute_task w s task fire_time =
    with_lease w s task fire_time (w.ulid s.made)
      (acquire_lease s.store w.writable w.now task.id (w.ulid s.made) (w.now + s.lease_duration))

-- The body of the loop of processCronJobs, once ShouldFire answered.
unfoldable pub fire : World → Scheduler → Task → TaskStore × Result (Bool × ℕ) → Scheduler
unfolding execute_task
fire w s task (store, err e) = record s { store = store }
fire w s task (store, ok (false, at)) = record s { store = store }
fire w s task (store, ok (true, at)) = execute_task w (record s { store = store }) task at

unfoldable pub process_task : World → Scheduler → Task → Scheduler
unfolding fire should_fire
process_task w s task =
    if task.schedule == ""
    then s
    else fire w s task (should_fire w.parse s.store w.now task.id task.schedule)

-- The loop runs over the copies that LoadTasks made before it.
unfoldable pub process_tasks : World → Scheduler → List Task → Scheduler
unfolding process_task
process_tasks w s [] = s
process_tasks w s (t ∷ ts) = process_tasks w (process_task w s t) ts

unfoldable pub load_tasks : Dict Task → List Task
load_tasks [] = []
load_tasks ((k, t) ∷ m) = t ∷ load_tasks m

unfoldable pub process_cron_jobs : World → Scheduler → Scheduler
unfolding process_tasks load_tasks
process_cron_jobs w s = process_tasks w s (load_tasks s.store.tasks)

-- The error of the ingress is only logged.
unfoldable pub process_heartbeat : World → Scheduler → Scheduler
unfolding hand_over
process_heartbeat w s =
    (hand_over w (record s { made = suc s.made })
      (system_tick w s "heartbeat tick"
        (("workspace_id", s.heartbeat_workspace_id) ∷ ("tick_time", w.format w.now) ∷ []))).0

unfoldable pub on_tick : World → Scheduler → Scheduler
unfolding process_cron_jobs process_heartbeat
on_tick w s = process_heartbeat w (process_cron_jobs w s)

-- time.Now().After(lease.ExpiresAt)
unfoldable pub lease_expired : ℕ → Option Lease → Bool
lease_expired now none = false
lease_expired now (some l) = ltb l.expires_at now

-- recoverExpiredLeases counts, and changes no lease.
unfoldable pub recovered : ℕ → List Task → ℕ
unfolding lease_expired
recovered now [] = 0
recovered now (t ∷ ts) =
    let rest = recovered now ts in
    if not (t.schedule == "") && lease_expired now t.lease then suc rest else rest

-- The time zero is the one of a task that never had a next run.
unfoldable pub missed_runs : ℕ → List Task → ℕ
missed_runs now [] = 0
missed_runs now (t ∷ ts) =
    let rest = missed_runs now ts in
    if not (t.schedule == "") && (not (eqb t.next_run 0) && ltb t.next_run now)
    then suc rest
    else rest

unfoldable pub process_catch_up : World → Scheduler → Scheduler
unfolding missed_runs load_tasks hand_over
process_catch_up w s =
    let missed = missed_runs w.now (load_tasks s.store.tasks) in
    if ltb s.max_catchup_runs missed
    then (hand_over w (record s { made = suc s.made })
        (system_tick w s (w.missed_text missed)
          (("workspace_id", s.heartbeat_workspace_id) ∷ ("missed_count", w.digits missed) ∷ []))).0
    else s

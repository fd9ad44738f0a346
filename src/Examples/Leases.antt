-- ===== src/Examples/Leases.antt =====
-- The scheduler on concrete tasks.
use heike.Prelude.{
  ◌+◌, ◌≡◌, ◌++◌, refl, true, false, none, some, List, [], ◌∷◌, arith, differ, lookup,
}
use heike.Errors.{ok, err, plain, sentinel, transient}
use heike.Scheduler.Store.{Task, TaskStore, Cron, acquire_lease, lease_found, held, put, save}
use heike.Scheduler.Leases.{acquire, complete, fire, run_all, lease_exclusive}
use heike.Scheduler.Engine.{Scheduler, World, process_task, process_cron_jobs, load_tasks}
use heike.Scheduler.Firing.{task_ids, due_ids, process_cron_jobs-due}
use heike.Scheduler.Recurrence.{Later, tick, job, go_on, fired_once}

-- Every schedule fires each minute.
abbrev each_minute : Cron
each_minute spec = ok (λ now. now + 60)

abbrev report : Task
report = record {
  id = "report";
  schedule = "* * * * *";
  description = "";
  next_run = 0;
  lease = none;
  content = "write the report";
}

abbrev clean_up : Task
clean_up = record report { id = "clean"; next_run = 900 }

abbrev two_tasks : TaskStore
two_tasks = record { tasks = ("report", report) ∷ ("clean", clean_up) ∷ []; saved = [] }

lease_exclusive_example :
    let s = run_all each_minute (acquire_lease two_tasks true 10 "report" "r1" 100).0 (
      acquire false 20 "report" "r2" 200
      ∷ complete true "clean" 50
      ∷ fire 70 "report" "@hourly"
      ∷ []) in
    acquire_lease s true 99 "report" "r3" 300 ≡ (s, some (plain "task already leased" []))
lease_exclusive_example =
    lease_exclusive each_minute two_tasks true true 10 99 "report" "r1" "r3" 100 300
      (acquire false 20 "report" "r2" 200
        ∷ complete true "clean" 50
        ∷ fire 70 "report" "@hourly"
        ∷ [])
      (unfold acquire_lease lease_found held put save lookup in refl)
      (omega arith, (differ "clean" "report" refl, (tt, tt))) (omega arith)

-- The ingress takes nothing.
abbrev morning : World
morning = record {
  now = 300;
  ulid = λ n. "01J";
  format = λ n. "";
  digits = λ n. "";
  missed_text = λ n. "";
  writable = true;
  submit = λ e. some (sentinel transient);
  parse = each_minute;
}

abbrev scheduler : Scheduler
scheduler = record {
  store = two_tasks;
  lease_duration = 30;
  max_catchup_runs = 3;
  heartbeat_workspace_id = "default";
  made = 0;
  submitted = [];
}

process_cron_jobs-due_example :
    task_ids (process_cron_jobs morning scheduler).submitted
    ≡ task_ids scheduler.submitted ++ due_ids morning (load_tasks two_tasks.tasks)
process_cron_jobs-due_example =
    process_cron_jobs-due morning scheduler (unfold lookup in (refl, (refl, tt))) (refl, (refl, tt))

-- Two ticks and the processing of the other task, by a world in which no schedule parses.
abbrev in_between : List Later
in_between =
    tick (record morning { now = 310 })
    ∷ job (record morning { now = 320; parse = λ spec. err (plain "bad schedule" []) }) clean_up
    ∷ tick (record morning { now = 340 })
    ∷ []

fired_once_example :
    (process_task
      (record morning { now = 350 })
      (go_on (process_task morning scheduler report) in_between)
      report).submitted
    ≡ (go_on (process_task morning scheduler report) in_between).submitted
fired_once_example =
    fired_once morning (record morning { now = 350 }) scheduler report report (λ now. now + 60)
      in_between (unfold lookup in refl) (differ "* * * * *" "" refl) refl (omega arith) refl
      (omega arith) (omega arith, (omega arith, (omega arith, tt)))

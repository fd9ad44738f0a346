-- ===== src/Scheduler/Leases.antt =====
-- A lease keeps every other run away until it expires, is given back or the task is replaced.
use heike.Prelude.{
  ℕ, ◌+◌, ◌<◌, String, ◌≡◌, ◌≢◌, refl, Bool, true, false, Option, none, some, List, [], ◌∷◌, arith,
  eq_iff, eq_refl, lookup, insert, lookup-insert,
}
use heike.Errors.{plain}
use heike.Scheduler.Store.{
  Lease, leased, Task, TaskStore, Cron, save, put, held, lease_found, acquire_lease, lease_task,
  complete_found, complete_task, update_task, fire_parsed, fire_found, should_fire, done_parsed,
  done_found, lease_matches, mark_task_done,
}

-- One call on the store: the task, whether the write succeeds, and the clock.
pub data Op : Type 0 where
  acquire : Bool → ℕ → String → String → ℕ → Op
  lease_for : Bool → ℕ → ℕ → String → String → ℕ → Op
  complete : Bool → String → ℕ → Op
  update : Bool → Task → Op
  fire : ℕ → String → String → Op
  finish : Bool → ℕ → String → String → Op

unfoldable pub apply : Cron → TaskStore → Op → TaskStore
apply cron s (acquire w now id run expiry) = (acquire_lease s w now id run expiry).0
apply cron s (lease_for w now later id run d) = (lease_task s w now later id run d).0
apply cron s (complete w id next) = (complete_task s w id next).0
apply cron s (update w t) = (update_task s w t).0
apply cron s (fire now id schedule) = (should_fire cron s now id schedule).0
apply cron s (finish w now id run) = (mark_task_done cron s w now id run).0

unfoldable pub run_all : Cron → TaskStore → List Op → TaskStore
run_all cron s [] = s
run_all cron s (o ∷ os) = run_all cron (apply cron s o) os

-- The calls that the lease of `run` on the task `id` outlives: attempts made before it expires, and
-- completions and replacements of other tasks or by other runs.
abbrev pub Outlived : String → String → ℕ → Op → Type 0
Outlived id run expiry (acquire w now k r e) = now < expiry
Outlived id run expiry (lease_for w now later k r d) = now < expiry
Outlived id run expiry (complete w k next) = k ≢ id
Outlived id run expiry (update w t) = t.id ≢ id
Outlived id run expiry (fire now k schedule) = Unit
Outlived id run expiry (finish w now k r) = k ≡ id → r ≢ run

abbrev pub AllOutlived : String → String → ℕ → List Op → Type 0
AllOutlived id run expiry [] = Unit
AllOutlived id run expiry (o ∷ os) = Outlived id run expiry o × AllOutlived id run expiry os

abbrev pub lease_in : Option Task → Option Lease
lease_in none = none
lease_in (some t) = t.lease

abbrev pub lease_of : TaskStore → String → Option Lease
lease_of s id = lease_in (lookup id s.tasks)

abbrev held_by : String → ℕ → Lease
held_by run expiry = record { run_id = run; status = leased; expires_at = expiry }

pub tasks-put :
    (s : TaskStore) (w : Bool) (k : String) (t : Task) → (put s w k t).0.tasks ≡ insert k t s.tasks
unfolding put save
tasks-put s true k t = refl
tasks-put s false k t = refl

lease_found-kept :
    (s : TaskStore) (w : Bool) (now : ℕ) (k r : String) (e : ℕ) (id run : String) (expiry : ℕ)
    → now < expiry
    → lease_of s id ≡ some (held_by run expiry)
    → lease_of (lease_found s w now k r e (lookup k s.tasks)).0 id ≡ some (held_by run expiry)
unfolding lease_found held
lease_found-kept s w now k r e id run expiry h l =
    grind (arith, tasks-put, lookup-insert, eq_iff k id)

apply-kept :
    (cron : Cron) (s : TaskStore) (o : Op) (id run : String) (expiry : ℕ)
    → Outlived id run expiry o
    → lease_of s id ≡ some (held_by run expiry)
    → lease_of (apply cron s o) id ≡ some (held_by run expiry)
unfolding apply
apply-kept cron s (acquire w now k r e) id run expiry h l =
    unfold acquire_lease in lease_found-kept s w now k r e id run expiry h l
apply-kept cron s (lease_for w now later k r d) id run expiry h l =
    unfold lease_task in lease_found-kept s w now k r (later + d) id run expiry h l
apply-kept cron s (complete w k next) id run expiry h l =
    unfold complete_task complete_found in grind (arith, tasks-put, lookup-insert, eq_iff k id)
apply-kept cron s (update w t) id run expiry h l =
    unfold update_task in grind (arith, tasks-put, lookup-insert, eq_iff t.id id)
apply-kept cron s (fire now k schedule) id run expiry h l =
    unfold should_fire fire_found fire_parsed in
    grind (arith, tasks-put, lookup-insert, eq_iff k id)
apply-kept cron s (finish w now k r) id run expiry h l =
    unfold mark_task_done done_found done_parsed lease_matches in
    grind (arith, tasks-put, lookup-insert, eq_iff k id, eq_iff run r)

run_all-kept :
    (cron : Cron) (s : TaskStore) (os : List Op) (id run : String) (expiry : ℕ)
    → AllOutlived id run expiry os
    → lease_of s id ≡ some (held_by run expiry)
    → lease_of (run_all cron s os) id ≡ some (held_by run expiry)
unfolding run_all
run_all-kept cron s [] id run expiry h l = l
run_all-kept cron s (o ∷ os) id run expiry h l =
    run_all-kept cron (apply cron s o) os id run expiry h.1
      (apply-kept cron s o id run expiry h.0 l)

acquired :
    (s : TaskStore) (w : Bool) (now : ℕ) (id run : String) (expiry : ℕ)
    → (acquire_lease s w now id run expiry).1 ≡ none
    → lease_of (acquire_lease s w now id run expiry).0 id ≡ some (held_by run expiry)
unfolding acquire_lease lease_found
acquired s w now id run expiry h = grind (arith, tasks-put, lookup-insert, eq_refl id)

refused :
    (s : TaskStore) (w : Bool) (now : ℕ) (id run run' : String) (expiry e : ℕ)
    → now < expiry
    → lease_of s id ≡ some (held_by run expiry)
    → acquire_lease s w now id run' e ≡ (s, some (plain "task already leased" []))
unfolding acquire_lease lease_found held
refused s w now id run run' expiry e h l = ground arith

-- Once `AcquireLease` gave a run the lease of a task, every later `AcquireLease` of that task
-- before the lease expires is refused and changes nothing, whatever calls are made between, as long
-- as they are attempts made before the expiry, scheduling checks, and completions and
-- replacements of other tasks or by other runs.
pub lease_exclusive :
    (cron : Cron) (s : TaskStore) (w w' : Bool) (now later : ℕ) (id run run' : String)
    (expiry expiry' : ℕ) (os : List Op)
    → (acquire_lease s w now id run expiry).1 ≡ none
    → AllOutlived id run expiry os
    → later < expiry
    → let s' = run_all cron (acquire_lease s w now id run expiry).0 os in
      acquire_lease s' w' later id run' expiry' ≡ (s', some (plain "task already leased" []))
lease_exclusive cron s w w' now later id run run' expiry expiry' os got h soon =
    refused (run_all cron (acquire_lease s w now id run expiry).0 os) w' later id run run' expiry
      expiry' soon
      (run_all-kept cron (acquire_lease s w now id run expiry).0 os id run expiry h
        (acquired s w now id run expiry got))

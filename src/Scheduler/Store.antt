-- ===== src/Scheduler/Store.antt =====
-- internal/scheduler/store.go: the tasks in memory and their file. A time is a natural number.
-- `writable` says whether a write of the file succeeds; `cron` is package cron's `ParseStandard`,
-- whose schedule is its `Next`.
use heike.Prelude.{
  ℕ, ◌+◌, String, Bool, true, false, ◌&&◌, Option, none, some, [], ◌∷◌, ◌==◌, ltb, if◌then◌else◌,
  Dict, lookup, insert,
}
use heike.Errors.{Err, Result, ok, err, plain, external, wrapped}

pub data LeaseStatus : Type 0 where
  idle leased done failed : LeaseStatus

pub record Lease : Type 0 where
  pub run_id : String
  pub status : LeaseStatus
  pub expires_at : ℕ

pub record Task : Type 0 where
  pub id : String
  pub schedule : String
  pub description : String
  pub next_run : ℕ
  pub lease : Option Lease
  pub content : String

pub record TaskStore : Type 0 where
  pub tasks : Dict Task
  pub saved : Dict Task

abbrev pub Cron : Type 0
Cron = String → Result (ℕ → ℕ)

-- What reading the file gives.
pub data File : Type 0 where
  absent blank : File
  unreadable malformed : Err → File
  holding : Dict Task → File

-- json.Unmarshal into the map there is: the file's entries are put over it.
unfoldable pub merge : Dict Task → Dict Task → Dict Task
unfolding insert
merge m [] = m
merge m ((k, t) ∷ file) = merge (insert k t m) file

unfoldable pub load : TaskStore → File → TaskStore × Option Err
unfolding merge
load s absent = (s, none)
load s blank = (s, none)
load s (unreadable e) = (s, some e)
load s (malformed e) = (s, some e)
load s (holding file) = (record s { tasks = merge s.tasks file }, none)

unfoldable pub save : TaskStore → Bool → TaskStore × Option Err
save s true = (record s { saved = s.tasks }, none)
save s false = (s, some (external "write"))

-- Changes one entry of the map, then saves.
unfoldable pub put : TaskStore → Bool → String → Task → TaskStore × Option Err
unfolding insert save
put s writable key t = save (record s { tasks = insert key t s.tasks }) writable

unfoldable pub update_task : TaskStore → Bool → Task → TaskStore × Option Err
unfolding put
update_task s writable t = put s writable t.id t

abbrev pub task_not_found : Err
task_not_found = plain "task not found" []

abbrev pub is_leased : LeaseStatus → Bool
is_leased idle = false
is_leased leased = true
is_leased done = false
is_leased failed = false

-- t.Lease != nil && t.Lease.Status == StatusLeased && time.Now().Before(t.Lease.ExpiresAt)
unfoldable pub held : ℕ → Option Lease → Bool
held now none = false
held now (some l) = is_leased l.status && ltb now l.expires_at

unfoldable pub lease_found :
    TaskStore → Bool → ℕ → String → String → ℕ → Option Task → TaskStore × Option Err
unfolding held put
lease_found s writable now task_id run expiry none = (s, some task_not_found)
lease_found s writable now task_id run expiry (some t) =
    if held now t.lease
    then (s, some (plain "task already leased" []))
    else put s writable task_id
        (record t { lease = some (record { run_id = run; status = leased; expires_at = expiry }) })

unfoldable pub acquire_lease : TaskStore → Bool → ℕ → String → String → ℕ → TaskStore × Option Err
unfolding lease_found lookup
acquire_lease s writable now task_id run expiry =
    lease_found s writable now task_id run expiry (lookup task_id s.tasks)

-- LeaseTask reads the clock again for the expiry.
unfoldable pub lease_task : TaskStore → Bool → ℕ → ℕ → String → String → ℕ → TaskStore × Option Err
unfolding lease_found lookup
lease_task s writable now then_now task_id run duration =
    lease_found s writable now task_id run (then_now + duration) (lookup task_id s.tasks)

unfoldable pub complete_found : TaskStore → Bool → String → ℕ → Option Task → TaskStore × Option Err
unfolding put
complete_found s writable task_id next none = (s, some task_not_found)
complete_found s writable task_id next (some t) =
    put s writable task_id (record t { lease = none; next_run = next })

unfoldable pub complete_task : TaskStore → Bool → String → ℕ → TaskStore × Option Err
unfolding complete_found lookup
complete_task s writable task_id next =
    complete_found s writable task_id next (lookup task_id s.tasks)

abbrev pub invalid_schedule : Err → Err
invalid_schedule e = wrapped "invalid cron schedule: %w" [] e

-- The second half of ShouldFire: the task's next run is moved in memory and not saved.
unfoldable pub fire_parsed :
    TaskStore → ℕ → String → Task → Result (ℕ → ℕ) → TaskStore × Result (Bool × ℕ)
unfolding insert
fire_parsed s now task_id t (err e) = (s, err (invalid_schedule e))
fire_parsed s now task_id t (ok next) = (
  record s { tasks = insert task_id (record t { next_run = next now }) s.tasks },
  ok (true, next now),
)

unfoldable pub fire_found :
    TaskStore → ℕ → String → Result (ℕ → ℕ) → Option Task → TaskStore × Result (Bool × ℕ)
unfolding fire_parsed
fire_found s now task_id parsed none = (s, err task_not_found)
fire_found s now task_id parsed (some t) =
    if ltb now t.next_run then (s, ok (false, t.next_run)) else fire_parsed s now task_id t parsed

unfoldable pub should_fire : Cron → TaskStore → ℕ → String → String → TaskStore × Result (Bool × ℕ)
unfolding fire_found lookup
should_fire cron s now task_id schedule =
    fire_found s now task_id (cron schedule) (lookup task_id s.tasks)

-- t.Lease == nil || t.Lease.RunID != runID, negated
unfoldable pub lease_matches : String → Option Lease → Bool
lease_matches run none = false
lease_matches run (some l) = l.run_id == run

-- The lease is dropped before the schedule is parsed, and an error of it leaves that unsaved.
unfoldable pub done_parsed :
    TaskStore → Bool → ℕ → String → Task → Result (ℕ → ℕ) → TaskStore × Option Err
unfolding put insert
done_parsed s writable now task_id t (err e) = (
  record s { tasks = insert task_id (record t { lease = none }) s.tasks },
  some (invalid_schedule e),
)
done_parsed s writable now task_id t (ok next) =
    put s writable task_id (record t { lease = none; next_run = next now })

unfoldable pub done_found :
    Cron → TaskStore → Bool → ℕ → String → String → Option Task → TaskStore × Option Err
unfolding done_parsed lease_matches
done_found cron s writable now task_id run none = (s, some task_not_found)
done_found cron s writable now task_id run (some t) =
    if lease_matches run t.lease
    then done_parsed s writable now task_id t (cron t.schedule)
    else (s, some (plain "lease mismatch" []))

unfoldable pub mark_task_done :
    Cron → TaskStore → Bool → ℕ → String → String → TaskStore × Option Err
unfolding done_found lookup
mark_task_done cron s writable now task_id run =
    done_found cron s writable now task_id run (lookup task_id s.tasks)

unfoldable pub get_lease : TaskStore → String → Result (Option Lease)
unfolding lookup
get_lease s task_id = elim (lookup task_id s.tasks) [
  | none ↦ err task_not_found
  | some t ↦ ok t.lease
]

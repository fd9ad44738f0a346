-- ===== src/Lane.antt =====
-- internal/worker/worker.go and internal/concurrency/lock.go: the workers that take events off the
-- queues, and the lock of each session that they share. A mutex is whether it is locked.
pub mod Exclusion
use heike.Prelude.{
  ℕ, eqb, String, ◌≡◌, Bool, true, false, Option, none, some, List, [], ◌∷◌, ◌==◌, if◌then◌else◌,
  Dict, lookup, insert,
}
use heike.Errors.{Err, of_category, wrapped, invalid_input}
use heike.Ingress.Event.{Event, EventType, user_message, system_event, command, cron, other}

abbrev pub LockManager : Type 0
LockManager = Dict Bool

-- What an entry of the map becomes when it is looked up: a new mutex is unlocked.
abbrev pub mutex : Option Bool → Bool
mutex none = false
mutex (some b) = b

-- The first part of `Lock`, under the manager's own lock: the session's mutex is there after it.
unfoldable pub find_lock : LockManager → String → LockManager
unfolding lookup insert
find_lock m session = insert session (mutex (lookup session m)) m

-- The second part, `lock.Lock()`: none as long as the mutex is locked.
unfoldable pub take_lock : LockManager → String → Option LockManager
unfolding lookup insert
take_lock m session = if mutex (lookup session m) then none else some (insert session true m)

unfoldable pub unlock : LockManager → String → LockManager
unfolding lookup insert
unlock m session = elim (lookup session m) [ none ↦ m | some b ↦ insert session false m ]

-- evt.Type == ""
abbrev pub no_type : EventType → Bool
no_type (other s) = s == ""
no_type user_message = false
no_type system_event = false
no_type command = false
no_type cron = false

abbrev pub invalid : String → Option Err
invalid message = some (wrapped "%s: %w" (message ∷ []) (of_category invalid_input message))

unfoldable pub validate_event : Option Event → Option Err
validate_event none = invalid "event is nil"
validate_event (some e) =
    if e.id == ""
    then invalid "event ID is empty"
    else if e.session_id == ""
    then invalid "session ID is empty"
    else if no_type e.kind
    then invalid "event type is empty"
    else none

-- Where a worker is in processEvent: before it, at the lock, or in the orchestrator.
pub data Stage : Type 0 where
  waiting_for_event : Stage
  at_lock executing : Event → Stage

-- The workers, by number, over one lock manager.
pub record Lanes : Type 0 where
  pub locks : LockManager
  pub stages : ℕ → Stage

abbrev pub move : (ℕ → Stage) → ℕ → Stage → ℕ → Stage
move stages w p v = if eqb w v then p else stages v

-- One step of one worker. An event that is not valid is left at once, so it makes no step; the
-- deferred Unlock comes after the orchestrator, whatever it returns. The workers have a lock manager: one
-- that was given none takes no lock.
pub data Step : Lanes → Lanes → Type 0 where
  take_event :
      (l : Lanes) (w : ℕ) (e : Event)
      → l.stages w ≡ waiting_for_event
      → validate_event (some e) ≡ none
      → Step l
          (record { locks = find_lock l.locks e.session_id; stages = move l.stages w (at_lock e) })
  get_lock :
      (l : Lanes) (w : ℕ) (e : Event) (m : LockManager)
      → l.stages w ≡ at_lock e
      → take_lock l.locks e.session_id ≡ some m
      → Step l (record { locks = m; stages = move l.stages w (executing e) })
  finish :
      (l : Lanes) (w : ℕ) (e : Event)
      → l.stages w ≡ executing e
      → Step l (record {
        locks = unlock l.locks e.session_id;
        stages = move l.stages w waiting_for_event;
      })

pub data Reachable : Lanes → Type 0 where
  idle : Reachable (record { locks = []; stages = λ w. waiting_for_event })
  next : (l l' : Lanes) → Reachable l → Step l l' → Reachable l'

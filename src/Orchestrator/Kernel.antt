-- ===== src/Orchestrator/Kernel.antt =====
-- internal/orchestrator/kernel.go: what an event does, and the kernel's own state. Handlers of
-- different sessions may run at once; a run of the kernel here is their calls one after the other.
pub mod Granting
pub mod Approvals
pub mod Answers
pub mod Adapters
use text.Mathlib.Text.{starts_with}
use heike.Prelude.{
  String, Bool, true, false, Option, none, some, List, [], ◌∷◌, ◌&&◌, ◌||◌, if◌then◌else◌,
}
use heike.Errors.{Err, Result, ok, err, plain, wrapped}
use heike.Ingress.Event.{Event, EventType, user_message, system_event, command, cron}
use heike.Orchestrator.Session.{append_interaction}
use heike.Orchestrator.Command.{State, Setup, can_handle, execute_command}
use heike.Orchestrator.Requests.{Parts, Times, handle_request}

abbrev pub is_command : EventType → Bool
is_command command = true
is_command user_message = false
is_command system_event = false
is_command cron = false
is_command (EventType.other s) = false

abbrev pub is_user_message : EventType → Bool
is_user_message user_message = true
is_user_message command = false
is_user_message system_event = false
is_user_message cron = false
is_user_message (EventType.other s) = false

-- The condition of a slash command.
unfoldable pub is_slash : Event → Bool
unfolding can_handle
is_slash e = is_command e.kind || (is_user_message e.kind && can_handle e.content)

module _ (setup : Setup) (parts : Parts) where
  -- The message's own transcript line; its error is dropped.
  unfoldable pub keep_message : State → Times → Event → State
  unfolding append_interaction
  keep_message s t e = record s {
    files =
        (append_interaction setup.json setup.max_bytes s.files t.asking e.session_id "user"
          e.content).0;
  }

  -- `none` is a schedule that ran out of fuel.
  unfoldable pub execute : State → Times → Event → Option (State × Option Err)
  unfolding is_slash execute_command keep_message handle_request
  execute s t e =
      if is_slash e
      then some (execute_command setup s t.answering e.session_id e.content)
      else if is_user_message e.kind
      then handle_request setup parts (keep_message s t e) t e.session_id e.content
      else some (s, none)

  abbrev pub state_of : Option (State × Option Err) → Option State
  state_of none = none
  state_of (some (s, e)) = some s

  abbrev pub then_events : Option State → (State → Option State) → Option State
  then_events none next = none
  then_events (some s) next = next s

  -- The events that the workers hand to the kernel, in their order.
  unfoldable pub execute_all : State → List (Times × Event) → Option State
  unfolding execute
  execute_all s [] = some s
  execute_all s ((t, e) ∷ es) = then_events (state_of (execute s t e)) (λ s'. execute_all s' es)

-- Whether it runs, and whether the context that `Init` made was cancelled; none without `Init`.
pub record Life : Type 0 where
  pub running : Bool
  pub cancelled : Option Bool

unfoldable pub init : Life → Life
init l = record l { cancelled = some false }

unfoldable pub start : Life → Life
start l = if l.running then l else record l { running = true }

abbrev pub cancel : Option Bool → Option (Option Bool)
cancel none = none
cancel (some c) = some (some true)

abbrev pub halt : Option (Option Bool) → Option Life
halt none = none
halt (some c) = some (record { running = false; cancelled = c })

-- `none` is the panic of a call of a nil cancel.
unfoldable pub stop : Life → Option Life
stop l = if l.running then halt (cancel l.cancelled) else some l

unfoldable pub health : Life → Bool × Option Err
health l = (l.running, if l.running then none else some (plain "kernel not running" []))

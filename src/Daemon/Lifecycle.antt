-- ===== src/Daemon/Lifecycle.antt =====
-- internal/daemon/manager.go: `NewDaemon`, `AddComponent` and `Start` with what it calls. The calls of
-- the components' methods are logged, and what a method returns may depend on the calls before it.
-- A shutdown is a loop beside a wait: where the wait ends first, the model has the names that the loop
-- was through with, and the state as `Start` then returns. Logging, the panic monitor and the health
-- monitor are left out.
use heike.Prelude.{
  ℕ, String, Bool, true, false, ◌||◌, Option, none, some, List, [], ◌∷◌, ◌++◌, ◌==◌, ltb, take,
  if◌then◌else◌,
}
use heike.Errors.{Err, Result, ok, err, plain, wrapped, is_canceled}
use heike.Daemon.Order.{
  Component, get_component_by_name, or_later, validate_dependencies, resolve_init_order,
}

pub data HealthStatus : Type 0 where
  starting running stopping stopped : HealthStatus

pub data Call : Type 0 where
  init start stop : Component → Call

pub record Daemon : Type 0 where
  pub components : List Component
  pub shutdown_order : List String
  pub health : HealthStatus
  pub calls : List Call

-- What the run meets: the methods' answers, the configuration with the error of each duration that
-- does not parse, of the workspace's path and of its directory, and the contexts' errors. A cut is the
-- count of names that a shutdown was through with when its context ended before it, `none` if it was
-- waited for; `startup_context` is the context's error when a start has failed.
pub record Env : Type 0 where
  pub answer : List Call → Call → Option Err
  pub port : ℕ
  pub path_error : Option Err
  pub directory_error : Option Err
  pub preflight_timeout : Option Err
  pub stale_lock_ttl : Option Err
  pub preflight_done : Option Err
  pub startup_timeout : Option Err
  pub shutdown_timeout : Option Err
  pub startup_context : Option Err
  pub startup_cut : Option ℕ
  pub shutdown_cut : Option ℕ
  pub context_error : Err

unfoldable pub new_daemon : String → Result Daemon
new_daemon workspace =
    if workspace == ""
    then err (plain "workspace ID cannot be empty" [])
    else ok (record { components = []; shutdown_order = []; health = starting; calls = [] })

unfoldable pub add_component : Daemon → Component → Daemon
add_component d c = record d {
  components = d.components ++ c ∷ [];
  shutdown_order = c.name ∷ d.shutdown_order;
}

abbrev pub called : Call → Daemon → Daemon
called c d = record d { calls = d.calls ++ c ∷ [] }

abbrev pub set_health : HealthStatus → Daemon → Daemon
set_health h d = record d { health = h }

-- An error with what the code says of it.
abbrev pub because : String → List String → Option Err → Option Err
because format args none = none
because format args (some e) = some (wrapped format args e)

abbrev pub port_error : ℕ → Option Err
port_error port =
    if ltb port 1 || ltb 65535 port
    then some (plain "invalid port: %d (must be 1-65535)" [])
    else none

-- A port below 0 is refused as 0 is.
unfoldable pub validate_config : Env → Option Err
validate_config env = or_later (port_error env.port) (
    or_later (because "resolve workspace path: %w" [] env.path_error)
      (because "failed to create workspace directory: %w" [] env.directory_error))

-- The cleanup of stale locks only logs its error.
unfoldable pub pre_init_checks : Env → Option Err
pre_init_checks env =
    or_later (because "parse daemon preflight timeout: %w" [] env.preflight_timeout) (
      or_later (because "resolve workspace path: %w" [] env.path_error) (
        or_later (because "parse daemon stale lock ttl: %w" [] env.stale_lock_ttl)
          (because "pre-init checks cancelled: %w" [] env.preflight_done)))

-- A loop goes on when its step gave no error.
abbrev pub then_on : Daemon × Option Err → (Daemon → Daemon × Option Err) → Daemon × Option Err
then_on (d, none) k = k d
then_on (d, some e) k = (d, some e)

abbrev pub init_one : Env → Daemon → Option Component → Daemon × Option Err
init_one env d none = (d, none)
init_one env d (some c) = (
  called (init c) d,
  because "component %s init failed: %w" (c.name ∷ []) (env.answer d.calls (init c)),
)

unfoldable pub init_each : Env → Daemon → List String → Daemon × Option Err
init_each env d [] = (d, none)
init_each env d (x ∷ xs) =
    then_on (init_one env d (get_component_by_name d.components x)) (λ d'. init_each env d' xs)

-- `none` is a resolution that is out of fuel.
abbrev pub with_order : Env → Daemon → Option (Result (List String)) → Option (Daemon × Option Err)
with_order env d none = none
with_order env d (some (err e)) = some (d, some (wrapped "failed to resolve init order: %w" [] e))
with_order env d (some (ok order)) = some (init_each env d order)

abbrev pub with_valid : Env → Daemon → Option Err → Option (Daemon × Option Err)
with_valid env d (some e) = some (d, some (wrapped "dependency validation failed: %w" [] e))
with_valid env d none = with_order env d (resolve_init_order d.components)

unfoldable pub initialize_components : Env → Daemon → Option (Daemon × Option Err)
unfolding validate_dependencies resolve_init_order init_each
initialize_components env d = with_valid env d (validate_dependencies d.components)

abbrev pub start_one : Env → Daemon → Component → Daemon × Option Err
start_one env d c = (
  called (start c) d,
  because "component %s startup failed: %w" (c.name ∷ []) (env.answer d.calls (start c)),
)

-- startComponents: the loop over the components.
unfoldable pub start_components : Env → Daemon → List Component → Daemon × Option Err
start_components env d [] = (d, none)
start_components env d (c ∷ cs) = then_on (start_one env d c) (λ d'. start_components env d' cs)

abbrev pub stop_found : Option Component → Daemon → Daemon
stop_found none d = d
stop_found (some c) d = called (stop c) d

-- The loop over the names of the shutdown order; an error of a stop is only logged.
unfoldable pub stop_each : Daemon → List String → Daemon
stop_each d [] = d
stop_each d (x ∷ xs) = stop_each (stop_found (get_component_by_name d.components x) d) xs

unfoldable pub shutdown_components : Daemon → Daemon
unfolding stop_each
shutdown_components d = set_health stopped (stop_each d d.shutdown_order)

-- The error of a shutdown whose context ended first; the argument is the error of the parent context.
abbrev pub cut_error : Option Err → Err
cut_error none = plain "shutdown timeout after %v" []
cut_error (some e) = wrapped "shutdown cancelled: %w" [] e

-- gracefulShutdown, with the parent context's error and the cut.
unfoldable pub graceful_shutdown : Option Err → Option ℕ → Daemon → Daemon × Option Err
unfolding shutdown_components stop_each
graceful_shutdown cancelled none d = (shutdown_components d, none)
graceful_shutdown cancelled (some n) d =
    (stop_each d (take n d.shutdown_order), some (cut_error cancelled))

-- The loop from the last component to the first.
unfoldable pub rollback_each : Daemon → List Component → Daemon
rollback_each d [] = d
rollback_each d (c ∷ cs) = called (stop c) (rollback_each d cs)

unfoldable pub rollback : Daemon → Daemon
unfolding rollback_each
rollback d = set_health stopped (rollback_each d d.components)

-- errors.Is(err, context.DeadlineExceeded) of the context's own error
abbrev pub is_deadline : Err → Bool
is_deadline e = elim e [ Err.deadline_exceeded ↦ true | _ ↦ false ]

-- From the end of the context on.
unfoldable pub serve : Env → Daemon → Daemon × Option Err
unfolding graceful_shutdown is_canceled
serve env d = elim env.shutdown_timeout [
  | some e ↦ (set_health stopping d, some (wrapped "parse daemon shutdown timeout: %w" [] e))
  | none ↦
      let down = graceful_shutdown none env.shutdown_cut (set_health stopping d) in
      (
        down.0,
        or_later down.1 (
            if is_canceled env.context_error || is_deadline env.context_error
            then some env.context_error
            else none),
      )
]

-- The error of the shutdown after a failed start is dropped.
abbrev pub after_start : Env → Daemon × Option Err → Daemon × Option Err
after_start env (d, none) = serve env (set_health running d)
after_start env (d, some e) = elim env.startup_timeout [
  | some t ↦ (d, some (wrapped "parse daemon startup shutdown timeout: %w" [] t))
  | none ↦ (
    (graceful_shutdown env.startup_context env.startup_cut d).0,
    some (wrapped "component startup failed: %w" [] e),
  )
]

abbrev pub after_init : Env → Option (Daemon × Option Err) → Option (Daemon × Option Err)
after_init env none = none
after_init env (some (d, some e)) =
    some (rollback d, some (wrapped "component initialization failed: %w" [] e))
after_init env (some (d, none)) = some (after_start env (start_components env d d.components))

abbrev pub after_checks : Env → Daemon → Option Err → Option (Daemon × Option Err)
after_checks env d (some e) = some (d, some e)
after_checks env d none = after_init env (initialize_components env d)

unfoldable pub start_daemon : Env → Daemon → Option (Daemon × Option Err)
unfolding validate_config pre_init_checks initialize_components rollback start_components
    graceful_shutdown serve
start_daemon env d = after_checks env d (
    or_later (because "config validation failed: %w" [] (validate_config env))
      (because "pre-init checks failed: %w" [] (pre_init_checks env)))

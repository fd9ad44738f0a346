-- ===== src/Examples/Boot.antt =====
-- The daemon with three components.
use heike.Prelude.{String, ◌≡◌, ◌⊎◌, refl, none, some, List, [], ◌∷◌}
use heike.Errors.{Err, ok, err}
use heike.Daemon.Order.{Component, circular, validate_dependencies, resolve_init_order}
use heike.Daemon.Ordering.{IsInitOrder}
use heike.Daemon.Resolution.{resolve_init_order-decides}
use heike.Daemon.Lifecycle.{starting, Daemon, Env}

abbrev component : String → List String → Component
component name dependencies = record { name = name; dependencies = dependencies }

-- The worker is added before the store that it needs.
abbrev components : List Component
components =
    component "worker" ("store" ∷ [])
    ∷ component "store" []
    ∷ component "ingress" ("store" ∷ "worker" ∷ [])
    ∷ []

registered : validate_dependencies components ≡ none
unfolding validate_dependencies
registered = refl

store_first : resolve_init_order components ≡ some (ok ("store" ∷ "worker" ∷ "ingress" ∷ []))
unfolding resolve_init_order
store_first = refl

abbrev ring : List Component
ring = component "a" ("b" ∷ []) ∷ component "b" ("a" ∷ []) ∷ []

ring-circular : resolve_init_order ring ≡ some (err (circular "a"))
unfolding resolve_init_order
ring-circular = refl

resolve_init_order-decides_example :
    ((order : List String) × (resolve_init_order components ≡ some (ok order))
      × IsInitOrder components order)
    ⊎ ((name : String) × (resolve_init_order components ≡ some (err (circular name)))
        × ((order : List String) → ¬ IsInitOrder components order))
resolve_init_order-decides_example = resolve_init_order-decides components registered

abbrev daemon : Daemon
daemon = record { components = []; shutdown_order = []; health = starting; calls = [] }

-- Every call succeeds, the context is cancelled in the end, and the last stop takes too long.
abbrev env : Env
env = record {
  answer = λ before call. none;
  port = 8080;
  path_error = none;
  directory_error = none;
  preflight_timeout = none;
  stale_lock_ttl = none;
  preflight_done = none;
  startup_timeout = none;
  shutdown_timeout = none;
  startup_context = none;
  startup_cut = none;
  shutdown_cut = some 2;
  context_error = Err.canceled;
}

-- ===== src/Daemon/Order.antt =====
-- internal/daemon/manager.go: `validateDependencies` and `resolveInitOrder`. A map[string]bool is the
-- list of the names that it holds true, in the order in which they were set.
use heike.Prelude.{
  ℕ, zero, suc, String, Option, none, some, List, [], ◌∷◌, ◌++◌, ◌==◌, if◌then◌else◌, length, mem,
  without,
}
use heike.Errors.{Err, Result, ok, err, plain}

-- The name and the dependencies of a component; its other methods are the calls of `Lifecycle`.
pub record Component : Type 0 where
  pub name : String
  pub dependencies : List String

abbrev pub names : List Component → List String
names [] = []
names (c ∷ cs) = c.name ∷ names cs

abbrev pub get_component_by_name : List Component → String → Option Component
get_component_by_name [] name = none
get_component_by_name (c ∷ cs) name =
    if c.name == name then some c else get_component_by_name cs name

-- A dependency of a component that the map of the components does not have.
unfoldable pub unregistered : List String → String → List String → Option Err
unfolding mem
unregistered registered name [] = none
unregistered registered name (d ∷ ds) =
    let rest = unregistered registered name ds in
    if mem d registered
    then rest
    else some (plain "component %s depends on %s which is not registered" (name ∷ d ∷ []))

abbrev pub or_later : Option Err → Option Err → Option Err
or_later none later = later
or_later (some e) later = some e

unfoldable pub validate_each : List String → List Component → Option Err
unfolding unregistered
validate_each registered [] = none
validate_each registered (c ∷ cs) =
    or_later (unregistered registered c.name c.dependencies) (validate_each registered cs)

unfoldable pub validate_dependencies : List Component → Option Err
unfolding validate_each
validate_dependencies cs = validate_each (names cs) cs

-- visited, tempVisited and order
pub record Visits : Type 0 where
  pub visited : List String
  pub temp_visited : List String
  pub order : List String

-- `none` is out of fuel.
abbrev pub go_on :
    Option (Result Visits) → (Visits → Option (Result Visits)) → Option (Result Visits)
go_on none k = none
go_on (some (err e)) k = some (err e)
go_on (some (ok s)) k = k s

-- The loop over a component's dependencies, and that over the components.
abbrev pub visit_each :
    (Visits → String → Option (Result Visits)) → Visits → List String → Option (Result Visits)
visit_each go s [] = some (ok s)
visit_each go s (d ∷ ds) = go_on (go s d) (λ s'. visit_each go s' ds)

unfoldable pub finish : String → Visits → Visits
unfolding without
finish name s = record {
  visited = s.visited ++ name ∷ [];
  temp_visited = without name s.temp_visited;
  order = s.order ++ name ∷ [];
}

abbrev pub circular : String → Err
circular name = plain "circular dependency detected involving %s" (name ∷ [])

abbrev pub enter :
    (Visits → String → Option (Result Visits))
    → String
    → Visits
    → Option Component
    → Option (Result Visits)
enter go name s none = some (err (plain "component %s not found" (name ∷ [])))
enter go name s (some c) =
    go_on (visit_each go (record s { temp_visited = name ∷ s.temp_visited }) c.dependencies)
      (λ s'. some (ok (finish name s')))

-- The body of `visit`, where `go` is the recursive call.
unfoldable pub visit_body :
    List Component
    → (Visits → String → Option (Result Visits))
    → Visits
    → String
    → Option (Result Visits)
unfolding mem finish
visit_body cs go s name =
    if mem name s.temp_visited
    then some (err (circular name))
    else if mem name s.visited
    then some (ok s)
    else enter go name s (get_component_by_name cs name)

unfoldable pub visit : List Component → ℕ → Visits → String → Option (Result Visits)
unfolding visit_body
visit cs zero s name = none
visit cs (suc fuel) s name = visit_body cs (visit cs fuel) s name

abbrev pub unvisited : Visits
unvisited = record { visited = []; temp_visited = []; order = [] }

abbrev pub order_of : Option (Result Visits) → Option (Result (List String))
order_of none = none
order_of (some (err e)) = some (err e)
order_of (some (ok s)) = some (ok s.order)

unfoldable pub resolve_init_order : List Component → Option (Result (List String))
unfolding visit
resolve_init_order cs = order_of (visit_each (visit cs (suc (length cs))) unvisited (names cs))

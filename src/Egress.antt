-- ===== src/Egress.antt =====
-- internal/egress/egress.go: the output adapters by name, and the one that a session's source picks.
-- An adapter is its name, what its `Send` answers and its health; nil is `none`.
pub mod Routing
use heike.Prelude.{
  ℕ, String, Bool, true, false, Option, none, some, List, [], ◌∷◌, ◌==◌, if◌then◌else◌, Dict,
  lookup, insert, delete, length,
}
use heike.Errors.{
  Err, Result, ok, err, sentinel, of_category, wrapped, wrap, plain, conflict, invalid_input,
  not_found, internal, transient,
}
use heike.Ingress.Resolver.{SessionMeta}

pub record OutputAdapter : Type 0 where
  pub name : String
  pub send : String → String → Option Err
  pub health : Option Err

abbrev pub DefaultEgress : Type 0
DefaultEgress = Dict OutputAdapter

abbrev pub exists {ℓ} : {A : Type ℓ} → Option A → Bool
exists none = false
exists (some x) = true

unfoldable pub register : DefaultEgress → Option OutputAdapter → DefaultEgress × Option Err
unfolding lookup insert
register e none = (e, some (of_category invalid_input "adapter cannot be nil"))
register e (some a) =
    if a.name == ""
    then (e, some (of_category invalid_input "adapter name cannot be empty"))
    else if exists (lookup a.name e)
    then (e, some (sentinel conflict))
    else (insert a.name a e, none)

unfoldable pub unregister : DefaultEgress → String → DefaultEgress × Option Err
unfolding lookup delete
unregister e name =
    if exists (lookup name e)
    then (delete name e, none)
    else (e, some (of_category not_found "adapter not found"))

unfoldable pub get_adapter : DefaultEgress → String → Result OutputAdapter
unfolding lookup
get_adapter e name = elim (lookup name e) [
  | none ↦ err (of_category not_found "no adapter found for source")
  | some a ↦ ok a
]

-- What an adapter was handed.
pub record Delivery : Type 0 where
  pub adapter : String
  pub session : String
  pub content : String

unfoldable pub deliver : String → String → Result OutputAdapter → List Delivery × Option Err
deliver session content (err x) = ([], some x)
deliver session content (ok a) = (
  record { adapter = a.name; session = session; content = content } ∷ [],
  wrap (a.send session content) "failed to send response",
)

-- `Send` once the session's source is read from its metadata.
unfoldable pub with_source :
    DefaultEgress → String → String → Option String → List Delivery × Option Err
unfolding deliver get_adapter
with_source e session content none =
    ([], some (of_category invalid_input "session source metadata missing"))
with_source e session content (some source) =
    if source == ""
    then ([], some (of_category invalid_input "session source metadata missing"))
    else deliver session content (get_adapter e source)

-- `found` is the answer of the store's GetSession.
unfoldable pub send :
    DefaultEgress → Result (Option SessionMeta) → String → String → List Delivery × Option Err
unfolding with_source lookup
send e (err x) session content = ([], some (wrapped "%s: %w" ("failed to get session" ∷ []) x))
send e (ok none) session content = ([], some (of_category not_found "session not found"))
send e (ok (some m)) session content = with_source e session content (lookup "source" m.metadata)

unfoldable pub unhealthy : DefaultEgress → List String
unhealthy [] = []
unhealthy ((name, a) ∷ e) = elim (a.health) [ none ↦ unhealthy e | some x ↦ name ∷ unhealthy e ]

unfoldable pub health : DefaultEgress → Option Err
unfolding unhealthy
health [] = some (of_category internal "no adapters registered")
health (a ∷ e) = elim (unhealthy (a ∷ e)) [
  | [] ↦ none
  | n ∷ ns ↦ some (wrapped "%d adapter(s) unhealthy: %v: %w" (n ∷ ns) (sentinel transient))
]

-- ===== src/Ingress/Queues.antt =====
-- internal/ingress/ingress.go: `Submit` marks the event's key, routes it, resolves its workspace and
-- session, and puts it on one of two bounded queues. A queue is the list of its events, first in
-- first; what a consumer takes off while a submission waits is a step before that submission.
use heike.Prelude.{
  ℕ, String, Bool, true, false, Option, none, some, List, [], ◌∷◌, ◌++◌, ltb, leb, if◌then◌else◌,
  length,
}
use heike.Errors.{
  Err, Result, ok, err, sentinel, of_category, wrapped, invalid_input, duplicate_event, transient,
}
use heike.Idempotency
use heike.Idempotency.{check_and_mark}
use heike.Ingress.Event.{
  EventType, user_message, system_event, command, cron, other, Event, generate_idempotency_key,
  Destination, to_pipeline, to_drop, to_command, unknown,
}
use heike.Ingress.Resolver.{SessionIndex, Surroundings, resolve_workspace, resolve_session}

pub record Ingress : Type 0 where
  pub interactive : List Event
  pub background : List Event
  pub interactive_size : ℕ
  pub background_size : ℕ
  pub idempotency_ttl : ℕ
  pub keys : Idempotency.Store
  pub index : SessionIndex

-- 24h, in nanoseconds
abbrev pub default_ttl : ℕ
default_ttl = 86400000000000

-- Worker.CheckAndMarkKey; the save that it queues is a later step of the store.
unfoldable pub check_and_mark_key : Idempotency.Store → ℕ → String → ℕ → Idempotency.Store × Bool
unfolding check_and_mark
check_and_mark_key s now key ttl = check_and_mark s now key (if leb ttl 0 then default_ttl else ttl)

abbrev pub is_interactive : EventType → Bool
is_interactive user_message = true
is_interactive command = true
is_interactive system_event = false
is_interactive cron = false
is_interactive (other s) = false

-- The select on the interactive queue: `cancelled` is the error when its context's case is taken. With no
-- room until the timeout the event is dropped.
unfoldable pub enqueue_interactive : Ingress → Option Err → Event → Ingress × Option Err
enqueue_interactive i (some e) evt = (i, some e)
enqueue_interactive i none evt =
    if ltb (length i.interactive) i.interactive_size
    then (record i { interactive = i.interactive ++ evt ∷ [] }, none)
    else (i, some (sentinel transient))

unfoldable pub enqueue_background : Ingress → Event → Ingress × Option Err
enqueue_background i evt =
    if ltb (length i.background) i.background_size
    then (record i { background = i.background ++ evt ∷ [] }, none)
    else (i, some (sentinel transient))

unfoldable pub enqueue : Ingress → Option Err → Event → Ingress × Option Err
unfolding enqueue_interactive enqueue_background
enqueue i cancelled evt =
    if is_interactive evt.kind
    then enqueue_interactive i cancelled evt
    else enqueue_background i evt

-- The rest of `Submit` once the session is resolved.
unfoldable pub with_session :
    Ingress → Option Err → SessionIndex × Event × Result String → Ingress × Option Err
unfolding enqueue
with_session i cancelled (index, evt, err e) =
    (record i { index = index }, some (wrapped "%s: %w" ("session resolution failed" ∷ []) e))
with_session i cancelled (index, evt, ok session) =
    enqueue (record i { index = index }) cancelled (record evt { session_id = session })

-- The rest of `Submit` once the event is routed.
unfoldable pub dispatch :
    Ingress → Surroundings → Option Err → Event × Destination → Ingress × Option Err
unfolding with_session resolve_session resolve_workspace
dispatch i w cancelled (evt, to_drop) = (i, none)
dispatch i w cancelled (evt, to_command none) = (i, none)
dispatch i w cancelled (evt, to_command (some handler)) = (i, handler evt)
dispatch i w cancelled (evt, unknown) =
    (i, some (of_category invalid_input "unknown destination type"))
dispatch i w cancelled (evt, to_pipeline) =
    with_session i cancelled
      (resolve_session i.index w (record evt { workspace_id = resolve_workspace evt }))

-- `router` is the interface `Router`, of which `route` is the standard one. NewIngress sets it and the
-- resolver, and the ingress here has a store, so the guards against nil ones are left out.
unfoldable pub submit :
    (Event → Event × Destination)
    → Ingress
    → Surroundings
    → Option Err
    → Option Event
    → Ingress × Option Err
unfolding check_and_mark_key generate_idempotency_key dispatch
submit router i w cancelled none = (i, some (of_category invalid_input "event is nil"))
submit router i w cancelled (some evt) =
    let marked =
      check_and_mark_key i.keys w.now (generate_idempotency_key evt.source evt.id)
        i.idempotency_ttl in
    let i' = record i { keys = marked.0 } in
    if marked.1 then (i', some (sentinel duplicate_event)) else dispatch i' w cancelled (router evt)

-- ===== src/Ingress/Event.antt =====
-- internal/ingress/event.go and router.go: the normalised event and where it goes.
use Prim.Native.String.{◌++◌ as text_append}
use text.Mathlib.Text.{starts_with}
use heike.Prelude.{
  ℕ, String, not, Option, none, some, List, [], ◌∷◌, if◌then◌else◌, Dict, lookup, insert,
}
use heike.Errors.{Err}

pub data EventType : Type 0 where
  user_message system_event command cron : EventType
  other : String → EventType

pub record Event : Type 0 where
  pub id : String
  pub source : String
  pub workspace_id : String
  pub session_id : String
  pub kind : EventType
  pub content : String
  pub metadata : Dict String
  pub created_at : ℕ

-- "%s:%s"
unfoldable pub generate_idempotency_key : String → String → String
generate_idempotency_key source external_id = text_append source (text_append ":" external_id)

-- A command's handler.
abbrev pub Handler : Type 0
Handler = Event → Option Err

-- A command destination may have no handler.
pub data Destination : Type 0 where
  to_pipeline to_drop : Destination
  to_command : Option Handler → Destination
  unknown : Destination

pub record StandardRouter : Type 0 where
  pub commands : Dict Handler

unfoldable pub register_command : StandardRouter → String → Handler → StandardRouter
unfolding insert
register_command r name handler = record { commands = insert name handler r.commands }

-- The registered handler of a command's first word, or the pipeline with the event made a command.
unfoldable pub route_words : StandardRouter → Event → List String → Event × Destination
unfolding lookup
route_words r e [] = (e, to_pipeline)
route_words r e (cmd ∷ rest) = elim (lookup cmd r.commands) [
  | none ↦ (record e { kind = command }, to_pipeline)
  | some handler ↦ (e, to_command (some handler))
]

-- `Route` returns the event too, whose type it may change. `split` is `shlex.Split`, `none` on an
-- error.
unfoldable pub route :
    (String → Option (List String)) → StandardRouter → Event → Event × Destination
unfolding route_words
route split r e =
    if not (starts_with e.content "/")
    then (e, to_pipeline)
    else elim (split e.content) [ none ↦ (e, to_pipeline) | some words ↦ route_words r e words ]

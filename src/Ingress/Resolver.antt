-- ===== src/Ingress/Resolver.antt =====
-- internal/ingress/resolver.go, over the session index of internal/store/worker.go.
use Prim.Native.String.{◌++◌ as text_append}
use heike.Prelude.{ℕ, String, Bool, Option, none, some, ◌==◌, if◌then◌else◌, Dict, lookup, insert}
use heike.Errors.{Err, Result, ok, err, external}
use heike.Ingress.Event.{Event}

pub record SessionMeta : Type 0 where
  pub id : String
  pub title : String
  pub status : String
  pub created_at : ℕ
  pub updated_at : ℕ
  pub metadata : Dict String

-- The index in memory and its file.
pub record SessionIndex : Type 0 where
  pub sessions : Dict SessionMeta
  pub saved : Dict SessionMeta

-- What one submission finds outside: the time, a fresh ULID, and whether the index can be written.
pub record Surroundings : Type 0 where
  pub now : ℕ
  pub ulid : String
  pub writable : Bool

-- The store worker's OpGetSession and OpSaveSession.
unfoldable pub get_session : SessionIndex → String → Option SessionMeta
unfolding lookup
get_session s id = lookup id s.sessions

unfoldable pub save_session : SessionIndex → Bool → SessionMeta → SessionIndex × Option Err
unfolding insert
save_session s writable meta =
    let s' = record s { sessions = insert meta.id meta s.sessions } in
    if writable then (record s' { saved = s'.sessions }, none) else (s', some (external "write"))

-- A metadata value that is set and not empty.
unfoldable pub metadata_value : Dict String → String → Option String
unfolding lookup
metadata_value m key = elim (lookup key m) [
  | none ↦ none
  | some v ↦ if v == "" then none else some v
]

unfoldable pub resolve_workspace : Event → String
unfolding metadata_value
resolve_workspace e =
    if e.workspace_id == ""
    then elim (metadata_value e.metadata "workspace_id") [ none ↦ "default" | some ws ↦ ws ]
    else e.workspace_id

-- The `source` entry is filled in from the event.
unfoldable pub ensure_source : Event → Event
unfolding lookup insert
ensure_source e = elim (lookup "source" e.metadata) [
  | none ↦ record e { metadata = insert "source" e.source e.metadata }
  | some s ↦ e
]

abbrev pub or_text : Option String → String → String
or_text none d = d
or_text (some s) d = s

-- The session that a source implies, "" if none.
unfoldable pub implied_session : Event → String → String
unfolding metadata_value
implied_session e ulid =
    if e.source == "slack"
    then or_text (metadata_value e.metadata "thread_ts")
        (or_text (metadata_value e.metadata "channel_id") "")
    else if e.source == "telegram"
    then or_text (metadata_value e.metadata "chat_id") ""
    else if e.source == "scheduler"
    then text_append "scheduler:" (or_text (metadata_value e.metadata "workspace_id") "default")
    else if e.source == "cli"
    then text_append "cli:" ulid
    else ""

unfoldable pub ensure_session :
    SessionIndex → Surroundings → String → Dict String → String → SessionIndex × Option Err
unfolding get_session save_session
ensure_session s w id metadata title = elim (get_session s id) [
  | some meta ↦ (s, none)
  | none ↦ save_session s w.writable (record {
    id = id;
    title = title;
    status = "active";
    created_at = w.now;
    updated_at = w.now;
    metadata = metadata;
  })
]

-- The id and the title that `ResolveSession` settles on.
unfoldable pub choose_session : Event → String → String × String
unfolding implied_session
choose_session e ulid =
    if e.session_id == ""
    then (let id = implied_session e ulid in
        (if id == "" then text_append "sess_" ulid else id, "New Session"))
    else (e.session_id, text_append "Session " e.session_id)

abbrev pub or_error : Option Err → String → Result String
or_error none id = ok id
or_error (some e) id = err e

-- The event comes back with its `source` filled in.
unfoldable pub resolve_session :
    SessionIndex → Surroundings → Event → SessionIndex × Event × Result String
unfolding ensure_source choose_session ensure_session
resolve_session s w e =
    let e' = ensure_source e in
    let c = choose_session e' w.ulid in
    let r = ensure_session s w c.0 e'.metadata c.1 in (r.0, e', or_error r.1 c.0)

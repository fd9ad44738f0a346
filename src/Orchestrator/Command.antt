-- ===== src/Orchestrator/Command.antt =====
-- internal/orchestrator/command/handler.go: the slash commands.
use Prim.Native.String.{◌++◌ as text_append}
use text.Mathlib.Text.{starts_with}
use heike.Prelude.{
  ℕ, String, Bool, true, false, not, Option, none, some, List, [], ◌∷◌, ◌++◌, ◌==◌, if◌then◌else◌,
  trim_space, Dict, lookup, insert,
}
use heike.Errors.{Err, Result, ok, err, plain, wrapped}
use heike.Policy.{Engine, Library, World, resolve}
use heike.Ingress.Resolver.{SessionMeta, SessionIndex, get_session, save_session}
use heike.Store.Transcripts.{Files, reset_session}
use heike.Orchestrator.Session.{Json, Moment, append_interaction}

-- What the handler and the task manager share: the policy engine, the store's transcripts and index,
-- and the messages that were handed to the egress, by session.
pub record State : Type 0 where
  pub engine : Engine
  pub files : Files
  pub index : SessionIndex
  pub sent : List (String × String)

-- The libraries and what the handler was built with. `split` is shlex.Split, `none` on an error,
-- `fields` is strings.Fields, and `text` is the text of an error.
pub record Setup : Type 0 where
  pub policy_library : Library
  pub json : Json
  pub split : String → Option (List String)
  pub fields : String → List String
  pub text : Err → String
  pub max_bytes : ℕ
  pub has_policy : Bool
  pub has_store : Bool
  pub has_output : Bool

-- One call's surroundings: the time and disk, what a resolution finds, and the egress's answer.
pub record Instant : Type 0 where
  pub moment : Moment
  pub world : World
  pub send_error : Option Err

unfoldable pub can_handle : String → Bool
can_handle input = starts_with input "/"

abbrev pub output_prefix : String
output_prefix = "[CMD] "

unfoldable pub format_command_output : String → String
format_command_output msg =
    if starts_with msg output_prefix then msg else text_append output_prefix msg

abbrev pub or_default : Option String → String
or_default none = "cli"
or_default (some s) = if trim_space s == "" then "cli" else trim_space s

abbrev pub session_source_or_default : Option SessionMeta → String
session_source_or_default none = "cli"
session_source_or_default (some meta) = or_default (lookup "source" meta.metadata)

abbrev pub kept_title : Option SessionMeta → String → String
kept_title none id = text_append "Session " id
kept_title (some meta) id =
    if trim_space meta.title == "" then text_append "Session " id else meta.title

abbrev pub or_failed : Option Err → String → Result String
or_failed none message = ok message
or_failed (some e) message = err e

module _ (setup : Setup) where
  -- handleApprove and handleDeny
  unfoldable pub handle_resolution :
      State → Instant → Bool → String → (String → String) → List String → State × Result String
  unfolding resolve
  handle_resolution s t approve usage done [] = (s, ok usage)
  handle_resolution s t approve usage done (id ∷ rest) =
      if not setup.has_policy
      then (s, err (plain "policy engine not initialized" []))
      else (let r = resolve setup.policy_library s.engine t.world id approve in
          (record s { engine = r.0 }, or_failed r.1 (done id)))

  unfoldable pub handle_approve : State → Instant → List String → State × Result String
  unfolding handle_resolution
  handle_approve s t args =
      handle_resolution s t true "Usage: /approve <id>"
        (λ id. text_append "Approved: " (text_append id ". You can retry the action now.")) args

  unfoldable pub handle_deny : State → Instant → List String → State × Result String
  unfolding handle_resolution
  handle_deny s t args =
      handle_resolution s t false "Usage: /deny <id>" (λ id. text_append "Denied: " id) args

-- The session's entry after it was reset.
abbrev pub save_cleared :
    State
    → Instant
    → String
    → String
    → String
    → (Files × SessionIndex) × Option Err
    → State × Result String
save_cleared s t id title source ((files, index), some e) =
    (record s { files = files; index = index }, err e)
save_cleared s t id title source ((files, index), none) =
    let r = save_session index t.moment.disk.index_writable (record {
      id = id;
      title = title;
      status = "active";
      created_at = t.moment.now;
      updated_at = t.moment.now;
      metadata = ("source", source) ∷ [];
    }) in
    (record s { files = files; index = r.0 }, or_failed r.1 "Session cleared.")

abbrev pub new_meta : Instant → String → SessionMeta
new_meta t id = record {
  id = id;
  title = text_append "Session " id;
  status = "active";
  created_at = t.moment.now;
  updated_at = 0;
  metadata = ("source", "cli") ∷ [];
}

abbrev pub or_new : Option SessionMeta → SessionMeta → SessionMeta
or_new none new = new
or_new (some meta) new = meta

abbrev pub with_source : Dict String → Dict String
with_source m = elim (lookup "source" m) [
  | none ↦ insert "source" "cli" m
  | some s ↦ if trim_space s == "" then insert "source" "cli" m else m
]

abbrev pub with_model : Instant → String → SessionMeta → SessionMeta
with_model t name meta = record meta {
  metadata = insert "model" name (with_source meta.metadata);
  updated_at = t.moment.now;
}

module _ (setup : Setup) where
  unfoldable pub handle_clear : State → Instant → String → State × Result String
  unfolding get_session reset_session save_session trim_space lookup
  handle_clear s t id =
      if id == ""
      then (s, err (plain "session id is required" []))
      else if not setup.has_store
      then (s, err (plain "store not initialized" []))
      else save_cleared s t id (kept_title (get_session s.index id) id)
          (session_source_or_default (get_session s.index id))
          (reset_session s.files s.index t.moment.disk id)

  unfoldable pub handle_model : State → Instant → String → List String → State × Result String
  unfolding get_session save_session trim_space lookup insert
  handle_model s t id [] = (s, ok "Usage: /model <name>")
  handle_model s t id (name ∷ rest) =
      if id == ""
      then (s, err (plain "session id is required" []))
      else if not setup.has_store
      then (s, err (plain "store not initialized" []))
      else (let r =
            save_session s.index t.moment.disk.index_writable
              (with_model t name (or_new (get_session s.index id) (new_meta t id))) in
          (record s { index = r.0 }, or_failed r.1 (text_append "Model set to " name)))

  abbrev pub help_text : String
  help_text = "Available commands: /help, /model <name>, /clear, /approve <id>, /deny <id>"

  -- The switch on the command's name.
  unfoldable pub run_command :
      State → Instant → String → String → List String → State × Result String
  unfolding handle_approve handle_deny handle_clear handle_model
  run_command s t id cmd args =
      if cmd == "/approve"
      then handle_approve setup s t args
      else if cmd == "/deny"
      then handle_deny setup s t args
      else if cmd == "/clear"
      then handle_clear s t id
      else if cmd == "/model"
      then handle_model s t id args
      else if cmd == "/help"
      then (s, ok help_text)
      else (s, ok (text_append "Unknown command: " cmd))

  abbrev pub command_message : Result String → String
  command_message (ok msg) = msg
  command_message (err e) = text_append "Command failed: " (setup.text e)

  -- The message goes to the transcript, and then to the output.
  unfoldable pub answer_command : State → Instant → String → String → State × Option Err
  unfolding append_interaction format_command_output
  answer_command s t id msg =
      let r = append_interaction setup.json setup.max_bytes s.files t.moment id "system" msg in
      let s' = record s { files = r.0 } in
      elim r.1 [
        | some e ↦ (s', some e)
        | none ↦ if not setup.has_output then (s', none) else (
          record s' { sent = s.sent ++ (id, format_command_output msg) ∷ [] },
          elim t.send_error [
            | some e ↦ some (wrapped "send command output: %w" [] e)
            | none ↦ none
          ],
        )
      ]

  abbrev pub command_words : String → List String
  command_words input = elim (setup.split input) [ none ↦ setup.fields input | some words ↦ words ]

  unfoldable pub execute_words : State → Instant → String → List String → State × Option Err
  unfolding run_command answer_command
  execute_words s t id [] = (s, none)
  execute_words s t id (cmd ∷ args) =
      let r = run_command s t id cmd args in answer_command r.0 t id (command_message r.1)

  unfoldable pub execute_command : State → Instant → String → String → State × Option Err
  unfolding execute_words
  execute_command s t id input = execute_words s t id (command_words input)

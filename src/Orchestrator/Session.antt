-- ===== src/Orchestrator/Session.antt =====
-- internal/orchestrator/session: the events of a session's history, kept as lines of its transcript.
-- The metadata of an event is left out: nothing in the package sets it.
use heike.Prelude.{ℕ, String, Option, none, some, List, [], ◌∷◌, ◌==◌, if◌then◌else◌}
use heike.Errors.{Err, Result, ok, err, wrapped}
use heike.Cognitive.Context.{Context, Message, ToolCall}
use heike.Store.Transcripts.{Files, Disk, append_transcript, read_transcript}

pub data EventType : Type 0 where
  user assistant tool system : EventType
  other : String → EventType

pub record SessionEvent : Type 0 where
  pub id : String
  pub timestamp : ℕ
  pub kind : EventType
  pub role : String
  pub content : String
  pub tool_calls : List ToolCall
  pub tool_call_id : String

-- encoding/json on a session's events; `none` is an error of Unmarshal.
pub record Json : Type 0 where
  pub marshal : SessionEvent → Result (List ℕ)
  pub unmarshal : List ℕ → Option SessionEvent

-- What one call finds outside: a fresh ULID, the time and the disk.
pub record Moment : Type 0 where
  pub ulid : String
  pub now : ℕ
  pub disk : Disk

abbrev pub to_message : SessionEvent → Message
to_message e = record {
  role = e.role;
  content = e.content;
  tool_call_id = e.tool_call_id;
  tool_calls = e.tool_calls;
}

-- EventType(role), and the switch behind it.
abbrev pub event_type : String → EventType
event_type role =
    if role == "system"
    then system
    else if role == "user"
    then user
    else if role == "assistant"
    then assistant
    else other role

abbrev pub interaction : Moment → String → String → SessionEvent
interaction m role content = record {
  id = m.ulid;
  timestamp = m.now;
  kind = event_type role;
  role = role;
  content = content;
  tool_calls = [];
  tool_call_id = "";
}

abbrev pub tool_event : Moment → String → String → SessionEvent
tool_event m tool_call_id content = record {
  id = m.ulid;
  timestamp = m.now;
  kind = tool;
  role = "tool";
  content = content;
  tool_calls = [];
  tool_call_id = tool_call_id;
}

-- store.WriteTranscript of a marshalled event.
abbrev pub write_line : Files → ℕ → Disk → String → String → Result (List ℕ) → Files × Option Err
write_line f max_bytes disk id failure (err e) = (f, some (wrapped failure [] e))
write_line f max_bytes disk id failure (ok line) = append_transcript f max_bytes disk id line

module _ (json : Json) (max_bytes : ℕ) where
  unfoldable pub append_interaction : Files → Moment → String → String → String → Files × Option Err
  unfolding append_transcript
  append_interaction f m id role content =
      write_line f max_bytes m.disk id "marshal failed: %w"
        (json.marshal (interaction m role content))

  unfoldable pub persist_tool : Files → Moment → String → String → String → Files × Option Err
  unfolding append_transcript
  persist_tool f m id tool_call_id content =
      write_line f max_bytes m.disk id "marshal tool failed: %w"
        (json.marshal (tool_event m tool_call_id content))

-- Lines that do not decode are left out.
abbrev pub add_message : Option SessionEvent → List Message → List Message
add_message none rest = rest
add_message (some e) rest = to_message e ∷ rest

unfoldable pub parse_history_lines : Json → List (List ℕ) → List Message
parse_history_lines json [] = []
parse_history_lines json (line ∷ lines) =
    add_message (json.unmarshal line) (parse_history_lines json lines)

-- The lines that were read, none after an error.
abbrev pub lines_read : Result (List (List ℕ)) → List (List ℕ)
lines_read (ok lines) = lines
lines_read (err e) = []

abbrev pub last_content : List Message → String
last_content [] = ""
last_content (m ∷ []) = m.content
last_content (m ∷ k ∷ ms) = last_content (k ∷ ms)

abbrev pub facts : Result (List String) → List String
facts (ok l) = l
facts (err e) = []

-- The memories for the last message; there may be no memory manager.
abbrev pub memories_for : Option (String → Result (List String)) → String → List String
memories_for none query = []
memories_for (some retrieve) query = if query == "" then [] else facts (retrieve query)

abbrev pub new_context : String → List Message → List String → Context
new_context id history memories = record {
  session_id = id;
  workspace_id = "";
  available_skills = [];
  history = history;
  memories = memories;
  scratchpad = [];
  current_plan = none;
  metadata = [];
  token_budget = 0;
  token_usage = 0;
}

unfoldable pub get_context :
    Json → Option (String → Result (List String)) → ℕ → Files → Moment → String → Context
unfolding read_transcript parse_history_lines
get_context json memory history_limit f m id =
    let history =
      parse_history_lines json (lines_read (read_transcript f m.disk id history_limit)) in
    new_context id history (memories_for memory (last_content history))

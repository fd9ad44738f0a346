-- ===== src/Examples/Requests.antt =====
-- The kernel on a message, a long request and a command.
use mathlib.Core.List.Perm
use heike.Prelude.{
  String, ℕ, ◌≤◌, ◌≡◌, refl, true, false, Option, none, some, List, [], ◌∷◌, map, arith, ◌==◌, eqb,
  if◌then◌else◌, Any, lookup, mem, is_space, trim_space,
}
use heike.Errors.{Err, ok, wrapped}
use heike.Policy.{is_granted, extract_host_from_input}
use heike.Cognitive.Context.{ToolCall, Context, Plan}
use heike.Cognitive.Engine.{Pass, ended, again, pass, thinking, acting, reflecting}
use heike.Cognitive.Engine.Keeping.{Extends, here, onward, Reaches}
use heike.Examples.Thinking.{stubborn}
use heike.Ingress.Event.{Event, user_message, command}
use heike.Store.Lines.{unlines, trim_back}
use heike.Store.Transcripts.{size, last_lines}
use heike.Store.RoundTrip.{lines_of}
use heike.Orchestrator.Session.{SessionEvent, Json, Moment, interaction, get_context}
use heike.Orchestrator.History.{Saying, Faithful, said, writes, converse, get_context-said}
use heike.Orchestrator.Skills.{Skill, Provider, Texts, select_skills}
use heike.Orchestrator.Command.{State, Setup, Instant, can_handle, execute_command}
use heike.Orchestrator.Tools.{score_capability, score_tools, select_with_metadata}
use heike.Orchestrator.Tools.Catalog.{
  find, build_capability_catalog, Descriptor, Words, low, medium,
}
use heike.Orchestrator.Tools.Choosing.{IsBest, Ordered, select_with_metadata-IsBest}
use heike.Orchestrator.Requests.{
  offered, Parts, Times, request_context, execute_complex_task, answer_run, handle_request,
}
use heike.Orchestrator.Requests.Replies.{Replied, IsSilent, handle_request-Replied}
use heike.Orchestrator.Requests.Budget.{request_context-unpruned}
use heike.Orchestrator.Requests.Truncation.{execute_complex_task-truncated}
use heike.Orchestrator.Kernel.{is_slash, keep_message, execute, execute_all}
use heike.Orchestrator.Kernel.Approvals.{Approves, IsUngranting, execute_all-approved}
use heike.Orchestrator.Kernel.Answers.{execute-asked}
use heike.Examples.Tools.{decode as accepts}
use heike.Examples.Governance.{plain_library, world, asking_engine}
use heike.Examples.Subtasks.{tasks, as_is, as_is-IsSorting, env}
use heike.Examples.Transcripts.{disk, disk-IsQuiet, no_files}

abbrev moment : Moment
moment = record { ulid = "e1"; now = 7; disk = disk }

abbrev greeting : Saying
greeting = (moment, "assistant", "Hello.")

abbrev question : Saying
question = (moment, "user", "What time is it?")

abbrev event_of : Saying → SessionEvent
event_of (m, role, content) = interaction m role content

-- The two events are [1] and [2].
abbrev line : SessionEvent → List ℕ
line e = if e.role == "assistant" then 91 ∷ 49 ∷ 93 ∷ [] else 91 ∷ 50 ∷ 93 ∷ []

abbrev decode : List ℕ → Option SessionEvent
decode [] = none
decode (a ∷ []) = none
decode (a ∷ b ∷ rest) = if eqb b 49 then some (event_of greeting) else some (event_of question)

abbrev json : Json
json = record { marshal = λ e. ok (line e); unmarshal = decode }

abbrev talk : List Saying
talk = greeting ∷ question ∷ []

talk-Faithful : Faithful json line talk
unfolding trim_back is_space
talk-Faithful = (
  record {
    marshal = refl;
    unmarshal = refl;
    proper = record { one_line = refl; not_empty = refl; front = refl; back = refl };
  },
  (
    record {
      marshal = refl;
      unmarshal = refl;
      proper = record { one_line = refl; not_empty = refl; front = refl; back = refl };
    },
    tt,
  ),
)

nothing_kept : lookup "s1" no_files.transcripts ≡ none
unfolding lookup
nothing_kept = refl

talk_small : size (unlines (lines_of (writes line talk))) ≤ 1000
talk_small = omega arith

get_context-said_example :
    (get_context json none 10 (converse json 1000 "s1" no_files talk) moment "s1").history
    ≡ last_lines 10 (said talk)
get_context-said_example =
    get_context-said json none 1000 10 "s1" no_files talk moment line talk-Faithful nothing_kept
      (disk-IsQuiet, (disk-IsQuiet, tt)) disk-IsQuiet talk_small

-- The words of the one command.
abbrev setup : Setup
setup = record {
  policy_library = plain_library;
  json = json;
  split = λ s. some ("/approve" ∷ "a1" ∷ []);
  fields = λ s. s ∷ [];
  text = λ e. "failed";
  max_bytes = 1000;
  has_policy = true;
  has_store = true;
  has_output = true;
}

abbrev review : Skill
review = record {
  name = "review";
  description = "";
  tools = [];
  tags = [];
  content = "Read it twice.";
}

abbrev provider : Provider
provider = record {
  get = λ name. ok (some (record review { name = name }));
  get_relevant = λ query n. ok (some review ∷ some review ∷ none ∷ []);
}

abbrev texts : Texts
texts = record { matches = λ goal. "review" ∷ "write" ∷ []; words = λ s. s ∷ []; to_lower = λ s. s }

one_of_each :
    select_skills texts (some provider) "" 4
    ≡ (review ∷ record review { name = "write" } ∷ [], none)
unfolding select_skills is_space trim_space
one_of_each = refl

abbrev words : Words
words = record {
  to_lower = λ s. s;
  fields = λ s. s ∷ [];
  sorted = λ l. l;
  builtin_names = "time" ∷ [];
}

abbrev clock : Descriptor
clock = record { name = "time"; description = ""; source = ""; capabilities = []; risk = low }

abbrev writer : Descriptor
writer = record clock { name = "patch"; risk = medium }

abbrev one : ℕ → String
one n = "1"

abbrev tools : List Descriptor
tools = clock ∷ writer ∷ []

-- The candidates of this goal are in order as they are.
clock_first : Ordered words one (score_tools words one tools "time" tools)
unfolding is_space trim_space score_capability find build_capability_catalog
clock_first = ((refl, tt), (tt, tt))

select_with_metadata-IsBest_example :
    IsBest words one 1
      (score_tools words one tools "time" tools)
      (select_with_metadata words one (λ less l. l) 1 "time" tools)
select_with_metadata-IsBest_example =
    select_with_metadata-IsBest words one (λ less l. l) 1 "time" tools (Perm.refl _) clock_first
      (omega arith) (omega arith)

-- An engine that answers every goal, and a decomposition of three subtasks.
abbrev parts : Parts
parts = record {
  run = λ goal tools option s. (s, ok "It is noon.");
  tasks = λ tools c s. env;
  after_tasks = λ tools c s ts. s;
  should_decompose = λ goal. goal == "long";
  decompose = λ goal s. ok (map some tasks);
  texts = texts;
  words = words;
  sort = λ less l. l;
  tools = clock ∷ writer ∷ [];
  max_tools = some 1;
  skills = some provider;
  memory = none;
  sorted = as_is;
  decimal = λ n. "2";
  history_limit = 10;
  retry_max = 1;
  max_sub_tasks = 2;
}

abbrev instant : Instant
instant = record { moment = moment; world = world; send_error = none }

abbrev times : Times
times = record { asking = moment; loading = moment; noting = moment; answering = instant }

abbrev state : State
state = record {
  engine = asking_engine;
  files = no_files;
  index = record { sessions = []; saved = [] };
  sent = [];
}

-- The first of the subtasks depends on the one that is cut off.
execute_complex_task-truncated_example :
    (s' : State) × (e : Err) × (execute_complex_task setup parts state times "s1"
        (request_context setup parts state times "s1" "long")
        "long"
      ≡ some (s', some (wrapped "DAG execution failed: %w" [] e)))
    × (s'.sent ≡ state.sent)
unfolding mem
execute_complex_task-truncated_example =
    execute_complex_task-truncated setup parts state times "s1"
      (request_context setup parts state times "s1" "long") "long" tasks "merge" "read"
      as_is-IsSorting (λ tools c s ts. refl) refl (omega arith) refl refl

parts-IsSilent : IsSilent parts
parts-IsSilent = record { runs = λ goal tools option s. refl; tasks = λ tools c s ts. refl }

abbrev answered : State × Option Err
answered = answer_run setup parts times "s1" (state, ok "It is noon.")

handled : handle_request setup parts state times "s1" "time" ≡ some answered
unfolding handle_request
handled = refl

handle_request-Replied_example : Replied "s1" state.sent answered
handle_request-Replied_example =
    handle_request-Replied setup refl parts parts-IsSilent state times "s1" "time" answered handled

abbrev opened : Context
opened = request_context setup parts state times "s1" "time"

abbrev no_plan : Plan
no_plan = record { steps = []; raw = "" }

-- The context that a pass hands on.
abbrev context_of : Pass (Unit {0}) → Context → Context
context_of (ended phases facts outcome w) c = c
context_of (again phases facts i tries c w) c' = c

abbrev first_pass : Pass (Unit {0})
first_pass = pass stubborn "time" 0 0 (record opened { current_plan = some no_plan }) tt

abbrev passed : Context
passed = context_of first_pass opened

one_pass : Reaches stubborn "time" 0 0 (record opened { current_plan = some no_plan }) tt passed
unfolding pass
one_pass =
    onward 0 0 0 1 (record opened { current_plan = some no_plan }) passed passed tt tt
      (thinking ∷ acting ∷ reflecting ∷ []) [] refl (here 0 1 passed tt)

request_context-unpruned_example : Extends opened passed
request_context-unpruned_example =
    request_context-unpruned stubborn setup parts state times "s1" "time" no_plan tt passed one_pass

abbrev event : Event
event = record {
  id = "e1";
  source = "cli";
  workspace_id = "";
  session_id = "s1";
  kind = user_message;
  content = "What time is it?";
  metadata = [];
  created_at = 7;
}

abbrev greeted : State
greeted = record state { files = converse json 1000 "s1" no_files (greeting ∷ []) }

plain_text : can_handle event.content ≡ false
unfolding can_handle
plain_text = refl

execute-asked_example :
    (c : Context) × (execute setup parts greeted times event
      ≡ some (
          answer_run setup parts times "s1" (
            parts.run event.content
              (offered parts event.content)
              (λ (fresh : Context). c)
              (keep_message setup parts greeted times event))))
    × (c.history ≡ last_lines 10 (said talk))
execute-asked_example =
    execute-asked setup parts greeted times event no_files (greeting ∷ []) line talk-Faithful
      nothing_kept refl (disk-IsQuiet, (disk-IsQuiet, tt)) disk-IsQuiet talk_small refl plain_text
      refl

abbrev approving : Event
approving = record event { kind = command; content = "/approve a1" }

abbrev approved : State
approved = (execute_command setup state instant "s1" "/approve a1").0

executed : execute_all setup parts state ((times, approving) ∷ []) ≡ some approved
unfolding execute_all is_slash
executed = refl

granted_after : is_granted approved.engine "a1" ≡ true
unfolding is_granted execute_command is_space extract_host_from_input
granted_after = refl

granted_before : is_granted state.engine "a1" ≡ false
unfolding is_granted
granted_before = refl

parts-IsUngranting : IsUngranting parts
parts-IsUngranting = record { runs = λ goal tools option s id h. h; tasks = λ tools c s ts id h. h }

execute_all-approved_example : Any (Approves setup "a1") ((times, approving) ∷ [])
execute_all-approved_example =
    execute_all-approved setup parts parts-IsUngranting state ((times, approving) ∷ []) "a1"
      approved executed granted_before granted_after

abbrev call : ToolCall
call = record { id = "c1"; name = "exec"; input = "ls" }

-- ===== src/Examples/Events.antt =====
-- Submissions of concrete events.
use heike.Prelude.{
  lookup, insert, ℕ, ◌≡◌, refl, true, Option, none, some, List, [], ◌∷◌, arith, String,
}
use heike.Errors.{sentinel, duplicate_event}
use heike.Idempotency.{check_and_mark, mark_found, seconds}
use heike.Ingress.Event.{generate_idempotency_key, Event, user_message, system_event, route}
use heike.Ingress.Resolver.{
  resolve_session, resolve_workspace, ensure_source, choose_session, implied_session,
  ensure_session, get_session, save_session, Surroundings,
}
use heike.Ingress.Acceptance.{IsAccepted, submit-IsAccepted}
use heike.Ingress.Queues.{
  dispatch, with_session, enqueue, enqueue_interactive, Ingress, submit, check_and_mark_key,
}
use heike.Ingress.Delivery.{Router, Submission, submit_all, submitted_once}

abbrev hello : Event
hello = record {
  id = "7";
  source = "cli";
  workspace_id = "";
  session_id = "";
  kind = user_message;
  content = "hello";
  metadata = [];
  created_at = 0;
}

abbrev beat : Event
beat = record hello { id = "8"; kind = system_event }

abbrev no_split : String → Option (List String)
no_split s = none

abbrev standard : Router
standard = route no_split (record { commands = [] })

-- A queue for one interactive event and no room in the background.
abbrev small : Ingress
small = record {
  interactive = [];
  background = [];
  interactive_size = 1;
  background_size = 0;
  idempotency_ttl = 60000000000;
  keys = record { keys = []; saved = [] };
  index = record { sessions = []; saved = [] };
}

abbrev at : ℕ → Surroundings
at n = record { now = n; ulid = "01J"; writable = true }

abbrev between : List Submission
between = record { surroundings = at 120; cancelled = none; event = some beat } ∷ []

submitted_once_example :
    let i = submit_all standard (submit standard small (at 100) none (some hello)).0 between in
    submit standard i (at 130) none (some hello) ≡ (i, some (sentinel duplicate_event))
submitted_once_example =
    submitted_once standard small (at 100) (at 130) none none hello hello between tt
      (unfold check_and_mark_key check_and_mark mark_found lookup in refl) refl refl
      (unfold seconds in omega arith) (unfold seconds in omega arith)

submit-IsAccepted_example :
    (q : Event) × IsAccepted small (submit standard small (at 100) none (some hello)).0 hello q
submit-IsAccepted_example =
    submit-IsAccepted standard small (at 100) none hello hello
      (unfold check_and_mark_key check_and_mark mark_found lookup in refl) (unfold route in refl)
      (unfold submit dispatch route check_and_mark_key check_and_mark mark_found lookup
          resolve_session ensure_source choose_session implied_session ensure_session get_session
          save_session with_session enqueue enqueue_interactive generate_idempotency_key
          resolve_workspace insert in
        refl)

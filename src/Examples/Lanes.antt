-- ===== src/Examples/Lanes.antt =====
-- Two workers and one session.
use heike.Prelude.{◌≢◌, arith, ◌≡◌, ◌⊎◌, refl, true, some, [], ◌∷◌, lookup, insert}
use heike.Ingress.Event.{Event, user_message}
use heike.Lane.{
  LockManager, find_lock, take_lock, validate_event, waiting_for_event, at_lock, executing, Lanes,
  move, take_event, get_lock, Reachable, idle, next,
}
use heike.Lane.Exclusion.{sessions_exclusive, lock_available, IsExecuted}

abbrev question : Event
question = record {
  id = "1";
  source = "cli";
  workspace_id = "default";
  session_id = "s";
  kind = user_message;
  content = "";
  metadata = [];
  created_at = 0;
}

abbrev at_rest : Lanes
at_rest = record { locks = []; stages = λ w. waiting_for_event }

abbrev one_taken : Lanes
one_taken = record { locks = find_lock [] "s"; stages = move at_rest.stages 1 (at_lock question) }

abbrev one_executing : Lanes
one_executing = record {
  locks = ("s", true) ∷ [];
  stages = move one_taken.stages 1 (executing question);
}

abbrev one_waiting : Lanes
one_waiting = record {
  locks = find_lock one_executing.locks "s";
  stages = move one_executing.stages 2 (at_lock question);
}

one_executing-Reachable : Reachable one_executing
one_executing-Reachable =
    next one_taken one_executing
      (next at_rest one_taken idle
        (take_event at_rest 1 question refl (unfold validate_event in refl)))
      (get_lock one_taken 1 question (("s", true) ∷ []) refl
        (unfold take_lock find_lock lookup insert in refl))

abbrev answer : Event
answer = record question { id = "2"; session_id = "t" }

abbrev other_taken : Lanes
other_taken = record {
  locks = find_lock one_executing.locks "t";
  stages = move one_executing.stages 2 (at_lock answer);
}

abbrev both_executing : Lanes
both_executing = record {
  locks = ("s", true) ∷ ("t", true) ∷ [];
  stages = move other_taken.stages 2 (executing answer);
}

both_executing-Reachable : Reachable both_executing
both_executing-Reachable =
    next other_taken both_executing
      (next one_executing other_taken one_executing-Reachable
        (take_event one_executing 2 answer refl (unfold validate_event in refl)))
      (get_lock other_taken 2 answer (("s", true) ∷ ("t", true) ∷ []) refl
        (unfold take_lock find_lock lookup insert in refl))

sessions_exclusive_example : question.session_id ≢ answer.session_id
sessions_exclusive_example =
    sessions_exclusive both_executing 1 2 question answer both_executing-Reachable
      (λ e. omega (arith, e)) refl refl

lock_available_example :
    ((m : LockManager) × (take_lock one_waiting.locks "s" ≡ some m)) ⊎ IsExecuted one_waiting "s"
lock_available_example =
    lock_available one_waiting 2 question
      (next one_executing one_waiting one_executing-Reachable
        (take_event one_executing 2 question refl (unfold validate_event in refl)))
      refl

-- ===== src/Orchestrator/Requests/Replies.antt =====
-- What a request does to the messages sent, and the context that it runs in.
use Prim.Native.String.{◌++◌ as text_append}
use mathlib.Core.Path.{subst}
use heike.Prelude.{
  String, ◌≡◌, ◌⊎◌, refl, inl, inr, true, Option, none, some, List, [], ◌∷◌, ◌++◌, arith,
  Bool-cases, length,
}
use heike.Errors.{Err, Result, ok, err, wrapped}
use heike.Cognitive.Context.{Context}
use heike.Orchestrator.Batches.{SubTask}
use heike.Orchestrator.Dag.{SubTaskResult, execute_dag}
use heike.Orchestrator.Session.{append_interaction}
use heike.Orchestrator.Command.{State, Setup, Instant}
use heike.Orchestrator.Tools.Catalog.{Descriptor}
use heike.Orchestrator.Requests.{
  offered, Parts, Times, truncate, persist_and_send, unless_lost, results_text, answer_tasks,
  answer_run, note_decomposition, with_tasks, execute_simple_task, execute_complex_task,
  request_context, handle_request,
}

-- The messages sent grew by one for the session, with no error or with that of the output; or they
-- are the same and there is an error.
abbrev pub Replied : String → List (String × String) → State × Option Err → Type 0
Replied id before (s, e) =
    ((content : String) × (s.sent ≡ before ++ (id, content) ∷ []))
    ⊎ ((s.sent ≡ before) × ((error : Err) × (e ≡ some error)))

-- The engine's own runs send nothing.
pub record IsSilent (parts : Parts) : Type 0 where
  pub runs :
      (goal : String) (tools : List Descriptor) (option : Context → Context) (s : State)
      → (parts.run goal tools option s).0.sent ≡ s.sent
  pub tasks :
      (tools : List Descriptor) (c : Context) (s : State) (ts : List (Option SubTask))
      → (parts.after_tasks tools c s ts).sent ≡ s.sent

abbrev IsReplying : String → Type 0
IsReplying role = (role ≡ "assistant") ⊎ (role ≡ "system")

module _ (setup : Setup) (output : setup.has_output ≡ true) where
  unless_lost-Replied :
      (s : State) (t : Instant) (id role content : String) (lost : Option Err)
      → IsReplying role
      → Replied id s.sent (unless_lost setup s t id role content lost)
  unless_lost-Replied s t id role content (some e) r = inr (refl, (e, refl))
  unless_lost-Replied s t id role content none (inl a) =
      inl (content, rw (a, unless_lost) (rw output refl))
  unless_lost-Replied s t id role content none (inr a) =
      inl (content, rw (a, unless_lost) (rw output refl))

  persist_and_send-Replied :
      (s : State) (t : Instant) (id role content : String) (before : List (String × String))
      → IsReplying role
      → s.sent ≡ before
      → Replied id before (persist_and_send setup s t id role content)
  unfolding persist_and_send
  persist_and_send-Replied s t id role content before r same =
      let a = append_interaction setup.json setup.max_bytes s.files t.moment id role content in
      rw (← same) (unless_lost-Replied (record s { files = a.0 }) t id role content a.1 r)

  module _ (parts : Parts) (silent : IsSilent parts) where
    answer_run-Replied :
        (t : Times) (id : String) (before : List (String × String)) (r : State × Result String)
        → r.0.sent ≡ before
        → Replied id before (answer_run setup parts t id r)
    answer_run-Replied t id before (s, ok content) same =
        persist_and_send-Replied s t.answering id "assistant" content before (inl refl) same
    answer_run-Replied t id before (s, err e) same =
        persist_and_send-Replied s t.answering id "system" (text_append "Error: " (setup.text e))
          before (inr refl) same

    execute_simple_task-Replied :
        (s : State) (t : Times) (id : String) (c : Context) (goal : String)
        → Replied id s.sent (execute_simple_task setup parts s t id c goal)
    unfolding execute_simple_task
    execute_simple_task-Replied s t id c goal =
        answer_run-Replied t id s.sent
          (parts.run goal (offered parts goal) (λ (fresh : Context). c) s)
          (silent.runs goal (offered parts goal) (λ (fresh : Context). c) s)

    answer_tasks-Replied :
        (s : State) (t : Times) (id : String) (before : List (String × String))
        (rs : Option (Result (List SubTaskResult))) (r : State × Option Err)
        → s.sent ≡ before
        → answer_tasks setup parts s t id rs ≡ some r
        → Replied id before r
    answer_tasks-Replied s t id before none r same h = ground (arith, h)
    answer_tasks-Replied s t id before (some (err e)) r same h =
        let it : (s, some (wrapped "DAG execution failed: %w" [] e)) ≡ r = ground (arith, h) in
        subst (Replied id before) it (inr (same, (wrapped "DAG execution failed: %w" [] e, refl)))
    answer_tasks-Replied s t id before (some (ok rs)) r same h =
        let it : persist_and_send setup s t.answering id "assistant" (results_text setup.text rs)
            ≡ r =
          ground (arith, h) in
        subst (Replied id before) it (
          persist_and_send-Replied s t.answering id "assistant" (results_text setup.text rs) before
            (inl refl) same)

    with_tasks-Replied :
        (s : State) (t : Times) (id : String) (c : Context) (tools : List Descriptor)
        (ts : Result (List (Option SubTask))) (r : State × Option Err)
        → with_tasks setup parts s t id c tools ts ≡ some r
        → Replied id s.sent r
    with_tasks-Replied s t id c tools (err e) r h =
        let it : (s, some e) ≡ r = ground (arith, h) in
        subst (Replied id s.sent) it (inr (refl, (e, refl)))
    with_tasks-Replied s t id c tools (ok ts) r h =
        let cut = truncate parts.max_sub_tasks ts in
        let noted = note_decomposition setup parts s t id (length cut) in
        answer_tasks-Replied (parts.after_tasks tools c noted cut) t id s.sent
          (execute_dag parts.sorted (parts.tasks tools c noted) parts.retry_max cut) r
          (silent.tasks tools c noted cut) h

    -- Where there is an output to send to, and the runs of the engine, whole or for a subtask, send
    -- nothing themselves, a request that ends sends exactly one message, to its own session, or it
    -- sends none and ends with an error, whichever way it takes and whatever the decomposer answers.
    pub handle_request-Replied :
        (s : State) (t : Times) (id goal : String) (r : State × Option Err)
        → handle_request setup parts s t id goal ≡ some r
        → Replied id s.sent r
    unfolding handle_request execute_complex_task
    handle_request-Replied s t id goal r h =
        let c = request_context setup parts s t id goal in
        elim (Bool-cases (parts.should_decompose goal)) [
          | inl complex ↦
              with_tasks-Replied s t id c (offered parts goal) (parts.decompose goal s) r
                (rw complex at h)
          | inr simple ↦
              let it : execute_simple_task setup parts s t id c goal ≡ r =
                ground (arith, h, simple) in
              subst (Replied id s.sent) it (execute_simple_task-Replied s t id c goal)
        ]

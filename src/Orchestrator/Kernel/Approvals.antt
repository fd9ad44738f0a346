-- ===== src/Orchestrator/Kernel/Approvals.antt =====
-- Who grants an approval: the policy engine's state over the events that the kernel executes.
use Prim.Native.String.{◌++◌ as text_append}
use heike.Prelude.{
  String, ◌≡◌, refl, ap, sym, ◌∙◌, inl, inr, true, false, Option, none, some, List, [], ◌∷◌, arith,
  Any, Bool-cases, Option-cases, ◌==◌, eq_iff, length,
}
use heike.Errors.{Err, Result, ok, err}
use heike.Policy.{Engine, is_granted}
use heike.Cognitive.Context.{Context}
use heike.Ingress.Event.{Event}
use heike.Orchestrator.Batches.{SubTask}
use heike.Orchestrator.Dag.{SubTaskResult, execute_dag}
use heike.Store.Transcripts.{Files, reset_session}
use heike.Ingress.Resolver.{SessionIndex, get_session}
use heike.Orchestrator.Command.{
  save_cleared, kept_title, session_source_or_default, command_message, State, Setup, Instant,
  handle_approve, handle_deny, handle_resolution, handle_clear, handle_model, run_command,
  answer_command, command_words, execute_words, execute_command,
}
use heike.Orchestrator.Tools.Catalog.{Descriptor}
use heike.Orchestrator.Requests.{
  offered, Parts, Times, truncate, results_text, persist_and_send, answer_run, answer_tasks,
  note_decomposition, with_tasks, execute_simple_task, execute_complex_task, request_context,
  handle_request,
}
use heike.Orchestrator.Kernel.{
  state_of, is_slash, is_user_message, keep_message, execute, execute_all,
}
use heike.Orchestrator.Kernel.Granting.{Ungranting, resolve-granted}

-- The engine's own runs grant nothing.
pub record IsUngranting (parts : Parts) : Type 0 where
  pub runs :
      (goal : String) (tools : List Descriptor) (option : Context → Context) (s : State)
      → Ungranting s.engine (parts.run goal tools option s).0.engine
  pub tasks :
      (tools : List Descriptor) (c : Context) (s : State) (ts : List (Option SubTask))
      → Ungranting s.engine (parts.after_tasks tools c s ts).engine

-- The event is the command that approves the id.
abbrev pub Approves : Setup → String → Times × Event → Type 0
Approves setup id (t, e) =
    (is_slash e ≡ true)
    × ((rest : List String) × (command_words setup e.content ≡ "/approve" ∷ id ∷ rest))

module _ (setup : Setup) where
  handle_approve-granted :
      (s : State) (t : Instant) (id : String) (args : List String)
      → is_granted s.engine id ≡ false
      → is_granted (handle_approve setup s t args).0.engine id ≡ true
      → (rest : List String) × (args ≡ id ∷ rest)
  unfolding handle_approve handle_resolution
  handle_approve-granted s t id [] f h = ground (arith, f, h)
  handle_approve-granted s t id (name ∷ rest) f h = (
    rest,
    ap (λ (x : String). x ∷ rest)
        (ground
          (arith, f, h, resolve-granted setup.policy_library s.engine t.world name id true f)),
  )

  handle_deny-Ungranting :
      (s : State) (t : Instant) (args : List String)
      → Ungranting s.engine (handle_deny setup s t args).0.engine
  unfolding handle_deny handle_resolution
  handle_deny-Ungranting s t [] id h = h
  handle_deny-Ungranting s t (name ∷ rest) id h = elim (Bool-cases (is_granted s.engine id)) [
    | inl was ↦ was
    | inr f ↦
        ground (arith, f, h, resolve-granted setup.policy_library s.engine t.world name id false f)
  ]

  same_engine-save_cleared :
      (s : State) (t : Instant) (id title source : String) (r : (Files × SessionIndex) × Option Err)
      → (save_cleared s t id title source r).0.engine ≡ s.engine
  same_engine-save_cleared s t id title source ((files, index), none) = refl
  same_engine-save_cleared s t id title source ((files, index), some e) = refl

  same_engine-clear :
      (s : State) (t : Instant) (id : String) → (handle_clear setup s t id).0.engine ≡ s.engine
  unfolding handle_clear
  same_engine-clear s t id = ground (
    arith,
    same_engine-save_cleared s t id (kept_title (get_session s.index id) id)
        (session_source_or_default (get_session s.index id))
        (reset_session s.files s.index t.moment.disk id),
  )

  same_engine-model :
      (s : State) (t : Instant) (id : String) (args : List String)
      → (handle_model setup s t id args).0.engine ≡ s.engine
  unfolding handle_model
  same_engine-model s t id [] = refl
  same_engine-model s t id (name ∷ rest) = ground arith

  same_engine-answer :
      (s : State) (t : Instant) (id message : String)
      → (answer_command setup s t id message).0.engine ≡ s.engine
  unfolding answer_command
  same_engine-answer s t id message = ground arith

  run_command-granted :
      (s : State) (t : Instant) (session cmd id : String) (args : List String)
      → is_granted s.engine id ≡ false
      → is_granted (run_command setup s t session cmd args).0.engine id ≡ true
      → (cmd ≡ "/approve") × ((rest : List String) × (args ≡ id ∷ rest))
  unfolding run_command
  run_command-granted s t session cmd id args f h = elim (Bool-cases (cmd == "/approve")) [
    | inl it ↦ (
      (eq_iff cmd "/approve").0 it,
      handle_approve-granted s t id args f (rw (it, run_command) at h),
    )
    | inr other ↦
        let deny = handle_deny-Ungranting s t args id in
        let clear = same_engine-clear s t session in
        let model = same_engine-model s t session args in
        absurd (ground (arith, f, h, other, deny, clear, model))
  ]

  execute_words-granted :
      (s : State) (t : Instant) (session id : String) (words : List String)
      → is_granted s.engine id ≡ false
      → is_granted (execute_words setup s t session words).0.engine id ≡ true
      → (rest : List String) × (words ≡ "/approve" ∷ id ∷ rest)
  unfolding execute_words
  execute_words-granted s t session id [] f h = ground (arith, f, h)
  execute_words-granted s t session id (cmd ∷ args) f h =
      let r = run_command setup s t session cmd args in
      let e = same_engine-answer r.0 t session (command_message setup r.1) in
      let g =
        run_command-granted s t session cmd id args f
          (sym (ap (λ (x : Engine). is_granted x id) e) ∙ h) in
      (g.1.0, ground (arith, g.0, g.1.1))

module _ (setup : Setup) (parts : Parts) (quiet : IsUngranting parts) where
  same_engine-persist :
      (s : State) (t : Instant) (id role content : String)
      → (persist_and_send setup s t id role content).0.engine ≡ s.engine
  unfolding persist_and_send
  same_engine-persist s t id role content = ground arith

  same_engine-answer_run :
      (t : Times) (id : String) (r : State × Result String)
      → (answer_run setup parts t id r).0.engine ≡ r.0.engine
  same_engine-answer_run t id (s, ok content) =
      same_engine-persist s t.answering id "assistant" content
  same_engine-answer_run t id (s, err e) =
      same_engine-persist s t.answering id "system" (text_append "Error: " (setup.text e))

  same_engine-answer_tasks :
      (s : State) (t : Times) (id : String) (rs : Option (Result (List SubTaskResult)))
      (r : State × Option Err)
      → answer_tasks setup parts s t id rs ≡ some r
      → r.0.engine ≡ s.engine
  same_engine-answer_tasks s t id none r h = ground (arith, h)
  same_engine-answer_tasks s t id (some (err e)) r h = ground (arith, h)
  same_engine-answer_tasks s t id (some (ok rs)) r h =
      ground
        (arith, h, same_engine-persist s t.answering id "assistant" (results_text setup.text rs))

  with_tasks-Ungranting :
      (s : State) (t : Times) (id : String) (c : Context) (tools : List Descriptor)
      (ts : Result (List (Option SubTask))) (r : State × Option Err)
      → with_tasks setup parts s t id c tools ts ≡ some r
      → Ungranting s.engine r.0.engine
  with_tasks-Ungranting s t id c tools (err e) r h x g = ground (arith, h, g)
  with_tasks-Ungranting s t id c tools (ok ts) r h x g =
      let cut = truncate parts.max_sub_tasks ts in
      let noted = note_decomposition setup parts s t id (length cut) in
      let e =
        same_engine-answer_tasks (parts.after_tasks tools c noted cut) t id
          (execute_dag parts.sorted (parts.tasks tools c noted) parts.retry_max cut) r h in
      quiet.tasks tools c noted cut x (ap (λ (y : Engine). is_granted y x) (sym e) ∙ g)

  handle_request-Ungranting :
      (s : State) (t : Times) (id goal : String) (r : State × Option Err)
      → handle_request setup parts s t id goal ≡ some r
      → Ungranting s.engine r.0.engine
  unfolding handle_request execute_complex_task execute_simple_task
  handle_request-Ungranting s t id goal r h x g =
      let c = request_context setup parts s t id goal in
      let run = parts.run goal (offered parts goal) (λ (fresh : Context). c) s in
      elim (Bool-cases (parts.should_decompose goal)) [
        | inl complex ↦
            with_tasks-Ungranting s t id c (offered parts goal) (parts.decompose goal s) r
              (rw complex at h) x g
        | inr simple ↦
            let it : answer_run setup parts t id run ≡ r = ground (arith, h, simple) in
            quiet.runs goal (offered parts goal) (λ (fresh : Context). c) s x
              (ap (λ (y : Engine). is_granted y x)
                  (sym (same_engine-answer_run t id run)
                    ∙ ap (λ (q : State × Option Err). q.0.engine) it)
                ∙ g)
      ]

  state_of-some :
      {p : Option (State × Option Err)} {s' : State}
      → state_of setup parts p ≡ some s'
      → (r : State × Option Err) × (p ≡ some r) × (r.0 ≡ s')
  state_of-some {p} {s'} h = elim (Option-cases p) [
    | inl never ↦ ground (arith, h, never)
    | inr (r, it) ↦ (r, it, ground (arith, h, it))
  ]

  execute-granted :
      (s : State) (t : Times) (e : Event) (id : String) (s' : State)
      → state_of setup parts (execute setup parts s t e) ≡ some s'
      → is_granted s.engine id ≡ false
      → is_granted s'.engine id ≡ true
      → Approves setup id (t, e)
  unfolding execute execute_command keep_message
  execute-granted s t e id s' h f g = elim (Bool-cases (is_slash e)) [
    | inl slash ↦
        let words = command_words setup e.content in
        let it : (execute_words setup s t.answering e.session_id words).0 ≡ s' =
          ground (arith, h, slash) in
        (
          slash,
          execute_words-granted setup s t.answering e.session_id id words f
              (ap (λ (y : State). is_granted y.engine id) it ∙ g),
        )
    | inr other ↦ elim (Bool-cases (is_user_message e.kind)) [
      | inr ignored ↦
          let it : s ≡ s' = ground (arith, h, other, ignored) in
          absurd (ground (arith, f, g, ap (λ (y : State). is_granted y.engine id) it))
      | inl message ↦
          let kept = keep_message setup parts s t e in
          let asked : state_of setup parts
                (handle_request setup parts kept t e.session_id e.content)
              ≡ some s' =
            ground (arith, h, other, message) in
          let r =
            state_of-some {p = handle_request setup parts kept t e.session_id e.content} asked in
          absurd (
            ground (
              arith,
              f,
              g,
              handle_request-Ungranting kept t e.session_id e.content r.0 r.1 id,
              r.2,
            ))
    ]
  ]

  -- Over any events that the kernel executes, one after the other: an approval that was not granted
  -- before and is granted after was named by an /approve command among them, if the runs of the
  -- engine themselves grant none.
  pub execute_all-approved :
      (s : State) (es : List (Times × Event)) (id : String) (s' : State)
      → execute_all setup parts s es ≡ some s'
      → is_granted s.engine id ≡ false
      → is_granted s'.engine id ≡ true
      → Any (Approves setup id) es
  unfolding execute_all
  execute_all-approved s [] id s' h f g = ground (arith, h, f, g)
  execute_all-approved s ((t, e) ∷ es) id s' h f g =
      elim (Option-cases (state_of setup parts (execute setup parts s t e))) [
        | inl stuck ↦ ground (arith, h, stuck)
        | inr (m, it) ↦
            let rest : execute_all setup parts m es ≡ some s' = ground (arith, h, it) in
            elim (Bool-cases (is_granted m.engine id)) [
              | inl now ↦ inl (execute-granted s t e id m it f now)
              | inr later ↦ inr (execute_all-approved m es id s' rest later g)
            ]
      ]

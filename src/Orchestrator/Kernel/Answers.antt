-- ===== src/Orchestrator/Kernel/Answers.antt =====
-- What the engine is given with a user's message.
use heike.Prelude.{
  ℕ, ◌≤◌, String, ◌≡◌, refl, ap, sym, ◌∙◌, false, none, some, List, [], ◌∷◌, ◌++◌, arith, lookup,
}
use heike.Cognitive.Context.{Context}
use heike.Ingress.Event.{Event, user_message}
use heike.Store.Lines.{unlines}
use heike.Store.Transcripts.{Files, size, last_lines}
use heike.Store.RoundTrip.{IsQuiet, lines_of}
use heike.Orchestrator.Session.{SessionEvent, Json, append_interaction, get_context}
use heike.Orchestrator.History.{Faithful, Saying, converse, writes, said, Quiet, get_context-said}
use heike.Orchestrator.Command.{State, Setup, can_handle}
use heike.Orchestrator.Skills.Selection.{apply_skill_context-KeepsRest}
use heike.Orchestrator.Requests.{
  offered, Parts, Times, answer_run, request_context, execute_simple_task, handle_request,
}
use heike.Orchestrator.Kernel.{is_slash, keep_message, execute}

converse-append :
    (json : Json) (max_bytes : ℕ) (id : String) (f : Files) (ws vs : List Saying)
    → converse json max_bytes id f (ws ++ vs)
      ≡ converse json max_bytes id (converse json max_bytes id f ws) vs
converse-append json max_bytes id f [] vs = refl
converse-append json max_bytes id f ((m, role, content) ∷ ws) vs =
    converse-append json max_bytes id (append_interaction json max_bytes f m id role content).0 ws
      vs

-- The message as it is kept.
abbrev pub asked : Times → Event → Saying
asked t e = (t.asking, "user", e.content)

execute-message :
    (setup : Setup) (parts : Parts) (s : State) (t : Times) (e : Event)
    → e.kind ≡ user_message
    → can_handle e.content ≡ false
    → execute setup parts s t e
      ≡ handle_request setup parts (keep_message setup parts s t e) t e.session_id e.content
unfolding execute is_slash
execute-message setup parts s t e kind plain = ground (arith, kind, plain)

handle_request-simple :
    (setup : Setup) (parts : Parts) (s : State) (t : Times) (id goal : String)
    → parts.should_decompose goal ≡ false
    → handle_request setup parts s t id goal
      ≡ some (execute_simple_task setup parts s t id (request_context setup parts s t id goal) goal)
unfolding handle_request
handle_request-simple setup parts s t id goal simple = ground (arith, simple)

-- A user's message that is no command and is not split up is put to the engine once, in a context
-- whose history is the session's interactions in their order, the message itself last, or the last
-- of these up to the limit; the engine's answer or error is what is kept and sent. It is assumed that
-- each of them is encoded as a line that is decoded as the same, that the session's transcript began with these interactions, that no call of the file system fails, and
-- that the lines together stay below the size of a rotation.
pub execute-asked :
    (setup : Setup) (parts : Parts) (s : State) (t : Times) (e : Event) (f : Files)
    (ws : List Saying) (line : SessionEvent → List ℕ)
    → Faithful setup.json line (ws ++ asked t e ∷ [])
    → lookup e.session_id f.transcripts ≡ none
    → s.files ≡ converse setup.json setup.max_bytes e.session_id f ws
    → Quiet (ws ++ asked t e ∷ [])
    → IsQuiet t.loading.disk
    → size (unlines (lines_of (writes line (ws ++ asked t e ∷ [])))) ≤ setup.max_bytes
    → e.kind ≡ user_message
    → can_handle e.content ≡ false
    → parts.should_decompose e.content ≡ false
    → (c : Context) × (execute setup parts s t e
        ≡ some (
            answer_run setup parts t e.session_id (
              parts.run e.content
                (offered parts e.content)
                (λ (fresh : Context). c)
                (keep_message setup parts s t e))))
      × (c.history ≡ last_lines parts.history_limit (said (ws ++ asked t e ∷ [])))
unfolding execute handle_request execute_simple_task keep_message request_context is_slash
execute-asked setup parts s t e f ws line laws missing began quiet calm small kind plain simple =
    let kept = keep_message setup parts s t e in
    let c = request_context setup parts kept t e.session_id e.content in
    let files : kept.files
        ≡ converse setup.json setup.max_bytes e.session_id f (ws ++ asked t e ∷ []) =
      ap
        (λ (g : Files).
          (append_interaction setup.json setup.max_bytes g t.asking e.session_id "user"
            e.content).0)
        began
      ∙ sym (converse-append setup.json setup.max_bytes e.session_id f ws (asked t e ∷ [])) in
    (
      c,
      execute-message setup parts s t e kind plain
          ∙ handle_request-simple setup parts kept t e.session_id e.content simple,
      (apply_skill_context-KeepsRest parts.texts parts.skills
            (get_context setup.json parts.memory parts.history_limit kept.files t.loading
              e.session_id)
            e.content).0
          ∙ ap
              (λ (g : Files).
                (get_context setup.json parts.memory parts.history_limit g t.loading
                  e.session_id).history)
              files
          ∙ get_context-said setup.json parts.memory setup.max_bytes parts.history_limit
              e.session_id f (ws ++ asked t e ∷ []) t.loading line laws missing quiet calm small,
    )

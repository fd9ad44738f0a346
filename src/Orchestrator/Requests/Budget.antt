-- ===== src/Orchestrator/Requests/Budget.antt =====
-- The token budget of a simple request: the engine's option gives its context the budget of the
-- session's context, which is 0.
use heike.Prelude.{String, some}
use heike.Cognitive.Context.{Context, Plan}
use heike.Cognitive.Engine.{Agents}
use heike.Cognitive.Engine.Keeping.{Extends, Extends-refl, Reaches, Reaches-Extends}
use heike.Orchestrator.Command.{State, Setup}
use heike.Orchestrator.Session.{get_context}
use heike.Orchestrator.Skills.Selection.{apply_skill_context-KeepsRest}
use heike.Orchestrator.Requests.{Parts, Times, request_context}

-- However long they are, the engine prunes nothing in a simple request: when it has planned on the
-- request's context, every context that the passes of its loop then hand on has the whole history and
-- every memory that the request started with, in front of what the passes added.
pub request_context-unpruned :
    {W : Type 0} (agents : Agents W) (setup : Setup) (parts : Parts) (s : State) (t : Times)
    (id goal : String) (plan : Plan) (w : W) (d : Context)
    → Reaches agents goal 0 0
        (record (request_context setup parts s t id goal) { current_plan = some plan })
        w
        d
    → Extends (request_context setup parts s t id goal) d
unfolding request_context get_context
request_context-unpruned agents setup parts s t id goal plan w d reached =
    let start = request_context setup parts s t id goal in
    let unlimited =
      (apply_skill_context-KeepsRest parts.texts parts.skills
        (get_context setup.json parts.memory parts.history_limit s.files t.loading id) goal).2 in
    let planned : Context = record start { current_plan = some plan } in
    let whole = Extends-refl start unlimited in
    Reaches-Extends agents goal start 0 0 planned d w reached (record {
      said = whole.said;
      learned = whole.learned;
      history = whole.history;
      memories = whole.memories;
      unlimited = unlimited;
    })

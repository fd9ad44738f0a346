-- ===== src/Orchestrator/Kernel/Adapters.antt =====
-- internal/orchestrator/kernel.go: the adapter between the actor and the tool runner, and what it
-- makes of a granted approval.
use heike.Prelude.{ℕ, suc, String, ◌≡◌, true, Option, none, some, [], Dict, not, if◌then◌else◌}
use heike.Errors.{Result, ok, err, plain}
use heike.Policy
use heike.Policy.{Verdict, Engine, Library, World, Approval}
use heike.Tool.Validator.{Fields}
use heike.Tool.Registry.{Tool, Registry, normalize_tool_name}
use heike.Tool.Runner.{Run, Reply, output, failed, stopped, refused_err, execute, charge_unconsumed}
use heike.Cognitive.Actor.{ToolExecutor}

-- The nil error of a failed reply does not occur.
abbrev pub replied : Reply → Result String
replied (output out) = ok out
replied (failed none) = err (plain "" [])
replied (failed (some e)) = err e

module _ (lib : Library) (decode : String → Option Fields) (registry : Registry)
    (world : ℕ → World) where
  -- The engine's policy and the number of calls that were made.
  abbrev pub Calls : Type 0
  Calls = Engine × ℕ

  unfoldable pub run_call : ToolExecutor Calls
  unfolding execute
  run_call name args input (e, n) =
      let r = execute lib decode registry e (world n) name args input in
      (replied r.reply, (r.engine, suc n))

  -- A policy with other approvals.
  abbrev pub with_approvals : Engine → Dict Approval → Dict Approval → Engine
  with_approvals e held saved = record e { approvals = held; saved_approvals = saved }

  -- The second is the first, but for its approvals.
  abbrev pub Alike : Engine → Engine → Type 0
  Alike e e' = e' ≡ with_approvals e e'.approvals e'.saved_approvals

  -- The same verdict, and policies that are alike.
  abbrev pub Matching : Engine × Verdict → Engine × Verdict → Type 0
  Matching r r' = (r'.1 ≡ r.1) × Alike r.0 r'.0

  -- The reply is the same, and the policies are alike.
  abbrev pub SameRun : Run → Run → Type 0
  SameRun r r' = (r'.reply ≡ r.reply) × Alike r.engine r'.engine

  abbrev after_check : Tool → String → Engine → Verdict → Run
  after_check t input e v =
      if not v.0
      then stopped e (refused_err v.1 v.2)
      else charge_unconsumed true "" e (normalize_tool_name t.name) t input

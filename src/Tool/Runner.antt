-- ===== src/Tool/Runner.antt =====
-- internal/tool/runner.go: find the tool, check its input, ask the policy, run it.
pub mod Gating
use heike.Prelude.{
  String, Bool, true, false, not, ◌&&◌, Option, none, some, [], ◌∷◌, ◌==◌, if◌then◌else◌,
}
use heike.Errors.{
  Err, wrapped, sentinel, external, of_category, not_found, permission_denied, approval_required,
  transient,
}
use heike.Policy.{Engine, Library, World, Verdict, is_granted, consume_quota, check}
use heike.Tool.Validator.{Fields, validate_input, Mismatch}
use heike.Tool.Registry.{Tool, Registry, normalize_tool_name, get_tool}

pub data Reply : Type 0 where
  output : String → Reply
  failed : Option Err → Reply

-- What `Execute` leaves and returns, and whether the tool's own `Execute` was called.
pub record Run : Type 0 where
  pub engine : Engine
  pub executed : Bool
  pub reply : Reply

abbrev pub stopped : Engine → Option Err → Run
stopped e err = record { engine = e; executed = false; reply = failed err }

run_reply : Option String → Reply
run_reply none = failed (some (wrapped "tool execution: %w" [] (sentinel transient)))
run_reply (some out) = output out

-- The execution of the tool itself.
unfoldable pub run_tool : Engine → Tool → String → Run
unfolding run_reply
run_tool e t input = record { engine = e; executed = true; reply = run_reply (t.execute input) }

-- The quota check behind both branches: an error ends the call.
unfoldable pub charged : Engine × Option Err → Tool → String → Run
unfolding run_tool
charged (e, some err) t input = stopped e (some err)
charged (e, none) t input = run_tool e t input

-- The fail-safe that charges a call which neither branch has charged.
unfoldable pub charge_unconsumed : Bool → String → Engine → String → Tool → String → Run
unfolding charged
charge_unconsumed consumed approval_id e resolved t input =
    if not consumed && (approval_id == "")
    then charged (consume_quota e resolved) t input
    else run_tool e t input

-- The reply to a call that the policy did not allow.
unfoldable pub refused_err : String → Option Err → Option Err
refused_err id err =
    if id == "" then err else some (wrapped "%w: %s" (id ∷ []) (sentinel approval_required))

unfoldable pub with_approval : Engine → String → String → Tool → String → Run
unfolding charge_unconsumed
with_approval e approval_id resolved t input =
    if not (is_granted e approval_id)
    then stopped e (some (of_category permission_denied "approval not granted"))
    else elim (consume_quota e resolved).1 [
      | some err ↦ stopped (consume_quota e resolved).0 (some err)
      | none ↦ charge_unconsumed false approval_id (consume_quota e resolved).0 resolved t input
    ]

unfoldable pub with_check : Library → Engine → World → String → Tool → String → Run
unfolding charge_unconsumed refused_err
with_check lib e w resolved t input =
    let r = check lib e w resolved input in
    if not r.1.0
    then stopped r.0 (refused_err r.1.1 r.1.2)
    else charge_unconsumed true "" r.0 resolved t input

-- `decode` is `json.Unmarshal` into a map.
unfoldable pub execute :
    Library → (String → Option Fields) → Registry → Engine → World → String → String → String → Run
execute lib decode r e w tool_name input approval_id = elim (get_tool r tool_name) [
  | none ↦ stopped e (some (of_category not_found "tool not found"))
  | some t ↦ elim (validate_input t.parameters (decode input)) [
    | some m ↦ stopped e (some (wrapped "invalid input: %w" [] (external "validation")))
    | none ↦
        if approval_id == ""
        then with_check lib e w (normalize_tool_name t.name) t input
        else with_approval e approval_id (normalize_tool_name t.name) t input
  ]
]

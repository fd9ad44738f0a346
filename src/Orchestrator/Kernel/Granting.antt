-- ===== src/Orchestrator/Kernel/Granting.antt =====
-- What grants an approval: a resolution that approves it, and no tool call.
use heike.Prelude.{
  String, ◌≡◌, refl, inl, inr, Bool, true, false, Option, none, some, arith, Bool-cases,
  Option-cases, if◌then◌else◌, ◌==◌, eq_iff, lookup, lookup-insert,
}
use heike.Tool.Validator.{Fields, validate_input}
use heike.Tool.Registry.{Tool, Registry, get_tool, normalize_tool_name as tool_key}
use heike.Tool.Runner.{execute, with_check, with_approval, charge_unconsumed, charged, run_tool}
use heike.Policy.{
  ApprovalStatus, granted, denied, is_granted_status, extract_host_from_input, normalize_tool_name,
  Engine, Library, World, Approval, resolve, is_granted, check, consume_quota, consume_quota_locked,
  create_approval, check_lists, add_host, set_status,
}

-- Whatever is granted after was granted before.
abbrev pub Ungranting : Engine → Engine → Type 0
Ungranting e e' = (id : String) → is_granted e' id ≡ true → is_granted e id ≡ true

is_granted-set_status :
    (lib : Library) (e : Engine) (w : World) (name id : String) (app : Approval)
    (status : ApprovalStatus)
    → is_granted (set_status lib e w name app status).0 id
      ≡ (if name == id then is_granted_status status else is_granted e id)
unfolding set_status is_granted
is_granted-set_status lib e w name id app status =
    ground (arith, lookup-insert name id (record app { status = status }) e.approvals)

is_granted-add_host :
    (lib : Library) (e : Engine) (w : World) (host : Option String) (id : String)
    → is_granted (add_host lib e w host) id ≡ is_granted e id
unfolding add_host is_granted
is_granted-add_host lib e w none id = refl
is_granted-add_host lib e w (some host) id = ground arith

-- A resolution grants no id but its own, and that only where it approves.
pub resolve-granted :
    (lib : Library) (e : Engine) (w : World) (name id : String) (approve : Bool)
    → is_granted e id ≡ false
    → is_granted (resolve lib e w name approve).0 id ≡ true
    → (name ≡ id) × (approve ≡ true)
unfolding resolve
resolve-granted lib e w name id approve before h = elim (Option-cases (lookup name e.approvals)) [
  | inl missing ↦ ground (arith, h, missing, before)
  | inr (app, found) ↦
      let host = extract_host_from_input lib app.input in
      let a = is_granted-set_status lib (add_host lib e w host) w name id app granted in
      let b = is_granted-set_status lib e w name id app denied in
      let c = is_granted-add_host lib e w host id in
      (
        ground (arith, h, found, before, a, b, c, eq_iff name id),
        ground (arith, h, found, before, a, b, c, eq_iff name id),
      )
]

create_approval-Ungranting :
    (e : Engine) (w : World) (tool input : String) → Ungranting e (create_approval e w tool input).0
unfolding create_approval is_granted
create_approval-Ungranting e w tool input id h = grind (arith, lookup-insert)

-- No check of a tool call grants anything.
pub check-Ungranting :
    (lib : Library) (e : Engine) (w : World) (tool input : String)
    → Ungranting e (check lib e w tool input).0
unfolding check check_lists consume_quota_locked is_granted
check-Ungranting lib e w tool input id h =
    ground (arith, h, create_approval-Ungranting e w (normalize_tool_name tool) input id)

consume_quota-Ungranting : (e : Engine) (tool : String) → Ungranting e (consume_quota e tool).0
unfolding consume_quota consume_quota_locked is_granted
consume_quota-Ungranting e tool id h = ground (arith, h)

charge_unconsumed-Ungranting :
    (consumed : Bool) (name : String) (e : Engine) (resolved : String) (t : Tool) (input : String)
    → Ungranting e (charge_unconsumed consumed name e resolved t input).engine
unfolding charge_unconsumed charged run_tool consume_quota consume_quota_locked is_granted
charge_unconsumed-Ungranting consumed name e resolved t input id h = ground (arith, h)

with_check-Ungranting :
    (lib : Library) (e : Engine) (w : World) (resolved : String) (t : Tool) (input : String)
    → Ungranting e (with_check lib e w resolved t input).engine
unfolding with_check
with_check-Ungranting lib e w resolved t input id h =
    let r = check lib e w resolved input in
    let allowed = charge_unconsumed-Ungranting true "" r.0 resolved t input id in
    check-Ungranting lib e w resolved input id (ground (arith, h, allowed))

with_approval-Ungranting :
    (e : Engine) (name resolved : String) (t : Tool) (input : String)
    → Ungranting e (with_approval e name resolved t input).engine
unfolding with_approval
with_approval-Ungranting e name resolved t input id h =
    let q = consume_quota e resolved in
    let charged = charge_unconsumed-Ungranting false name q.0 resolved t input id in
    ground (arith, h, charged, consume_quota-Ungranting e resolved id)

-- No tool call grants an approval, whatever id it carries.
pub tool_call-Ungranting :
    (lib : Library) (decode : String → Option Fields) (r : Registry) (e : Engine) (w : World)
    (tool input name : String)
    → Ungranting e (execute lib decode r e w tool input name).engine
unfolding execute
tool_call-Ungranting lib decode r e w tool input name id h = elim (Option-cases (get_tool r tool)) [
  | inl missing ↦ ground (arith, h, missing)
  | inr (t, found) ↦ elim (Option-cases (validate_input t.parameters (decode input))) [
    | inr (mismatch, bad) ↦ rw bad at (rw (found, execute) at h)
    | inl fits ↦
        let asked = with_check-Ungranting lib e w (tool_key t.name) t input id in
        let approved = with_approval-Ungranting e name (tool_key t.name) t input id in
        elim (Bool-cases (name == "")) [
          | inl unnamed ↦ asked (rw unnamed at (rw fits at (rw (found, execute) at h)))
          | inr named ↦ approved (rw named at (rw fits at (rw (found, execute) at h)))
        ]
  ]
]

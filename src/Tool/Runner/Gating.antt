-- ===== src/Tool/Runner/Gating.antt =====
-- A tool runs only with leave of the policy, and every run is charged once.
use heike.Prelude.{
  ◌+◌, String, ◌≡◌, ◌≢◌, ◌⊎◌, inl, inr, true, Option, none, some, arith, ◌==◌, eq_iff, ◌&&◌,
  trim_space_idem, Option-cases, Bool-cases,
}
use heike.Policy
use heike.Policy.{Engine, Library, World, check, consume_quota, is_granted, usage_of}
use heike.Policy.Rules.{Allowed, check-Allowed_iff}
use heike.Policy.Quota.{one_if, usage_of-check, usage_of-consume_quota}
use heike.Tool.Validator.{Fields, validate_input}
use heike.Tool.Registry.{Tool, Registry, normalize_tool_name, get_tool}
use heike.Tool.Runner.{execute, with_check, with_approval, charge_unconsumed}

policy_normalize :
    (name : String)
    → Policy.normalize_tool_name (normalize_tool_name name) ≡ normalize_tool_name name
unfolding Policy.normalize_tool_name normalize_tool_name
policy_normalize = trim_space_idem

module _ (lib : Library) (decode : String → Option Fields) where
  -- What a run of a tool rests on: a registered tool, an input of its schema, and either no
  -- approval id and a call that the policy allows, or the id of a granted approval.
  pub record Authorised (r : Registry) (e : Engine) (tool_name input approval_id : String)
      : Type 0 where
    pub tool : Tool
    pub registered : get_tool r tool_name ≡ some tool
    pub valid : validate_input tool.parameters (decode input) ≡ none
    pub permitted :
        ((approval_id ≡ "") × Allowed lib e (normalize_tool_name tool.name) input)
        ⊎ ((approval_id ≢ "") × (is_granted e approval_id ≡ true))

  with_check-allowed :
      (e : Engine) (w : World) (resolved : String) (t : Tool) (input : String)
      → (with_check lib e w resolved t input).executed ≡ (check lib e w resolved input).1.0
  unfolding with_check charge_unconsumed
  with_check-allowed e w resolved t input = ground arith

  with_approval-granted :
      (e : Engine) (id resolved : String) (t : Tool) (input : String)
      → (with_approval e id resolved t input).executed ≡ true
      → is_granted e id ≡ true
  unfolding with_approval charge_unconsumed
  with_approval-granted e id resolved t input h = ground arith

  -- A tool's `Execute` is called only in an authorised call.
  pub executed-Authorised :
      (r : Registry) (e : Engine) (w : World) (tool_name input approval_id : String)
      → (execute lib decode r e w tool_name input approval_id).executed ≡ true
      → Authorised r e tool_name input approval_id
  unfolding execute
  executed-Authorised r e w tool_name input approval_id h =
      elim (Option-cases (get_tool r tool_name)) [
        | inl missing ↦ absurd (ground arith)
        | inr (t, found) ↦ record {
          tool = t;
          registered = found;
          valid = ground arith;
          permitted = elim (Bool-cases (approval_id == "")) [
            | inl without ↦ inl (
              ground (arith, eq_iff approval_id ""),
              (check-Allowed_iff lib e w (normalize_tool_name t.name) input).0
                  (ground (arith, with_check-allowed e w (normalize_tool_name t.name) t input)),
            )
            | inr with_id ↦ inr (
              ground (arith, eq_iff approval_id ""),
              with_approval-granted e approval_id (normalize_tool_name t.name) t input
                  (ground arith),
            )
          ];
        }
      ]

  usage_of-with_check :
      (e : Engine) (w : World) (resolved s : String) (t : Tool) (input : String)
      → usage_of (with_check lib e w resolved t input).engine s
        ≡ usage_of e s
          + one_if (
              (with_check lib e w resolved t input).executed
              && (Policy.normalize_tool_name resolved == s))
  unfolding with_check
  usage_of-with_check e w resolved s t input =
      ground (arith, usage_of-check lib e w resolved input s)

  usage_of-with_approval :
      (e : Engine) (id resolved s : String) (t : Tool) (input : String)
      → id ≢ ""
      → usage_of (with_approval e id resolved t input).engine s
        ≡ usage_of e s
          + one_if (
              (with_approval e id resolved t input).executed
              && (Policy.normalize_tool_name resolved == s))
  unfolding with_approval
  usage_of-with_approval e id resolved s t input some_id =
      ground (arith, usage_of-consume_quota e resolved s, eq_iff id "")

  -- A call that runs its tool charges that tool once and no other; a call that runs none charges
  -- nothing.
  pub usage_of-execute :
      (r : Registry) (e : Engine) (w : World) (tool_name input approval_id : String) (t : Tool)
      (s : String)
      → get_tool r tool_name ≡ some t
      → usage_of (execute lib decode r e w tool_name input approval_id).engine s
        ≡ usage_of e s
          + one_if (
              (execute lib decode r e w tool_name input approval_id).executed
              && (normalize_tool_name t.name == s))
  unfolding execute
  usage_of-execute r e w tool_name input approval_id t s found = ground (
    arith,
    usage_of-with_check e w (normalize_tool_name t.name) s t input,
    usage_of-with_approval e approval_id (normalize_tool_name t.name) s t input,
    eq_iff approval_id "",
    policy_normalize t.name,
  )

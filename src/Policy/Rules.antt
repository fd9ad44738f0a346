-- ===== src/Policy/Rules.antt =====
-- Which calls `Check` lets through, and what it leaves behind for the others.
use heike.Prelude.{
  ◌<◌, String, ◌≡◌, refl, ◌↔◌, ◌⊎◌, true, Option, none, some, List, [], ◌∷◌, arith, eq_iff, Any,
}
use heike.Policy.{
  Engine, Library, World, proceed, normalize_tool_name, usage_of, lists_tool, create_approval,
  sandbox_gate, extract_host_from_input, extract_sandbox_permissions_from_input, contains_domain,
  check_lists, check,
}

-- An entry of the list is the tool, up to white space round it.
abbrev pub Lists : List String → String → Type 0
Lists entries tool = Any (λ entry. normalize_tool_name entry ≡ tool) entries

lists_tool_iff :
    (entries : List String) (tool : String) → (lists_tool entries tool ≡ true) ↔ Lists entries tool
unfolding lists_tool
lists_tool_iff [] tool = ground arith
lists_tool_iff (entry ∷ rest) tool =
    ground (arith, eq_iff (normalize_tool_name entry) tool, lists_tool_iff rest tool)

-- The input asks for nothing beyond the default sandbox.
abbrev pub NoSandboxRequest : Option String → Type 0
NoSandboxRequest none = Unit
NoSandboxRequest (some perm) = (perm ≡ "") ⊎ (perm ≡ "use_default")

pub gate-proceed_iff : (p : Option String) → (sandbox_gate p ≡ proceed) ↔ NoSandboxRequest p
unfolding sandbox_gate
gate-proceed_iff none = (λ _. tt, λ _. refl)
gate-proceed_iff (some perm) =
    ground (arith, eq_iff perm "", eq_iff perm "use_default", eq_iff perm "require_escalated")

module _ (lib : Library) where
  -- What `Check` asks of a call before it runs without an approval.
  abbrev pub Open : Engine → String → Option String → Type 0
  Open e tool none = Lists e.auto_allow tool ⊎ ¬ Lists e.require_approval tool
  Open e tool (some host) = contains_domain lib e.allowed_domains host ≡ true

  check_lists-Open :
      (e : Engine) (w : World) (tool input : String)
      → ((check_lists lib e w tool input).1.0 ≡ true)
        ↔ Open e tool (extract_host_from_input lib input)
  unfolding check_lists
  check_lists-Open e w tool input =
      ground (arith, lists_tool_iff e.auto_allow tool, lists_tool_iff e.require_approval tool)

  -- What a call needs to be let through at once.
  pub record Allowed (e : Engine) (tool_name input : String) : Type 0 where
    pub no_sandbox_request : NoSandboxRequest (extract_sandbox_permissions_from_input lib input)
    pub under_quota : usage_of e (normalize_tool_name tool_name) < e.daily_limit
    pub open_tool : Open e (normalize_tool_name tool_name) (extract_host_from_input lib input)

  -- `Check` allows a call exactly when its input asks for no sandbox permission beyond the default,
  -- the tool's usage is below the daily limit, and the call is open: with a URL, its host is on the
  -- domain allowlist; with none, the tool is on the auto-allow list or off the approval list.
  pub check-Allowed_iff :
      (e : Engine) (w : World) (tool_name input : String)
      → ((check lib e w tool_name input).1.0 ≡ true) ↔ Allowed e tool_name input
  unfolding check create_approval
  check-Allowed_iff e w tool_name input = (
    λ h. record {
      no_sandbox_request = gate.0 (ground arith);
      under_quota = ground arith;
      open_tool = lists.0 (ground arith);
    },
    λ a.
        let g = gate.1 a.no_sandbox_request in
        let l = lists.1 a.open_tool in let q = a.under_quota in ground arith,
  )
    where
      gate :
          (sandbox_gate (extract_sandbox_permissions_from_input lib input) ≡ proceed)
          ↔ NoSandboxRequest (extract_sandbox_permissions_from_input lib input)
      gate = gate-proceed_iff (extract_sandbox_permissions_from_input lib input)

      lists :
          ((check_lists lib e w (normalize_tool_name tool_name) input).1.0 ≡ true)
          ↔ Open e (normalize_tool_name tool_name) (extract_host_from_input lib input)
      lists = check_lists-Open e w (normalize_tool_name tool_name) input

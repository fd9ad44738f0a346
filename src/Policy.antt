-- ===== src/Policy.antt =====
-- internal/policy/engine.go: the governance engine. Each method returns the new engine and what
-- the source returns. The two files that it writes are fields, `saved_approvals` and
-- `saved_domains`; a load after a restart reads them back.
pub mod Rules
pub mod Quota
pub mod Approvals
use heike.Prelude.{
  ℕ, suc, String, Bool, true, false, not, ◌||◌, Option, none, some, List, [], ◌∷◌, ◌++◌, ◌==◌, leb,
  if◌then◌else◌, trim_space, Dict, lookup, insert,
}
use heike.Errors.{Err, sentinel, external, plain, wrapped, permission_denied, approval_required}

pub data ApprovalStatus : Type 0 where
  pending granted denied : ApprovalStatus

abbrev pub is_pending : ApprovalStatus → Bool
is_pending pending = true
is_pending granted = false
is_pending denied = false

abbrev pub status_name : ApprovalStatus → String
status_name pending = "PENDING"
status_name granted = "GRANTED"
status_name denied = "DENIED"

pub record Approval : Type 0 where
  pub id : String
  pub tool : String
  pub input : String
  pub status : ApprovalStatus
  pub created_at : ℕ

pub record Engine : Type 0 where
  pub auto_allow : List String
  pub require_approval : List String
  pub approvals : Dict Approval
  pub allowed_domains : List String
  pub daily_limit : ℕ
  pub usage : Dict ℕ
  pub saved_approvals : Dict Approval
  pub saved_domains : List String

-- The parts of Go's library that the engine calls and that are not modelled: the `url` and the
-- `sandbox_permissions` of a JSON object (`none` if it does not decode), the host of a URL (`none`
-- if it does not parse), `strings.ToLower` and `strings.EqualFold`.
pub record Library : Type 0 where
  pub json_url : String → Option String
  pub json_sandbox : String → Option String
  pub hostname : String → Option String
  pub to_lower : String → String
  pub equal_fold : String → String → Bool

-- What one call finds outside: a fresh ULID, the time, and whether the files can be written.
pub record World : Type 0 where
  pub fresh_id : String
  pub now : ℕ
  pub approvals_writable : Bool
  pub domains_writable : Bool

unfoldable pub normalize_tool_name : String → String
unfolding trim_space
normalize_tool_name name = trim_space name

-- NewEngine over what `load` read from the two files
unfoldable pub new_engine : List String → List String → ℕ → Dict Approval → List String → Engine
new_engine auto_allow require_approval limit approvals domains = record {
  auto_allow = auto_allow;
  require_approval = require_approval;
  approvals = approvals;
  allowed_domains = domains;
  daily_limit = if leb limit 0 then 100 else limit;
  usage = [];
  saved_approvals = approvals;
  saved_domains = domains;
}

-- e.usage[tool], 0 for a missing key
abbrev pub or_zero : Option ℕ → ℕ
or_zero none = 0
or_zero (some n) = n

unfoldable pub usage_of : Engine → String → ℕ
unfolding lookup
usage_of e tool = or_zero (lookup tool e.usage)

unfoldable pub consume_quota_locked : Engine → String → Engine
unfolding normalize_tool_name usage_of insert
consume_quota_locked e tool =
    let name = normalize_tool_name tool in
    record e { usage = insert name (suc (usage_of e name)) e.usage }

unfoldable pub consume_quota : Engine → String → Engine × Option Err
unfolding consume_quota_locked
consume_quota e tool =
    let name = normalize_tool_name tool in
    if leb e.daily_limit (usage_of e name)
    then (e, some (plain "quota exceeded for tool %s" (name ∷ [])))
    else (consume_quota_locked e name, none)

-- for _, entry := range list { if normalizeToolName(entry) == tool { … } }
unfoldable pub lists_tool : List String → String → Bool
unfolding normalize_tool_name
lists_tool [] tool = false
lists_tool (entry ∷ rest) tool = (normalize_tool_name entry == tool) || lists_tool rest tool

-- `allowed`, the approval's id ("" for none) and the error of `Check`
abbrev pub Verdict : Type 0
Verdict = Bool × String × Option Err

unfoldable pub create_approval : Engine → World → String → String → Engine × Verdict
unfolding normalize_tool_name insert
create_approval e w tool input =
    let app : Approval = record {
      id = w.fresh_id;
      tool = normalize_tool_name tool;
      input = input;
      status = pending;
      created_at = w.now;
    } in
    let e' = record e { approvals = insert w.fresh_id app e.approvals } in
    if w.approvals_writable
    then (
      record e' { saved_approvals = e'.approvals },
      (false, w.fresh_id, some (sentinel approval_required)),
    )
    else (e', (false, "", some (wrapped "failed to persist approval: %w" [] (external "write"))))

-- What `sandbox_permissions` asks for.
pub data Gate : Type 0 where
  proceed escalate : Gate
  refuse : String → Gate

unfoldable pub sandbox_gate : Option String → Gate
sandbox_gate none = proceed
sandbox_gate (some perm) =
    if (perm == "") || (perm == "use_default")
    then proceed
    else if perm == "require_escalated"
    then escalate
    else refuse perm

module _ (lib : Library) where
  open lib use {json_url, json_sandbox, hostname, to_lower, equal_fold}

  unfoldable pub extract_host_from_input : String → Option String
  extract_host_from_input input = elim (json_url input) [
    | none ↦ none
    | some raw ↦ elim (hostname (trim_space raw)) [
      | none ↦ none
      | some name ↦ let host = trim_space (to_lower name) in if host == "" then none else some host
    ]
  ]

  unfoldable pub extract_sandbox_permissions_from_input : String → Option String
  extract_sandbox_permissions_from_input input = elim (json_sandbox input) [
    | none ↦ none
    | some perm ↦ if trim_space perm == "" then none else some (trim_space (to_lower perm))
  ]

  unfoldable pub contains_domain : List String → String → Bool
  contains_domain [] host = false
  contains_domain (domain ∷ rest) host =
      equal_fold (trim_space domain) host || contains_domain rest host

  -- The part of `Check` behind the quota: the domain allowlist, then the two lists of tools.
  unfoldable pub check_lists : Engine → World → String → String → Engine × Verdict
  unfolding contains_domain create_approval consume_quota_locked lists_tool
  check_lists e w tool input = elim (extract_host_from_input input) [
    | some host ↦
        if contains_domain e.allowed_domains host
        then (consume_quota_locked e tool, (true, "", none))
        else create_approval e w tool input
    | none ↦
        if lists_tool e.auto_allow tool
        then (consume_quota_locked e tool, (true, "", none))
        else if lists_tool e.require_approval tool
        then create_approval e w tool input
        else (consume_quota_locked e tool, (true, "", none))
  ]

  unfoldable pub check : Engine → World → String → String → Engine × Verdict
  unfolding check_lists sandbox_gate usage_of
  check e w tool_name input =
      let tool = normalize_tool_name tool_name in
      elim (sandbox_gate (extract_sandbox_permissions_from_input input)) [
        | escalate ↦ create_approval e w tool input
        | refuse perm ↦ (
          e,
          (
            false,
            "",
            some (
                wrapped "sandbox_permissions %q is denied: %w" (perm ∷ [])
                  (sentinel permission_denied)),
          ),
        )
        | proceed ↦
            if leb e.daily_limit (usage_of e tool)
            then (e, (false, "", some (plain "quota exceeded for tool %s" (tool ∷ []))))
            else check_lists e w tool input
      ]

  -- The allowlist after an approval is granted. An error of `saveDomains` is ignored.
  unfoldable pub add_host : Engine → World → Option String → Engine
  unfolding contains_domain
  add_host e w none = e
  add_host e w (some host) =
      if contains_domain e.allowed_domains host
      then e
      else let e' = record e { allowed_domains = e.allowed_domains ++ host ∷ [] } in
        if w.domains_writable then record e' { saved_domains = e'.allowed_domains } else e'

  -- The write of the new status, and `save`.
  unfoldable pub set_status :
      Engine → World → String → Approval → ApprovalStatus → Engine × Option Err
  unfolding insert
  set_status e w id app status =
      let e' = record e { approvals = insert id (record app { status = status }) e.approvals } in
      if w.approvals_writable
      then (record e' { saved_approvals = e'.approvals }, none)
      else (e', some (external "write"))

  unfoldable pub resolve : Engine → World → String → Bool → Engine × Option Err
  unfolding add_host set_status lookup
  resolve e w id approve = elim (lookup id e.approvals) [
    | none ↦ (e, some (plain "approval request not found: %s" (id ∷ [])))
    | some app ↦
        if not (is_pending app.status)
        then (e, some (plain "approval %s is already %s" (id ∷ status_name app.status ∷ [])))
        else if approve
        then set_status (add_host e w (extract_host_from_input app.input)) w id app granted
        else set_status e w id app denied
  ]

abbrev pub is_granted_status : ApprovalStatus → Bool
is_granted_status granted = true
is_granted_status pending = false
is_granted_status denied = false

unfoldable pub is_granted : Engine → String → Bool
unfolding lookup
is_granted e id = elim (lookup id e.approvals) [
  | none ↦ false
  | some app ↦ is_granted_status app.status
]

-- ===== src/Policy/Approvals.antt =====
-- The life of an approval: created pending, resolved once, and final from then on.
use heike.Prelude.{
  String, ◌≡◌, ◌≢◌, inl, inr, Bool, true, false, none, some, ◌<◌, List, [], ◌∷◌, arith, eq_iff,
  lookup, lookup-insert, eq_refl, trim_space_idem, Option-cases, ◌++◌, trim_space,
}
use heike.Policy.{
  ApprovalStatus, pending, granted, denied, Approval, Engine, Library, World, normalize_tool_name,
  is_pending, is_granted, set_status, add_host, extract_host_from_input,
  extract_sandbox_permissions_from_input, contains_domain, usage_of, consume_quota_locked,
  consume_quota, create_approval, check, resolve,
}
use heike.Policy.Rules.{NoSandboxRequest, gate-proceed_iff}
use heike.Policy.Quota.{Call, check_call, consume_call, resolve_call, apply, run}

-- The id that a call would use for a new approval.
abbrev pub NewId : String → Call → Type 0
NewId id (check_call w tool input) = w.fresh_id ≢ id
NewId id (consume_call tool) = Unit
NewId id (resolve_call w j approve) = Unit

abbrev pub NewIds : String → List Call → Type 0
NewIds id [] = Unit
NewIds id (c ∷ cs) = NewId id c × NewIds id cs

module _ (lib : Library) (id : String) (a : Approval) where
  final-check :
      (e : Engine) (w : World) (tool input : String)
      → w.fresh_id ≢ id
      → lookup id e.approvals ≡ some a
      → lookup id (check lib e w tool input).0.approvals ≡ some a
  unfolding check create_approval consume_quota_locked
  final-check e w tool input new h = grind (arith, lookup-insert, eq_iff w.fresh_id id)

  final-resolve :
      (e : Engine) (w : World) (j : String) (approve : Bool)
      → is_pending a.status ≡ false
      → lookup id e.approvals ≡ some a
      → lookup id (resolve lib e w j approve).0.approvals ≡ some a
  unfolding resolve set_status add_host
  final-resolve e w j approve closed h = grind (arith, lookup-insert, eq_iff j id)

  final-apply :
      (e : Engine) (c : Call)
      → NewId id c
      → is_pending a.status ≡ false
      → lookup id e.approvals ≡ some a
      → lookup id (apply lib e c).0.approvals ≡ some a
  unfolding apply consume_quota consume_quota_locked
  final-apply e (check_call w tool input) new closed h = final-check e w tool input new h
  final-apply e (consume_call tool) new closed h = ground arith
  final-apply e (resolve_call w j approve) new closed h = final-resolve e w j approve closed h

  -- An approval that was granted or denied is never changed again, whatever is checked, charged or
  -- resolved later, as long as no later approval is given its id.
  pub resolved_final :
      (e : Engine) (cs : List Call)
      → NewIds id cs
      → is_pending a.status ≡ false
      → lookup id e.approvals ≡ some a
      → lookup id (run lib e cs).approvals ≡ some a
  unfolding run
  resolved_final e [] new closed h = h
  resolved_final e (c ∷ cs) new closed h =
      resolved_final (apply lib e c).0 cs new.1 closed (final-apply e c new.0 closed h)

abbrev pub asked : Bool → ApprovalStatus
asked true = granted
asked false = denied

-- Resolving a pending approval while the file can be written succeeds: the approval has the status
-- that was asked for on file, and it counts as granted exactly when the answer was yes.
pub resolve_pending :
    (lib : Library) (e : Engine) (w : World) (id : String) (approve : Bool) (a : Approval)
    → lookup id e.approvals ≡ some a
    → a.status ≡ pending
    → w.approvals_writable ≡ true
    → ((resolve lib e w id approve).1 ≡ none)
      × (lookup id (resolve lib e w id approve).0.saved_approvals
          ≡ some (record a { status = asked approve }))
      × (is_granted (resolve lib e w id approve).0 id ≡ approve)
unfolding resolve set_status add_host is_granted
resolve_pending lib e w id approve a found open_now writable = (
  ground (arith),
  grind (arith, lookup-insert, eq_refl id),
  grind (arith, lookup-insert, eq_refl id),
)

-- Resolving an id that is unknown or no longer pending is an error and changes nothing.
pub resolve_refused :
    (lib : Library) (e : Engine) (w : World) (id : String) (approve : Bool)
    → ((a : Approval) → lookup id e.approvals ≡ some a → is_pending a.status ≡ false)
    → ((resolve lib e w id approve).0 ≡ e) × ((resolve lib e w id approve).1 ≢ none)
unfolding resolve
resolve_refused lib e w id approve closed = elim (Option-cases (lookup id e.approvals)) [
  | inl missing ↦ (ground arith, ground arith)
  | inr (a, found) ↦ (ground (arith, closed a found), ground (arith, closed a found))
]

module _ (lib : Library) where
  open lib use {equal_fold}

  contains_domain-append :
      (l : List String) (host : String)
      → trim_space host ≡ host
      → equal_fold host host ≡ true
      → contains_domain lib (l ++ host ∷ []) host ≡ true
  unfolding contains_domain
  contains_domain-append [] host t h = rw t (ground arith)
  contains_domain-append (d ∷ l) host t h = ground (arith, contains_domain-append l host t h)

  trim_space-host :
      (input host : String) → extract_host_from_input lib input ≡ some host → trim_space host ≡ host
  unfolding extract_host_from_input
  trim_space-host input host h = grind (arith, trim_space_idem)

  -- Once an approval is granted whose input names a URL, a call with that input is let through with
  -- no further approval, for any tool that is below its limit and asks for no sandbox permission.
  -- It is assumed that `strings.EqualFold` finds a text equal to itself.
  pub granted_host_open :
      (e : Engine) (w v : World) (id tool_name : String) (a : Approval) (host : String)
      → ((s : String) → equal_fold s s ≡ true)
      → lookup id e.approvals ≡ some a
      → a.status ≡ pending
      → extract_host_from_input lib a.input ≡ some host
      → NoSandboxRequest (extract_sandbox_permissions_from_input lib a.input)
      → usage_of e (normalize_tool_name tool_name) < e.daily_limit
      → (check lib (resolve lib e w id true).0 v tool_name a.input).1 ≡ (true, "", none)
  unfolding check resolve set_status add_host usage_of
  granted_host_open e w v id tool_name a host same found open_now url no_request quota = ground (
    arith,
    contains_domain-append e.allowed_domains host (trim_space-host a.input host url) (same host),
    (gate-proceed_iff (extract_sandbox_permissions_from_input lib a.input)).1 no_request,
  )

-- ===== src/Examples/Governance.antt =====
-- The policy engine on concrete calls.
use heike.Prelude.{
  ◌≡◌, refl, ◌↔◌, true, none, some, List, [], ◌∷◌, arith, ◌==◌, eq_refl, if◌then◌else◌, trim_space,
  lookup,
}
use heike.Policy.{
  pending, denied, Approval, Engine, Library, World, new_engine, check, resolve, usage_of,
  consume_quota, extract_host_from_input, extract_sandbox_permissions_from_input,
}
use heike.Policy.Rules.{Allowed, check-Allowed_iff}
use heike.Policy.Quota.{Call, check_call, consume_call, calls_for}
use heike.Policy.Approvals.{granted_host_open}

-- A library for inputs that are themselves the URL, or ask for a sandbox permission.
abbrev pub plain_library : Library
plain_library = record {
  json_url = λ s. if s == "url" then some " example.org " else none;
  json_sandbox = λ s. if s == "escalate" then some "require_escalated" else none;
  hostname = λ s. some s;
  to_lower = λ s. s;
  equal_fold = λ s t. s == t;
}

abbrev pub world : World
world = record { fresh_id = "a1"; now = 5; approvals_writable = true; domains_writable = true }

abbrev pub fresh_engine : Engine
fresh_engine = record {
  auto_allow = "time" ∷ [];
  require_approval = "exec_command" ∷ [];
  approvals = [];
  allowed_domains = [];
  daily_limit = 2;
  usage = [];
  saved_approvals = [];
  saved_domains = [];
}

abbrev pub request : Approval
request = record { id = "a1"; tool = "open"; input = "url"; status = pending; created_at = 5 }

abbrev pub asking_engine : Engine
asking_engine = record fresh_engine { approvals = ("a1", request) ∷ [] }

restricted_needs_approval :
    (check plain_library fresh_engine world " exec_command " "ls").1.1 ≡ "a1"
unfolding check extract_sandbox_permissions_from_input extract_host_from_input
restricted_needs_approval = refl

default_limit : (new_engine [] [] 0 [] []).daily_limit ≡ 100
unfolding new_engine
default_limit = refl

check-Allowed_iff_example :
    ((check plain_library fresh_engine world "exec_command" "ls").1.0 ≡ true)
    ↔ Allowed plain_library fresh_engine "exec_command" "ls"
check-Allowed_iff_example = check-Allowed_iff plain_library fresh_engine world "exec_command" "ls"

abbrev three_calls : List Call
three_calls =
    check_call world "time" "now" ∷ consume_call "time" ∷ check_call world "time" "now" ∷ []

three_calls_charged : calls_for plain_library fresh_engine three_calls "time" ≡ 2
unfolding calls_for check extract_sandbox_permissions_from_input extract_host_from_input
    consume_quota
three_calls_charged = refl

abbrev closed_request : Approval
closed_request = record request { status = denied }

granted_host_open_example :
    (check plain_library
      (resolve plain_library asking_engine world "a1" true).0
      world
      "open"
      "url").1
    ≡ (true, "", none)
granted_host_open_example =
    granted_host_open plain_library asking_engine world world "a1" "open" request "example.org"
      eq_refl (unfold lookup in refl) refl (unfold extract_host_from_input trim_space in refl)
      (unfold extract_sandbox_permissions_from_input in tt) (unfold usage_of in omega arith)

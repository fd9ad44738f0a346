-- ===== src/Examples/Tools.antt =====
-- The input check, the registry and the runner on concrete tools.
use heike.Prelude.{
  ◌+◌, String, ◌≡◌, ◌≢◌, refl, ◌&&◌, Option, none, some, [], ◌∷◌, ◌==◌, if◌then◌else◌, trim_space,
}
use heike.Policy.{check, usage_of, extract_host_from_input, extract_sandbox_permissions_from_input}
use heike.Policy.Quota.{one_if}
use heike.Tool.Validator.{
  Value, str, num, obj, strs, Fields, end, field, validate_object, validate_input,
}
use heike.Tool.Registry.{Tool, Registry, get_tool, normalize_tool_name}
use heike.Tool.Runner.{execute, with_check}
use heike.Tool.Runner.Gating.{Authorised, executed-Authorised, usage_of-execute}
use heike.Examples.Governance.{plain_library, world, fresh_engine}

abbrev string_type : Value
string_type = obj (field "type" (str "string") end)

-- A schema with one required string, `cmd`.
abbrev schema : Fields
schema =
    field "required" (strs ("cmd" ∷ []))
      (field "properties" (obj (field "cmd" string_type end)) end)

abbrev good_input : Fields
good_input = field "cmd" (str "ls") (field "extra" (num 3) end)

good_input_accepted : validate_object schema good_input ≡ none
unfolding validate_object
good_input_accepted = refl

wrong_type_refused : validate_object schema (field "cmd" (num 1) end) ≢ none
unfolding validate_object
wrong_type_refused h = cc

abbrev pub decode : String → Option Fields
decode s = if s == "ls" then some good_input else none

abbrev shell : Tool
shell = record { name = " exec "; parameters = schema; execute = λ input. some input }

abbrev pub registry : Registry
registry = record { tools = ("exec", shell) ∷ [] }

found_shell : get_tool registry "exec" ≡ some shell
unfolding get_tool trim_space
found_shell = refl

accepted : validate_input schema (decode "ls") ≡ none
unfolding validate_input
accepted = refl

executed-Authorised_example : Authorised plain_library decode registry fresh_engine "exec" "ls" ""
executed-Authorised_example =
    executed-Authorised plain_library decode registry fresh_engine world "exec" "ls" "" (
      unfold execute with_check check extract_host_from_input extract_sandbox_permissions_from_input
        get_tool validate_input trim_space in
      refl)

usage_of-execute_example :
    usage_of (execute plain_library decode registry fresh_engine world "exec" "ls" "").engine "exec"
    ≡ usage_of fresh_engine "exec"
      + one_if (
          (execute plain_library decode registry fresh_engine world "exec" "ls" "").executed
          && (normalize_tool_name " exec " == "exec"))
usage_of-execute_example =
    usage_of-execute plain_library decode registry fresh_engine world "exec" "ls" "" shell "exec"
      found_shell

-- ===== src/Policy/Quota.antt =====
-- The daily limit, over any sequence of calls of the engine's operations.
use heike.Prelude.{
  ℕ, suc, ◌+◌, String, ◌≡◌, Bool, true, false, Option, none, some, List, [], ◌∷◌, arith, ◌==◌,
  eq_iff, ◌&&◌, lookup-insert, trim_space_idem,
}
use heike.Policy.{
  Engine, Library, World, normalize_tool_name, usage_of, consume_quota_locked, consume_quota,
  create_approval, check_lists, check, resolve,
}

-- One call of an operation that the tool runner or an operator makes.
pub data Call : Type 0 where
  check_call : World → String → String → Call
  consume_call : String → Call
  resolve_call : World → String → Bool → Call

abbrev pub one_if : Bool → ℕ
one_if true = 1
one_if false = 0

abbrev pub let_through : Bool → String → Option String
let_through true tool = some (normalize_tool_name tool)
let_through false tool = none

abbrev pub is_nil {ℓ} : {A : Type ℓ} → Option A → Bool
is_nil none = true
is_nil (some a) = false

-- The tool that the call was let through for, if it was.
abbrev pub is_charge : Option String → String → ℕ
is_charge none t = 0
is_charge (some tool) t = one_if (tool == t)

module _ (lib : Library) where
  unfoldable pub apply : Engine → Call → Engine × Option String
  apply e (check_call w tool input) =
      let r = check lib e w tool input in (r.0, let_through r.1.0 tool)
  apply e (consume_call tool) = let r = consume_quota e tool in (r.0, let_through (is_nil r.1) tool)
  apply e (resolve_call w id approve) = ((resolve lib e w id approve).0, none)

  unfoldable pub run : Engine → List Call → Engine
  unfolding apply
  run e [] = e
  run e (c ∷ cs) = run (apply e c).0 cs

  -- How many of the calls were let through for the tool `t`.
  unfoldable pub calls_for : Engine → List Call → String → ℕ
  unfolding apply
  calls_for e [] t = 0
  calls_for e (c ∷ cs) t = is_charge (apply e c).1 t + calls_for (apply e c).0 cs t

pub normalize_idem :
    (tool : String) → normalize_tool_name (normalize_tool_name tool) ≡ normalize_tool_name tool
unfolding normalize_tool_name
normalize_idem = trim_space_idem

pub usage_of-consume :
    (e : Engine) (tool t : String)
    → usage_of (consume_quota_locked e tool) t
      ≡ usage_of e t + one_if (normalize_tool_name tool == t)
unfolding usage_of consume_quota_locked
usage_of-consume e tool t = ground (
  arith,
  lookup-insert (normalize_tool_name tool) t (suc (usage_of e (normalize_tool_name tool))) e.usage,
  eq_iff (normalize_tool_name tool) t,
)

pub usage_of-consume_quota :
    (e : Engine) (tool t : String)
    → usage_of (consume_quota e tool).0 t
      ≡ usage_of e t + one_if (is_nil (consume_quota e tool).1 && (normalize_tool_name tool == t))
unfolding consume_quota
usage_of-consume_quota e tool t =
    ground (arith, usage_of-consume e (normalize_tool_name tool) t, normalize_idem tool)

module _ (lib : Library) where
  usage_of-check_lists :
      (e : Engine) (w : World) (tool input t : String)
      → normalize_tool_name tool ≡ tool
      → usage_of (check_lists lib e w tool input).0 t
        ≡ usage_of e t + one_if ((check_lists lib e w tool input).1.0 && (tool == t))
  unfolding check_lists create_approval
  usage_of-check_lists e w tool input t h = ground (arith, usage_of-consume e tool t)

  pub usage_of-check :
      (e : Engine) (w : World) (tool input t : String)
      → usage_of (check lib e w tool input).0 t
        ≡ usage_of e t + one_if ((check lib e w tool input).1.0 && (normalize_tool_name tool == t))
  unfolding check create_approval usage_of
  usage_of-check e w tool input t =
      ground
        (arith, usage_of-check_lists e w (normalize_tool_name tool) input t (normalize_idem tool))

-- ===== src/Cognitive/Context.antt =====
-- internal/cognitive/context.go: the context that a run carries and prunes to its token budget. A
-- budget of 0 stands for every `TokenBudget` that is not positive. The tool definitions and the
-- step index are left out: this package writes neither.
pub mod Pruning
use Prim.Native.String.{len}
use mathlib.Core.List.{reverse}
use heike.Prelude.{
  ℕ, zero, suc, ◌+◌, ◌-◌, ◌/◌, String, Bool, true, false, Option, none, some, List, [], ◌∷◌, ◌++◌,
  ◌==◌, leb, ltb, eqb, if◌then◌else◌, Dict,
}

pub record ToolCall : Type 0 where
  pub id : String
  pub name : String
  pub input : String

pub record Message : Type 0 where
  pub role : String
  pub content : String
  pub tool_call_id : String
  pub tool_calls : List ToolCall

pub record PlanStep : Type 0 where
  pub id : String
  pub description : String
  pub status : String

pub record Plan : Type 0 where
  pub steps : List PlanStep
  pub raw : String

pub data ControlSignal : Type 0 where
  proceed retry replan stop : ControlSignal

pub record Reflection : Type 0 where
  pub content : String
  pub next_action : ControlSignal
  pub new_memories : List String

pub record Context : Type 0 where
  pub session_id : String
  pub workspace_id : String
  pub available_skills : List String
  pub history : List Message
  pub memories : List String
  pub scratchpad : List String
  pub current_plan : Option Plan
  pub metadata : Dict String
  pub token_budget : ℕ
  pub token_usage : ℕ

-- len(s) / 4, in bytes
unfoldable pub estimate : String → ℕ
estimate s = len s / 4

abbrev pub message_cost : Message → ℕ
message_cost m = estimate m.content

unfoldable pub plan_cost : Option Plan → ℕ
plan_cost none = 0
plan_cost (some p) = estimate p.raw

-- for _, s := range c.Scratchpad { currentTokens += estimate(s) }
unfoldable pub total {ℓ} : {A : Type ℓ} → (A → ℕ) → List A → ℕ
total cost [] = 0
total cost (x ∷ xs) = cost x + total cost xs

-- The loop that keeps the first entries that fit; it gives those and the budget that is left.
unfoldable pub keep_first {ℓ} : {A : Type ℓ} → (A → ℕ) → ℕ → List A → List A × ℕ
keep_first cost remaining [] = ([], remaining)
keep_first cost remaining (x ∷ xs) =
    let rest = keep_first cost (remaining - cost x) xs in
    if leb (cost x) remaining then (x ∷ rest.0, rest.1) else ([], remaining)

-- The loop from the last entry back, over the entries still to come, last first: an entry that fits
-- is put before those that were kept.
unfoldable pub keep_back {ℓ} : {A : Type ℓ} → (A → ℕ) → ℕ → List A → List A → List A × ℕ
keep_back cost remaining kept [] = (kept, remaining)
keep_back cost remaining kept (x ∷ xs) =
    let rest = keep_back cost (remaining - cost x) (x ∷ kept) xs in
    if leb (cost x) remaining then rest else (kept, remaining)

unfoldable pub keep_last {ℓ} : {A : Type ℓ} → (A → ℕ) → ℕ → List A → List A × ℕ
unfolding keep_back
keep_last cost remaining xs = keep_back cost remaining [] (reverse xs)

-- The second half of `Prune`: memories, then history, in the budget that is left.
unfoldable pub prune_rest : Context → List String → ℕ → Context
prune_rest c scratchpad remaining =
    let m = keep_first estimate remaining c.memories in
    let h = keep_last message_cost m.1 c.history in
    record c {
      scratchpad = scratchpad;
      memories = m.0;
      history = h.0;
      token_usage = c.token_budget - h.1;
    }

unfoldable pub prune : Context → Context
prune c =
    let current = plan_cost c.current_plan + total estimate c.scratchpad in
    if eqb c.token_budget 0
    then c
    else if leb current c.token_budget
    then prune_rest c c.scratchpad (c.token_budget - current)
    else if ltb c.token_budget (plan_cost c.current_plan)
    then record c { scratchpad = []; memories = []; history = []; token_usage = c.token_budget }
    else (let s = keep_last estimate (c.token_budget - plan_cost c.current_plan) c.scratchpad in
        prune_rest c s.0 s.1)

-- The merge of a reflection, nil changing nothing.
unfoldable pub update : Context → Option Reflection → Context
update c none = c
update c (some r) = prune (record c {
  scratchpad = if r.content == "" then c.scratchpad else c.scratchpad ++ r.content ∷ [];
  memories = c.memories ++ r.new_memories;
})

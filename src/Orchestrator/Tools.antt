-- ===== src/Orchestrator/Tools.antt =====
-- internal/orchestrator/task/tool_broker.go: which tools a goal is offered. A score is what it gained
-- and what it lost.
pub mod Catalog
pub mod Choosing
use Prim.Native.String.{◌++◌ as text_append, compare}
use Prim.Native.Nat.{Ordering}
use heike.Prelude.{
  ℕ, zero, suc, ◌+◌, ◌*◌, String, Bool, true, false, not, ◌&&◌, ◌||◌, Option, none, some, List, [],
  ◌∷◌, ◌++◌, ◌==◌, eqb, leb, ltb, if◌then◌else◌, length, take, mem, trim_space,
}
use heike.Orchestrator.Parsing.Lines.{strip}
use heike.Orchestrator.Tools.Catalog.{
  Risk, low, medium, high, other, Descriptor, Capability, Words, into, into_all, tokenize,
  build_capability_catalog, find,
}

pub record Score : Type 0 where
  pub gained : ℕ
  pub lost : ℕ

pub record ScoredTool : Type 0 where
  pub tool : Descriptor
  pub score : Score
  pub reasons : List String

pub record ToolSelectionDetail : Type 0 where
  pub name : String
  pub score : Score
  pub reasons : List String

pub record ToolSelectionResult : Type 0 where
  pub tools : List Descriptor
  pub details : List ToolSelectionDetail

-- strings.Contains
unfoldable pub contains : String → String → Bool
unfolding strip
contains String.[] part = part == ""
contains (String.◌∷◌ c s) part = elim (strip part (String.◌∷◌ c s)) [
  | some rest ↦ true
  | none ↦ contains s part
]

abbrev pub exceeds : Score → Score → Bool
exceeds a b = ltb (b.gained + a.lost) (a.gained + b.lost)

abbrev pub less_text : String → String → Bool
less_text a b = elim (compare a b) [
  | Ordering.lt ↦ true
  | Ordering.eq ↦ false
  | Ordering.gt ↦ false
]

-- A score and its reasons.
abbrev pub Scoring : Type 0
Scoring = Score × List String

abbrev pub gain : Bool → ℕ → String → Scoring → Scoring
gain test n reason (s, reasons) =
    if test then (record s { gained = s.gained + n }, reasons ++ reason ∷ []) else (s, reasons)

abbrev pub lose : Bool → ℕ → String → Scoring → Scoring
lose test n reason (s, reasons) =
    if test then (record s { lost = s.lost + n }, reasons ++ reason ∷ []) else (s, reasons)

abbrev pub risk_penalty : Risk → Scoring → Scoring
risk_penalty high r = lose true 6 "risk_penalty_high" r
risk_penalty medium r = lose true 2 "risk_penalty_medium" r
risk_penalty low r = r
risk_penalty (other text) r = r

-- The boost of a score of 0.
abbrev pub safe_baseline : String → Scoring → Scoring
safe_baseline source (s, reasons) =
    gain (eqb s.gained s.lost && (source == "builtin" || source == "runtime")) 1 "safe_baseline"
      (s, reasons)

abbrev pub or_default_reason : Scoring → Scoring
or_default_reason (s, []) = (s, "default_scoring" ∷ [])
or_default_reason (s, r ∷ rs) = (s, r ∷ rs)

abbrev pub write_words : List String
write_words =
    "write" ∷ "create" ∷ "update" ∷ "edit" ∷ "modify" ∷ "patch" ∷ "save" ∷ "delete" ∷ "exec" ∷ "run"
    ∷ "command" ∷ "shell" ∷ []

unfoldable pub count_in : List String → List String → ℕ
unfolding mem
count_in [] goal = 0
count_in (t ∷ ts) goal = let rest = count_in ts goal in if mem t goal then suc rest else rest

unfoldable pub contains_goal_token : List String → List String → Bool
unfolding mem
contains_goal_token goal [] = false
contains_goal_token goal (c ∷ cs) = mem c goal || contains_goal_token goal cs

module _ (w : Words) (decimal : ℕ → String) where
  open w use {to_lower}

  abbrev pub cleaned : List String → List String
  cleaned [] = []
  cleaned (t ∷ ts) = trim_space (to_lower t) ∷ cleaned ts

  -- Each token counts once.
  unfoldable pub count_token_matches : List String → List String → ℕ
  unfolding count_in into_all trim_space
  count_token_matches tokens goal = count_in (into_all [] (cleaned tokens)) goal

  abbrev pub tokens_of : List String → List String
  tokens_of [] = []
  tokens_of (c ∷ cs) = cleaned (tokenize w c) ++ tokens_of cs

  unfoldable pub capability_token_set : List String → List String
  unfolding into_all tokenize trim_space
  capability_token_set capabilities = into_all [] (tokens_of capabilities)

  unfoldable pub score_capability : Capability → String → List String → Scoring
  unfolding count_token_matches capability_token_set count_in contains contains_goal_token mem
  score_capability c lower_goal goal_tokens =
      let tags = count_token_matches c.tags goal_tokens in
      let tokens = capability_token_set c.capabilities in
      let found = count_in tokens goal_tokens in
      let on_tags =
        gain (ltb 0 tags) (tags * 4) (text_append "tag_match:" (decimal tags))
          (record { gained = 0; lost = 0 }, []) in
      let on_capabilities =
        gain (ltb 0 found) (found * 6) (text_append "capability_match:" (decimal found)) on_tags in
      let on_name = gain (contains lower_goal c.name) 10 "direct_name_match" on_capabilities in
      let has_path = contains lower_goal "/" || contains lower_goal "\\" in
      let on_path = gain (has_path && mem "file" tokens) 6 "path_context_match" on_name in
      let on_risk =
        if contains_goal_token goal_tokens write_words
        then on_path
        else risk_penalty c.risk on_path in
      or_default_reason (safe_baseline c.source on_risk)

  -- The zero Capability.
  abbrev pub no_capability : Capability
  no_capability = record {
    name = "";
    description = "";
    tags = [];
    capabilities = [];
    source = "";
    risk = other "";
  }

  abbrev pub or_no_capability : Option Capability → Capability
  or_no_capability none = no_capability
  or_no_capability (some c) = c

  abbrev pub scored : Descriptor → Scoring → ScoredTool
  scored d (s, reasons) = record { tool = d; score = s; reasons = reasons }

  abbrev pub score_tool : List Descriptor → String → Descriptor → ScoredTool
  score_tool tools goal d = scored d (
      score_capability
        (or_no_capability
          (find w (build_capability_catalog w tools) (to_lower (trim_space d.name))))
        (to_lower goal) (into_all [] (tokenize w goal)))

  abbrev pub score_tools : List Descriptor → String → List Descriptor → List ScoredTool
  score_tools tools goal [] = []
  score_tools tools goal (d ∷ ds) = score_tool tools goal d ∷ score_tools tools goal ds

  -- The order of sort.Slice.
  abbrev pub before : ScoredTool → ScoredTool → Bool
  before a b =
      if exceeds a.score b.score || exceeds b.score a.score
      then exceeds a.score b.score
      else less_text (to_lower a.tool.name) (to_lower b.tool.name)

  abbrev pub tools_of : List ScoredTool → List Descriptor
  tools_of [] = []
  tools_of (c ∷ cs) = c.tool ∷ tools_of cs

  abbrev pub details_of : List ScoredTool → List ToolSelectionDetail
  details_of [] = []
  details_of (c ∷ cs) =
      record { name = c.tool.name; score = c.score; reasons = c.reasons } ∷ details_of cs

  abbrev pub within_budget : List Descriptor → List ToolSelectionDetail
  within_budget [] = []
  within_budget (d ∷ ds) =
      record {
        name = d.name;
        score = record { gained = 0; lost = 0 };
        reasons = "within_budget" ∷ [];
      }
      ∷ within_budget ds

  -- `sort` is sort.Slice by the order given; a limit that is not positive is 0.
  unfoldable pub select_with_metadata :
      ((ScoredTool → ScoredTool → Bool) → List ScoredTool → List ScoredTool)
      → ℕ
      → String
      → List Descriptor
      → ToolSelectionResult
  unfolding score_capability build_capability_catalog find into_all tokenize trim_space
  select_with_metadata sort max_tools goal tools =
      let candidates = sort before (score_tools tools goal tools) in
      if eqb max_tools 0 || leb (length tools) max_tools
      then record { tools = tools; details = within_budget tools }
      else record {
        tools = tools_of (take max_tools candidates);
        details = details_of (take max_tools candidates);
      }

  -- applyToolDefinitions: no tool selected leaves them all.
  abbrev pub or_all : List Descriptor → List Descriptor → List Descriptor
  or_all [] all = all
  or_all (d ∷ ds) all = d ∷ ds

  unfoldable pub apply_tool_definitions :
      ((ScoredTool → ScoredTool → Bool) → List ScoredTool → List ScoredTool)
      → Option ℕ
      → String
      → List Descriptor
      → List Descriptor
  unfolding select_with_metadata
  apply_tool_definitions sort none goal tools = tools
  apply_tool_definitions sort (some max_tools) goal tools =
      or_all (select_with_metadata sort max_tools goal tools).tools tools

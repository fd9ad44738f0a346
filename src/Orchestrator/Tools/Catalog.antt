-- ===== src/Orchestrator/Tools/Catalog.antt =====
-- internal/orchestrator/task/capability_catalog.go: what the tools can do.
use Prim.Native.Char.{code}
use Prim.Native.String.{len}
use text.Mathlib.Text.{starts_with}
use heike.Prelude.{
  ℕ, String, Bool, true, false, not, ◌&&◌, ◌||◌, Option, none, some, List, [], ◌∷◌, ◌++◌, ◌==◌, eqb,
  leb, if◌then◌else◌, mem, trim_space, Dict, lookup, insert,
}

pub data Risk : Type 0 where
  low medium high : Risk
  other : String → Risk

-- tool.ToolDescriptor; the parameters of a definition are left out, the broker never reads them.
pub record Descriptor : Type 0 where
  pub name : String
  pub description : String
  pub source : String
  pub capabilities : List String
  pub risk : Risk

pub record Capability : Type 0 where
  pub name : String
  pub description : String
  pub tags : List String
  pub capabilities : List String
  pub source : String
  pub risk : Risk

pub record CapabilityCatalog : Type 0 where
  pub ordered : List Capability
  pub by_name : Dict Capability

-- strings.ToLower, strings.Fields and sort.Strings, and the names that the catalog of built-in tools
-- holds.
pub record Words : Type 0 where
  pub to_lower : String → String
  pub fields : String → List String
  pub sorted : List String → List String
  pub builtin_names : List String

-- strings.NewReplacer(".", " ", "_", " ", "-", " ", "/", " ", ":", " ", ",", " ")
abbrev pub is_separator : ℕ → Bool
is_separator c = eqb c 46 || eqb c 95 || eqb c 45 || eqb c 47 || eqb c 58 || eqb c 44

unfoldable pub replace_separators : String → String
replace_separators String.[] = String.[]
replace_separators (String.◌∷◌ c s) =
    let rest = replace_separators s in
    if is_separator (code c) then String.◌∷◌ " " rest else String.◌∷◌ c rest

-- A name into a set.
abbrev pub into : List String → String → List String
into set name = if name == "" || mem name set then set else set ++ name ∷ []

unfoldable pub into_all : List String → List String → List String
unfolding mem
into_all set [] = set
into_all set (n ∷ ns) = into_all (into set n) ns

module _ (w : Words) where
  open w use {to_lower}

  unfoldable pub tokenize : String → List String
  unfolding replace_separators trim_space
  tokenize text =
      let normalized = to_lower (trim_space text) in
      if normalized == "" then [] else w.fields (replace_separators normalized)

  abbrev pub tag_of : String → String
  tag_of tag = trim_space (to_lower tag)

  abbrev pub long_tags : List String → List String
  long_tags [] = []
  long_tags (t ∷ ts) = if leb 4 (len t) then tag_of t ∷ long_tags ts else long_tags ts

  abbrev pub tags_of : List String → List String
  tags_of [] = []
  tags_of (t ∷ ts) = tag_of t ∷ tags_of ts

  abbrev pub capability_tags : List String → List String
  capability_tags [] = []
  capability_tags (c ∷ cs) = tags_of (tokenize c) ++ capability_tags cs

  unfoldable pub derive_tags : Descriptor → List String
  unfolding into_all tokenize
  derive_tags d = w.sorted (
      into_all [] (
        tags_of (tokenize d.name)
        ++ (long_tags (tokenize d.description) ++ capability_tags d.capabilities)))

  abbrev pub is_builtin_name : String → Bool
  is_builtin_name name = not (trim_space name == "") && mem (trim_space name) w.builtin_names

  unfoldable pub infer_source : String → String → String
  unfolding trim_space mem
  infer_source name source =
      let given = trim_space (to_lower source) in
      if not (given == "")
      then given
      else if is_builtin_name name
      then "builtin"
      else if starts_with name "builtin."
      then "builtin"
      else if starts_with name "skill."
      then "skill"
      else if starts_with name "community."
      then "community"
      else if starts_with name "org."
      then "organization"
      else "runtime"

  abbrev pub catalog_key : String → String
  catalog_key name = trim_space (to_lower name)

  abbrev pub capability_of : Descriptor → Capability
  capability_of d = record {
    name = catalog_key d.name;
    description = trim_space d.description;
    tags = derive_tags d;
    capabilities = d.capabilities;
    source = infer_source (catalog_key d.name) d.source;
    risk = d.risk;
  }

  abbrev pub is_known : Option Capability → Bool
  is_known none = false
  is_known (some c) = true

  abbrev pub add_capability : Dict Capability → Descriptor → Dict Capability
  add_capability unique d =
      if catalog_key d.name == "" || is_known (lookup (catalog_key d.name) unique)
      then unique
      else insert (catalog_key d.name) (capability_of d) unique

  unfoldable pub unique_capabilities : Dict Capability → List Descriptor → Dict Capability
  unfolding trim_space lookup insert derive_tags infer_source
  unique_capabilities unique [] = unique
  unique_capabilities unique (d ∷ ds) = unique_capabilities (add_capability unique d) ds

  abbrev pub names_of : Dict Capability → List String
  names_of [] = []
  names_of ((name, c) ∷ rest) = name ∷ names_of rest

  abbrev pub in_order : Dict Capability → List String → List Capability
  in_order unique [] = []
  in_order unique (n ∷ ns) = elim (lookup n unique) [
    | none ↦ in_order unique ns
    | some c ↦ c ∷ in_order unique ns
  ]

  unfoldable pub build_capability_catalog : List Descriptor → CapabilityCatalog
  unfolding unique_capabilities lookup
  build_capability_catalog tools =
      let unique = unique_capabilities [] tools in
      record { ordered = in_order unique (w.sorted (names_of unique)); by_name = unique }

  unfoldable pub find : CapabilityCatalog → String → Option Capability
  unfolding trim_space lookup
  find catalog name = lookup (catalog_key name) catalog.by_name

-- ===== src/Orchestrator/Skills.antt =====
-- internal/orchestrator/task/manager.go: the skills of a request. The provider of skills is an
-- interface there, which may hold nothing; a nil skill is `none`.
pub mod Selection
use Prim.Native.String.{◌++◌ as text_append, len, slice}
use heike.Prelude.{
  ℕ, zero, suc, ◌*◌, String, Bool, true, false, not, ◌||◌, Option, none, some, List, [], ◌∷◌, ◌++◌,
  ◌==◌, leb, eqb, if◌then◌else◌, length, take, mem, trim_space, insert,
}
use heike.Errors.{Err, Result, ok, err, plain}
use heike.Cognitive.Context.{Context}

pub record Skill : Type 0 where
  pub name : String
  pub description : String
  pub tools : List String
  pub tags : List String
  pub content : String

pub record Provider : Type 0 where
  pub get : String → Result (Option Skill)
  pub get_relevant : String → ℕ → Result (List (Option Skill))

-- `matches` are the first groups of skillMentionPattern, `words` is strings.Fields.
pub record Texts : Type 0 where
  pub matches : String → List String
  pub words : String → List String
  pub to_lower : String → String

abbrev pub default_skill_selection_limit : ℕ
default_skill_selection_limit = 4

abbrev pub max_skill_content_chars : ℕ
max_skill_content_chars = 600

unfoldable pub join : String → List String → String
join separator [] = ""
join separator (s ∷ []) = s
join separator (s ∷ r ∷ rest) = text_append s (text_append separator (join separator (r ∷ rest)))

-- The answer to the first look-up, or else the best alternative.
abbrev pub alternative : Err → Result (List (Option Skill)) → Result (Option Skill)
alternative e (err other) = err other
alternative e (ok []) = err e
alternative e (ok (skill ∷ rest)) = ok skill

abbrev pub or_alternative :
    Result (Option Skill) → Result (List (Option Skill)) → Result (Option Skill)
or_alternative (ok skill) others = ok skill
or_alternative (err e) others = alternative e others

unfoldable pub resolve_skill_mention : Provider → String → Result (Option Skill)
resolve_skill_mention p name =
    if trim_space name == ""
    then err (plain "empty skill mention" [])
    else or_alternative (p.get (trim_space name)) (p.get_relevant (trim_space name) 1)

module _ (texts : Texts) where
  open texts use {to_lower}

  -- The loop over the matches, with the keys seen.
  unfoldable pub mentions_from : List String → List String → List String
  unfolding mem
  mentions_from seen [] = []
  mentions_from seen (m ∷ ms) =
      let name = trim_space m in
      let rest = mentions_from (to_lower name ∷ seen) ms in
      let skipped = mentions_from seen ms in
      if name == "" || mem (to_lower name) seen then skipped else name ∷ rest

  unfoldable pub extract_skill_mentions : String → List String
  unfolding mentions_from
  extract_skill_mentions goal = mentions_from [] (texts.matches goal)

  abbrev pub key : Skill → String
  key skill = to_lower (trim_space skill.name)

  -- Those selected, and the keys seen.
  abbrev pub Selection : Type 0
  Selection = List Skill × List String

  unfoldable pub add : Selection → Option Skill → Selection
  unfolding mem
  add (selected, seen) none = (selected, seen)
  add (selected, seen) (some skill) =
      if key skill == "" || mem (key skill) seen
      then (selected, seen)
      else (selected ++ skill ∷ [], key skill ∷ seen)

  abbrev pub add_resolved : Selection → Result (Option Skill) → Selection
  add_resolved s (err e) = s
  add_resolved s (ok skill) = add s skill

  -- The loop over the mentions, left when enough are selected.
  unfoldable pub add_mentions : Provider → ℕ → Selection → List String → Selection
  unfolding add resolve_skill_mention
  add_mentions p limit s [] = s
  add_mentions p limit s (m ∷ ms) =
      let rest = add_mentions p limit (add_resolved s (resolve_skill_mention p m)) ms in
      if leb limit (length s.0) then s else rest

  -- The loop over the relevant skills, left when enough are selected.
  unfoldable pub add_relevant : ℕ → Selection → List (Option Skill) → Selection
  unfolding add
  add_relevant limit s [] = s
  add_relevant limit s (c ∷ cs) =
      let added = add s c in
      let rest = add_relevant limit added cs in if leb limit (length added.0) then added else rest

  -- The skills, and the error of the search for relevant ones.
  abbrev pub with_relevant : ℕ → Selection → Result (List (Option Skill)) → List Skill × Option Err
  with_relevant limit s (err e) = (s.0, some e)
  with_relevant limit s (ok cs) = ((add_relevant limit s cs).0, none)

  unfoldable pub select_skills : Option Provider → String → ℕ → List Skill × Option Err
  unfolding extract_skill_mentions add_mentions add_relevant
  select_skills none goal limit = ([], none)
  select_skills (some p) goal limit =
      let s = add_mentions p limit ([], []) (extract_skill_mentions goal) in
      if eqb limit 0
      then ([], none)
      else if leb limit (length s.0)
      then (take limit s.0, none)
      else with_relevant limit s (p.get_relevant goal (limit * 2))

  -- Go cuts at a byte; a character that the cut falls in is left out here.
  unfoldable pub compact_skill_content : String → String
  unfolding join
  compact_skill_content content =
      let clean = join " " (texts.words (trim_space content)) in
      if leb (len clean) max_skill_content_chars
      then clean
      else text_append (slice clean 0 max_skill_content_chars) "..."

  abbrev pub listed : String → List String → List String
  listed label [] = []
  listed label (x ∷ xs) = text_append label (join ", " (x ∷ xs)) ∷ []

  unfoldable pub format_skill_context_line : Skill → String
  unfolding compact_skill_content join
  format_skill_context_line skill =
      let description = trim_space skill.description in
      let shown = if description == "" then "No description provided" else description in
      let head = text_append "- " (text_append (trim_space skill.name) (text_append ": " shown)) in
      let content = compact_skill_content skill.content in
      let guidance = if content == "" then [] else text_append "guidance=" content ∷ [] in
      join " | " (head ∷ (listed "tools=" skill.tools ++ (listed "tags=" skill.tags ++ guidance)))

  abbrev pub is_named : Skill → Bool
  is_named skill = not (trim_space skill.name == "")

  -- The loop of applySkillContext.
  unfoldable pub names_and_details : List Skill → List String × List String
  unfolding format_skill_context_line
  names_and_details [] = ([], [])
  names_and_details (skill ∷ rest) =
      let later = names_and_details rest in
      if is_named skill
      then (trim_space skill.name ∷ later.0, format_skill_context_line skill ∷ later.1)
      else later

  abbrev pub set_skills : Context → List String × List String → Context
  set_skills c ([], details) = c
  set_skills c (n ∷ ns, details) = record c {
    available_skills = n ∷ ns;
    metadata = insert "skills_context" (join "\n" details) c.metadata;
  }

  abbrev pub unless_failed : Context → List Skill × Option Err → Context
  unless_failed c (selected, some e) = c
  unless_failed c (selected, none) = set_skills c (names_and_details selected)

  unfoldable pub apply_skill_context : Option Provider → Context → String → Context
  unfolding select_skills names_and_details insert join
  apply_skill_context none c goal = c
  apply_skill_context (some p) c goal =
      unless_failed c (select_skills (some p) goal default_skill_selection_limit)

-- ===== src/Orchestrator/Parsing/Lines.antt =====
-- internal/orchestrator/task/manager.go: a response's text, its lines and its brackets. Go reads bytes
-- where these read characters: every byte it tests for is a character of its own.
mod Markers
use Prim.Native.Char.{Char, code}
use Prim.Native.String.{◌++◌ as text_append}
use heike.Prelude.{
  ℕ, zero, suc, ◌-◌, String, Bool, true, false, not, ◌&&◌, ◌||◌, Option, none, some, List, [], ◌∷◌,
  ◌==◌, leb, eqb, if◌then◌else◌, trim_space, length, codes,
}
use heike.Orchestrator.Batches.{SubTask}

-- The text behind a prefix.
unfoldable pub strip : String → String → Option String
strip String.[] s = some s
strip (String.◌∷◌ c p) String.[] = none
strip (String.◌∷◌ c p) (String.◌∷◌ d s) =
    let rest = strip p s in if eqb (code c) (code d) then rest else none

abbrev pub or_whole : Option String → String → String
or_whole none s = s
or_whole (some rest) s = rest

unfoldable pub trim_prefix : String → String → String
unfolding strip
trim_prefix p s = or_whole (strip p s) s

unfoldable pub trim_suffix : String → String → String
trim_suffix p String.[] = String.[]
trim_suffix p (String.◌∷◌ c s) =
    let rest = String.◌∷◌ c (trim_suffix p s) in if String.◌∷◌ c s == p then String.[] else rest

unfoldable pub clean_model_json_block : String → String
unfolding trim_prefix trim_suffix trim_space
clean_model_json_block s =
    trim_space (trim_suffix "```" (trim_prefix "```" (trim_prefix "```json" (trim_space s))))

-- strings.Split at line ends
abbrev pub onto_line : Char → List String → List String
onto_line c [] = String.◌∷◌ c String.[] ∷ []
onto_line c (l ∷ ls) = String.◌∷◌ c l ∷ ls

unfoldable pub split_text : String → List String
split_text String.[] = "" ∷ []
split_text (String.◌∷◌ c s) =
    let rest = split_text s in if eqb (code c) 10 then "" ∷ rest else onto_line c rest

-- One prefix of a list item, and whether it was there.
abbrev pub behind : Option String → String × Bool → String × Bool
behind none r = r
behind (some rest) r = (trim_space rest, true)

unfoldable pub strip_marker : String → String × Bool → String × Bool
unfolding strip trim_space
strip_marker p r = behind (strip p r.0) r

-- One round over the three prefixes.
unfoldable pub strip_round : String → String × Bool
unfolding strip_marker
strip_round s = strip_marker "> " (strip_marker "* " (strip_marker "- " (s, false)))

-- The rounds, on fuel: each that changes the text makes it shorter.
unfoldable pub strip_markers : ℕ → String → String
unfolding strip_round
strip_markers zero s = s
strip_markers (suc fuel) s =
    let rest = strip_markers fuel (strip_round s).0 in
    if (strip_round s).1 then rest else (strip_round s).0

abbrev pub is_digit : Char → Bool
is_digit c = leb 48 (code c) && leb (code c) 57

abbrev pub starts_digit : String → Bool
starts_digit String.[] = false
starts_digit (String.◌∷◌ c s) = is_digit c

unfoldable pub drop_digits : String → String
drop_digits String.[] = String.[]
drop_digits (String.◌∷◌ c s) =
    let rest = drop_digits s in if is_digit c then rest else String.◌∷◌ c s

-- White space of one byte.
abbrev pub is_blank_byte : Char → Bool
is_blank_byte c = (leb 9 (code c) && leb (code c) 13) || eqb (code c) 32

unfoldable pub drop_blanks : String → String
drop_blanks String.[] = String.[]
drop_blanks (String.◌∷◌ c s) =
    let rest = drop_blanks s in if is_blank_byte c then rest else String.◌∷◌ c s

-- What stands behind a number: nothing is cut without one of . ) - :
abbrev pub behind_number : String → String → String
behind_number line String.[] = line
behind_number line (String.◌∷◌ c s) =
    if eqb (code c) 46 || eqb (code c) 41 || eqb (code c) 45 || eqb (code c) 58
    then drop_blanks s
    else line

unfoldable pub trim_line_number_prefix : String → String
unfolding drop_digits drop_blanks
trim_line_number_prefix line =
    if starts_digit line then behind_number line (drop_digits line) else line

abbrev pub size : String → ℕ
size s = length (codes s)

unfoldable pub normalize_task_line : String → String
unfolding strip_markers trim_line_number_prefix trim_space
normalize_task_line line =
    let clean = trim_space line in
    trim_space (trim_line_number_prefix (strip_markers (size clean) clean))

-- A token of capitals, digits, _ and -; `is_upper` and `is_number` are unicode.IsUpper and IsDigit.
module _ (is_upper is_number : ℕ → Bool) where
  abbrev pub control_codes : List ℕ → Bool
  control_codes [] = true
  control_codes (c ∷ cs) = (is_upper c || is_number c || eqb c 95 || eqb c 45) && control_codes cs

  abbrev pub has_blank : List ℕ → Bool
  has_blank [] = false
  has_blank (c ∷ cs) = eqb c 32 || has_blank cs

  unfoldable pub looks_like_control_token : (String → ℕ) → String → Bool
  unfolding trim_space
  looks_like_control_token len s =
      let token = trim_space s in
      not (token == "")
      && not (has_blank (codes token))
      && leb (len token) 80
      && control_codes (codes token)

-- ===== src/Orchestrator/Parsing/Brackets.antt =====
-- internal/orchestrator/task/manager.go: `extractFirstBalancedJSON`. Brackets in a JSON string do not
-- count, and a backslash in a string escapes the character behind it.
pub mod Balanced
pub mod Completeness
use Prim.Native.Char.{Char, code}
use heike.Prelude.{
  ℕ, zero, suc, String, Bool, true, false, Option, none, some, eqb, if◌then◌else◌, trim_space,
}

unfoldable pub snoc : String → Char → String
snoc String.[] c = String.◌∷◌ c String.[]
snoc (String.◌∷◌ d s) c = String.◌∷◌ d (snoc s c)

-- What was read since the bracket at depth 0, the depth, and whether the loop is in a string.
pub record Scan : Type 0 where
  pub taken : String
  pub depth : ℕ
  pub in_string : Bool
  pub escaped : Bool

pub data Progress : Type 0 where
  done : String → Progress
  more : Scan → Progress

abbrev pub fresh : Scan
fresh = record { taken = ""; depth = 0; in_string = false; escaped = false }

abbrev pub take_char : Scan → Char → String
take_char st c = if eqb st.depth 0 then st.taken else snoc st.taken c

abbrev pub in_quotes : Scan → Char → Progress
in_quotes st c =
    if st.escaped
    then more (record st { taken = take_char st c; escaped = false })
    else if eqb (code c) 92
    then more (record st { taken = take_char st c; escaped = true })
    else if eqb (code c) 34
    then more (record st { taken = take_char st c; in_string = false })
    else more (record st { taken = take_char st c })

-- A closing bracket.
abbrev pub close_one : Scan → Char → ℕ → Progress
close_one st c zero = more st
close_one st c (suc zero) = done (snoc st.taken c)
close_one st c (suc (suc n)) = more (record st { taken = snoc st.taken c; depth = suc n })

abbrev pub open_one : Scan → Char → ℕ → Progress
open_one st c zero = more (record st { taken = String.◌∷◌ c String.[]; depth = 1 })
open_one st c (suc n) = more (record st { taken = snoc st.taken c; depth = suc (suc n) })

module _ (opening closing : ℕ) where
  -- The body of the loop.
  unfoldable pub scan_char : Scan → Char → Progress
  unfolding snoc
  scan_char st c =
      if st.in_string
      then in_quotes st c
      else if eqb (code c) 34
      then more (record st { taken = take_char st c; in_string = true })
      else if eqb (code c) opening
      then open_one st c st.depth
      else if eqb (code c) closing
      then close_one st c st.depth
      else more (record st { taken = take_char st c })

  abbrev pub scan_next : Progress → Char → Progress
  scan_next (done t) c = done t
  scan_next (more st) c = scan_char st c

  -- The loop.
  unfoldable pub scan_from : Progress → String → Progress
  unfolding scan_char
  scan_from p String.[] = p
  scan_from p (String.◌∷◌ c s) = scan_from (scan_next p c) s

  abbrev pub outcome : Progress → Option String
  outcome (done t) = some t
  outcome (more st) = none

  unfoldable pub first_balanced : String → Option String
  unfolding scan_from
  first_balanced s = outcome (scan_from (more fresh) s)

  abbrev pub trimmed : Option String → String
  trimmed none = ""
  trimmed (some t) = trim_space t

  unfoldable pub extract_first_balanced_json : String → String
  unfolding first_balanced trim_space
  extract_first_balanced_json s = trimmed (first_balanced s)

-- ===== src/Orchestrator/History.antt =====
-- What a session's context holds of the interactions that were appended to it.
use heike.Prelude.{
  ℕ, zero, suc, ◌-◌, ◌≤◌, String, ◌≡◌, refl, ap, ◌∙◌, inl, inr, ◌&&◌, Option, none, some, List, [],
  ◌∷◌, arith, ltb, lookup, length, drop, Bool-cases, All,
}
use heike.Errors.{Result, ok}
use heike.Cognitive.Context.{Message}
use heike.Store.Lines.{IsLine, unlines}
use heike.Store.Transcripts.{Files, Disk, size, append_transcript, last_lines, read_transcript}
use heike.Store.RoundTrip.{IsQuiet, IsWritten, write_all, kept, lines_of, read_transcript-write_all}
use heike.Orchestrator.Session.{
  SessionEvent, Json, Moment, to_message, interaction, write_line, append_interaction, add_message,
  parse_history_lines, lines_read, get_context,
}

-- What is needed of encoding/json: an event is one line, and is read back.
pub record IsFaithful (json : Json) (line : SessionEvent → List ℕ) (e : SessionEvent) : Type 0 where
  pub marshal : json.marshal e ≡ ok (line e)
  pub unmarshal : json.unmarshal (line e) ≡ some e
  pub proper : IsLine (line e)

-- An interaction: when, in what role, and what is said.
abbrev pub Saying : Type 0
Saying = Moment × String × String

abbrev pub event_of : Saying → SessionEvent
event_of (m, role, content) = interaction m role content

abbrev pub converse : Json → ℕ → String → Files → List Saying → Files
converse json max_bytes id f [] = f
converse json max_bytes id f ((m, role, content) ∷ rest) =
    converse json max_bytes id (append_interaction json max_bytes f m id role content).0 rest

abbrev pub writes : (SessionEvent → List ℕ) → List Saying → List (Disk × List ℕ)
writes line [] = []
writes line ((m, role, content) ∷ rest) =
    (m.disk, line (interaction m role content)) ∷ writes line rest

abbrev pub said : List Saying → List Message
said [] = []
said (s ∷ rest) = to_message (event_of s) ∷ said rest

abbrev pub Faithful : Json → (SessionEvent → List ℕ) → List Saying → Type 0
Faithful json line = All (λ (s : Saying). IsFaithful json line (event_of s))

abbrev pub Quiet : List Saying → Type 0
Quiet [] = Unit
Quiet ((m, role, content) ∷ rest) = IsQuiet m.disk × Quiet rest

module _ (json : Json) (line : SessionEvent → List ℕ) (max_bytes : ℕ) (id : String) where
  converse-write_all :
      (f : Files) (ws : List Saying)
      → Faithful json line ws
      → converse json max_bytes id f ws ≡ write_all f max_bytes id (writes line ws)
  unfolding append_interaction
  converse-write_all f [] h = refl
  converse-write_all f ((m, role, content) ∷ rest) h =
      ap
        (λ (r : Result (List ℕ)).
          converse json max_bytes id (write_line f max_bytes m.disk id "marshal failed: %w" r).0
            rest)
        h.0.marshal
      ∙ converse-write_all
          (append_transcript f max_bytes m.disk id (line (interaction m role content))).0 rest h.1

  writes-IsWritten :
      (ws : List Saying) → Faithful json line ws → Quiet ws → All IsWritten (writes line ws)
  writes-IsWritten [] h q = tt
  writes-IsWritten ((m, role, content) ∷ rest) h q =
      ((q.0, h.0.proper), writes-IsWritten rest h.1 q.1)

  parse-writes :
      (ws : List Saying)
      → Faithful json line ws
      → parse_history_lines json (lines_of (writes line ws)) ≡ said ws
  unfolding parse_history_lines
  parse-writes [] h = refl
  parse-writes ((m, role, content) ∷ rest) h =
      ap
        (λ (o : Option SessionEvent).
          add_message o (parse_history_lines json (lines_of (writes line rest))))
        h.0.unmarshal
      ∙ ap (λ (l : List Message). to_message (interaction m role content) ∷ l)
          (parse-writes rest h.1)

  parse-drop :
      (n : ℕ) (ws : List Saying)
      → Faithful json line ws
      → parse_history_lines json (drop n (lines_of (writes line ws))) ≡ drop n (said ws)
  unfolding parse_history_lines
  parse-drop zero ws h = parse-writes ws h
  parse-drop (suc n) [] h = refl
  parse-drop (suc n) ((m, role, content) ∷ rest) h = parse-drop n rest h.1

  length-said : (ws : List Saying) → length (lines_of (writes line ws)) ≡ length (said ws)
  length-said [] = refl
  length-said ((m, role, content) ∷ rest) = omega (arith, length-said rest)

  parse-last_lines :
      (limit : ℕ) (ws : List Saying)
      → Faithful json line ws
      → parse_history_lines json (last_lines limit (lines_of (writes line ws)))
        ≡ last_lines limit (said ws)
  parse-last_lines limit ws h = elim (Bool-cases (ltb 0 limit && ltb limit (length (said ws)))) [
    | inl some_left ↦
        rw (length-said ws) (rw some_left (parse-drop (length (said ws) - limit) ws h))
    | inr all ↦ rw (length-said ws) (rw all (parse-writes ws h))
  ]

-- A session's context holds, as its history, the interactions that were appended to the session, in
-- their order, or the last of them up to the limit: when each of them is encoded as a line that is
-- decoded as the same, the session had no transcript before, no
-- call of the file system fails, and the lines together stay below the size of a rotation.
pub get_context-said :
    (json : Json) (memory : Option (String → Result (List String))) (max_bytes history_limit : ℕ)
    (id : String) (f : Files) (ws : List Saying) (m : Moment) (line : SessionEvent → List ℕ)
    → Faithful json line ws
    → lookup id f.transcripts ≡ none
    → Quiet ws
    → IsQuiet m.disk
    → size (unlines (lines_of (writes line ws))) ≤ max_bytes
    → (get_context json memory history_limit (converse json max_bytes id f ws) m id).history
      ≡ last_lines history_limit (said ws)
unfolding get_context
get_context-said json memory max_bytes limit id f ws m line laws missing quiet calm small =
    let r =
      read_transcript-write_all f max_bytes id (writes line ws) m.disk limit missing
        (writes-IsWritten json line max_bytes id ws laws quiet) calm in
    let whole : kept max_bytes [] (writes line ws) ≡ lines_of (writes line ws) = elim r.1 [
      | inl e ↦ e
      | inr large ↦ absurd (omega (arith, small, large))
    ] in
    ap (λ (g : Files). parse_history_lines json (lines_read (read_transcript g m.disk id limit)))
      (converse-write_all json line max_bytes id f ws laws)
    ∙ ap (λ (o : Result (List (List ℕ))). parse_history_lines json (lines_read o)) r.0
    ∙ ap (λ (l : List (List ℕ)). parse_history_lines json (last_lines limit l)) whole
    ∙ parse-last_lines json line max_bytes id limit ws laws

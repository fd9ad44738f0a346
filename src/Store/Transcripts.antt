-- ===== src/Store/Transcripts.antt =====
-- internal/store/worker.go: `checkAndRotate`, `appendTranscript`, `readTranscript` and `resetSession`.
-- A file is its code points, and its size that of their UTF-8 form.
use Prim.Native.String.{◌++◌ as text_append}
use heike.Prelude.{
  ℕ, ◌+◌, ◌-◌, String, Bool, false, ◌&&◌, Option, none, some, List, [], ◌∷◌, ◌++◌, ltb,
  if◌then◌else◌, Dict, lookup, insert, delete, length, drop,
}
use heike.Errors.{Err, Result, ok, err, wrapped, external}
use heike.Ingress.Resolver.{SessionIndex}
use heike.Store.Lines.{newline, is_nil, trim_codes, split_lines}

-- The transcript files by session and the backups by path.
pub record Files : Type 0 where
  pub transcripts : Dict (List ℕ)
  pub backups : Dict (List ℕ)

-- What the file system and the clock give one operation. `written` is how much of the data a write
-- that fails leaves in the file.
pub record Disk : Type 0 where
  pub timestamp : String
  pub stat_error : Option Err
  pub rename_error : Option Err
  pub create_error : Option Err
  pub open_error : Option Err
  pub write_error : Option Err
  pub written : List ℕ
  pub newline_error : Option Err
  pub sync_error : Option Err
  pub read_error : Option Err
  pub remove_error : Option Err
  pub index_writable : Bool

-- The bytes of a code point in UTF-8.
abbrev pub width : ℕ → ℕ
width c = if ltb c 0x80 then 1 else if ltb c 0x800 then 2 else if ltb c 0x10000 then 3 else 4

abbrev pub size : List ℕ → ℕ
size [] = 0
size (c ∷ s) = width c + size s

abbrev pub backup_path : String → String → String
backup_path id timestamp = text_append id (text_append ".jsonl." (text_append timestamp ".bak"))

-- The renamed file, and the new one when it can be made.
abbrev pub rotated : Files → Disk → String → List ℕ → Files × Option Err
rotated f disk id bytes = elim disk.rename_error [
  | some e ↦ (f, some (wrapped "failed to rename: %w" [] e))
  | none ↦ elim disk.create_error [
    | some e ↦ (
      record {
        transcripts = delete id f.transcripts;
        backups = insert (backup_path id disk.timestamp) bytes f.backups;
      },
      some (wrapped "failed to create new transcript: %w" [] e),
    )
    | none ↦ (
      record {
        transcripts = insert id [] f.transcripts;
        backups = insert (backup_path id disk.timestamp) bytes f.backups;
      },
      none,
    )
  ]
]

abbrev pub rotate_found : Files → ℕ → Disk → String → Option (List ℕ) → Files × Option Err
rotate_found f max_bytes disk id none = (f, none)
rotate_found f max_bytes disk id (some bytes) = elim disk.stat_error [
  | some e ↦ (f, some e)
  | none ↦ if ltb (size bytes) max_bytes then (f, none) else rotated f disk id bytes
]

unfoldable pub check_and_rotate : Files → ℕ → Disk → String → Files × Option Err
unfolding lookup insert delete
check_and_rotate f max_bytes disk id = rotate_found f max_bytes disk id (lookup id f.transcripts)

-- A file that is opened to append, and is made when it is missing.
abbrev pub content : Option (List ℕ) → List ℕ
content none = []
content (some bytes) = bytes

abbrev pub add_codes : Files → String → List ℕ → Files
add_codes f id bytes = record f {
  transcripts = insert id (content (lookup id f.transcripts) ++ bytes) f.transcripts;
}

-- The writes to the file that is open.
abbrev pub append_opened : Files → Disk → String → List ℕ → Files × Option Err
append_opened f disk id bytes = elim disk.write_error [
  | some e ↦ (add_codes f id disk.written, some e)
  | none ↦ elim disk.newline_error [
    | some e ↦ (add_codes f id bytes, some e)
    | none ↦ (add_codes f id (bytes ++ newline ∷ []), disk.sync_error)
  ]
]

-- An error of the rotation is only logged.
unfoldable pub append_transcript : Files → ℕ → Disk → String → List ℕ → Files × Option Err
unfolding check_and_rotate lookup insert
append_transcript f max_bytes disk id bytes =
    let f' = (check_and_rotate f max_bytes disk id).0 in
    elim disk.open_error [ some e ↦ (f', some e) | none ↦ append_opened f' disk id bytes ]

abbrev pub is_blank : List (List ℕ) → Bool
is_blank [] = false
is_blank (l ∷ []) = is_nil l
is_blank (l ∷ k ∷ ls) = false

-- The last lines when there is a limit.
abbrev pub last_lines {ℓ} : {A : Type ℓ} → ℕ → List A → List A
last_lines limit lines =
    if ltb 0 limit && ltb limit (length lines) then drop (length lines - limit) lines else lines

abbrev pub read_lines : ℕ → List (List ℕ) → List (List ℕ)
read_lines limit lines = if is_blank lines then [] else last_lines limit lines

-- A limit below 0 is as 0.
unfoldable pub read_transcript : Files → Disk → String → ℕ → Result (List (List ℕ))
unfolding lookup trim_codes split_lines
read_transcript f disk id limit = elim (lookup id f.transcripts) [
  | none ↦ ok []
  | some bytes ↦ elim disk.read_error [
    | some e ↦ err e
    | none ↦ ok (read_lines limit (split_lines (trim_codes bytes)))
  ]
]

-- The index without the session, saved when it can be written.
abbrev pub forget_session : SessionIndex → Bool → String → SessionIndex
forget_session s writable id =
    if writable
    then record { sessions = delete id s.sessions; saved = delete id s.sessions }
    else record s { sessions = delete id s.sessions }

unfoldable pub reset_session :
    Files → SessionIndex → Disk → String → (Files × SessionIndex) × Option Err
unfolding delete
reset_session f s disk id = elim disk.remove_error [
  | some e ↦ ((f, s), some e)
  | none ↦ (
    (record f { transcripts = delete id f.transcripts }, forget_session s disk.index_writable id),
    if disk.index_writable then none else some (external "write"),
  )
]

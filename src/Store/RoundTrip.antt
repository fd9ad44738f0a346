-- ===== src/Store/RoundTrip.antt =====
-- What is read back of a transcript that was written.
use mathlib.Core.Path.{subst}
use mathlib.Core.List.{append-nil, append_assoc}
use heike.Prelude.{
  ℕ, ◌+◌, ◌≤◌, ◌<◌, String, ◌≡◌, ◌⊎◌, refl, ap, sym, ◌∙◌, inl, inr, Bool, true, false, none, some,
  List, [], ◌∷◌, ◌++◌, arith, leb, ltb, if◌then◌else◌, eq_refl, lookup, insert, lookup-insert,
  Bool-cases, Option-cases, All, All-append,
}
use heike.Errors.{ok}
use heike.Store.Lines.{
  newline, is_nil, trim_codes, split_lines, unlines, IsLine, split_lines-trim_codes,
}
use heike.Store.Transcripts.{
  Files, Disk, size, rotate_found, check_and_rotate, content, add_codes, append_transcript,
  last_lines, read_lines, read_transcript,
}

-- No call of the file system fails.
pub record IsQuiet (disk : Disk) : Type 0 where
  pub stat : disk.stat_error ≡ none
  pub rename : disk.rename_error ≡ none
  pub create : disk.create_error ≡ none
  pub opening : disk.open_error ≡ none
  pub writing : disk.write_error ≡ none
  pub ending : disk.newline_error ≡ none
  pub reading : disk.read_error ≡ none

-- The lines that are appended, each with the disk that it meets.
abbrev pub write_all : Files → ℕ → String → List (Disk × List ℕ) → Files
write_all f max_bytes id [] = f
write_all f max_bytes id ((disk, line) ∷ rest) =
    write_all (append_transcript f max_bytes disk id line).0 max_bytes id rest

-- A line starts a new file when the lines before it have come to the size of a file.
abbrev pub keep_line : ℕ → List (List ℕ) → List ℕ → List (List ℕ)
keep_line max_bytes lines line =
    if ltb (size (unlines lines)) max_bytes then lines ++ line ∷ [] else line ∷ []

abbrev pub kept : ℕ → List (List ℕ) → List (Disk × List ℕ) → List (List ℕ)
kept max_bytes lines [] = lines
kept max_bytes lines ((disk, line) ∷ rest) = kept max_bytes (keep_line max_bytes lines line) rest

abbrev pub lines_of : List (Disk × List ℕ) → List (List ℕ)
lines_of [] = []
lines_of ((disk, line) ∷ rest) = line ∷ lines_of rest

abbrev pub IsWritten : Disk × List ℕ → Type 0
IsWritten (disk, line) = IsQuiet disk × IsLine line

-- The file of a session holds lines.
pub record IsTranscript (f : Files) (id : String) (lines : List (List ℕ)) : Type 0 where
  pub codes : content (lookup id f.transcripts) ≡ unlines lines
  pub proper : All IsLine lines

unlines-append : (ls ks : List (List ℕ)) → unlines (ls ++ ks) ≡ unlines ls ++ unlines ks
unlines-append [] ks = refl
unlines-append (l ∷ ls) ks =
    ap (λ (s : List ℕ). l ++ newline ∷ s) (unlines-append ls ks)
    ∙ sym (append_assoc l (newline ∷ unlines ls) (unlines ks))

size-append : (xs ys : List ℕ) → size (xs ++ ys) ≡ size xs + size ys
size-append [] ys = omega arith
size-append (x ∷ xs) ys = omega (arith, size-append xs ys)

content-insert :
    (f : Files) (id : String) (bytes : List ℕ)
    → content (lookup id (insert id bytes f.transcripts)) ≡ bytes
content-insert f id bytes =
    let found : lookup id (insert id bytes f.transcripts) ≡ some bytes =
      lookup-insert id id bytes f.transcripts ∙ ground (arith, eq_refl id) in
    ap content found

add_codes-IsTranscript :
    (f : Files) (id : String) (lines : List (List ℕ)) (line : List ℕ)
    → IsTranscript f id lines
    → IsLine line
    → IsTranscript (add_codes f id (line ++ newline ∷ [])) id (lines ++ line ∷ [])
add_codes-IsTranscript f id lines line t l = record {
  codes =
      content-insert f id (content (lookup id f.transcripts) ++ (line ++ newline ∷ []))
      ∙ ap (λ (s : List ℕ). s ++ (line ++ newline ∷ [])) t.codes
      ∙ sym (unlines-append lines (line ∷ []));
  proper = All-append IsLine lines (line ∷ []) t.proper (l, tt);
}

unrotated :
    (f : Files) (id : String) (lines : List (List ℕ)) (max_bytes : ℕ)
    → IsTranscript f id lines
    → content (lookup id f.transcripts) ≡ []
    → IsTranscript f id (if ltb (size (unlines lines)) max_bytes then lines else [])
unrotated f id lines max_bytes t empty = elim (Bool-cases (ltb (size (unlines lines)) max_bytes)) [
  | inl small ↦ rw small t
  | inr large ↦ rw large (record { codes = empty; proper = tt })
]

-- The file after the test on its size.
rotate-IsTranscript :
    (f : Files) (max_bytes : ℕ) (disk : Disk) (id : String) (lines : List (List ℕ))
    → IsQuiet disk
    → IsTranscript f id lines
    → IsTranscript
        (check_and_rotate f max_bytes disk id).0
        id
        (if ltb (size (unlines lines)) max_bytes then lines else [])
unfolding check_and_rotate
rotate-IsTranscript f max_bytes disk id lines q t = elim (Option-cases (lookup id f.transcripts)) [
  | inl missing ↦
      rw (missing, check_and_rotate) (unrotated f id lines max_bytes t (ap content missing))
  | inr (bytes, found) ↦
      let same : bytes ≡ unlines lines = ap content (sym found) ∙ t.codes in
      rw (found, check_and_rotate)
        (rw (q.stat, rotate_found)
          (elim (Bool-cases (ltb (size (unlines lines)) max_bytes)) [
            | inl small ↦ rw (same, small) t
            | inr large ↦
                rw (same, large)
                  (rw (q.rename, q.create) (record { codes = content-insert f id []; proper = tt }))
          ]))
]

append-IsTranscript :
    (f : Files) (max_bytes : ℕ) (disk : Disk) (id : String) (lines : List (List ℕ)) (line : List ℕ)
    → IsQuiet disk
    → IsTranscript f id lines
    → IsLine line
    → IsTranscript
        (append_transcript f max_bytes disk id line).0
        id
        (keep_line max_bytes lines line)
unfolding append_transcript
append-IsTranscript f max_bytes disk id lines line q t l =
    rw (q.opening, q.writing, q.ending, append_transcript)
      (subst
        (IsTranscript (add_codes (check_and_rotate f max_bytes disk id).0 id (line ++ newline ∷ []))
          id)
        (ground arith)
        (add_codes-IsTranscript (check_and_rotate f max_bytes disk id).0 id
          (if ltb (size (unlines lines)) max_bytes then lines else []) line
          (rotate-IsTranscript f max_bytes disk id lines q t) l))

write_all-IsTranscript :
    (f : Files) (max_bytes : ℕ) (id : String) (lines : List (List ℕ))
    (writes : List (Disk × List ℕ))
    → IsTranscript f id lines
    → All IsWritten writes
    → IsTranscript (write_all f max_bytes id writes) id (kept max_bytes lines writes)
write_all-IsTranscript f max_bytes id lines [] t w = t
write_all-IsTranscript f max_bytes id lines ((disk, line) ∷ rest) t w =
    write_all-IsTranscript (append_transcript f max_bytes disk id line).0 max_bytes id
      (keep_line max_bytes lines line) rest
      (append-IsTranscript f max_bytes disk id lines line w.0.0 t w.0.1) w.1

not_blank :
    (l : List ℕ) (ls : List (List ℕ)) (limit : ℕ)
    → is_nil l ≡ false
    → read_lines limit (l ∷ ls) ≡ last_lines limit (l ∷ ls)
not_blank l [] limit h = ground (arith, h)
not_blank l (k ∷ ls) limit h = refl

read-lines :
    (lines : List (List ℕ)) (bytes : List ℕ) (limit : ℕ)
    → bytes ≡ unlines lines
    → All IsLine lines
    → read_lines limit (split_lines (trim_codes bytes)) ≡ last_lines limit lines
unfolding split_lines trim_codes
read-lines [] bytes limit e a = rw e (ground arith)
read-lines (l ∷ ls) bytes limit e a =
    ap (λ (s : List ℕ). read_lines limit (split_lines (trim_codes s))) e
    ∙ ap (read_lines limit) (split_lines-trim_codes l ls a.0 a.1)
    ∙ not_blank l ls limit a.0.not_empty

no_lines : (lines : List (List ℕ)) (limit : ℕ) → unlines lines ≡ [] → [] ≡ last_lines limit lines
no_lines [] limit h = ground arith
no_lines ([] ∷ ls) limit h = ground (arith, h)
no_lines ((c ∷ l) ∷ ls) limit h = ground (arith, h)

read-IsTranscript :
    (f : Files) (disk : Disk) (id : String) (lines : List (List ℕ)) (limit : ℕ)
    → IsQuiet disk
    → IsTranscript f id lines
    → read_transcript f disk id limit ≡ ok (last_lines limit lines)
unfolding read_transcript
read-IsTranscript f disk id lines limit q t = elim (Option-cases (lookup id f.transcripts)) [
  | inl missing ↦
      rw (missing, read_transcript)
        (ap ok (no_lines lines limit (sym t.codes ∙ ap content missing)))
  | inr (bytes, found) ↦
      rw (found, read_transcript)
        (rw q.reading
          (ap ok (read-lines lines bytes limit (ap content (sym found) ∙ t.codes) t.proper)))
]

kept-whole :
    (max_bytes : ℕ) (lines : List (List ℕ)) (writes : List (Disk × List ℕ))
    → size (unlines (lines ++ lines_of writes)) ≤ max_bytes
    → kept max_bytes lines writes ≡ lines ++ lines_of writes
kept-whole max_bytes lines [] h = sym (append-nil lines)
kept-whole max_bytes lines ((disk, line) ∷ rest) h =
    let whole = append_assoc lines (line ∷ []) (lines_of rest) in
    let total =
      ap size (unlines-append lines (line ∷ lines_of rest))
      ∙ size-append (unlines lines) (line ++ newline ∷ unlines (lines_of rest)) in
    let more = size-append line (newline ∷ unlines (lines_of rest)) in
    let room : ltb (size (unlines lines)) max_bytes ≡ true = ground (arith, total, more, h) in
    ap (λ (b : Bool). kept max_bytes (if b then lines ++ line ∷ [] else line ∷ []) rest) room
    ∙ kept-whole max_bytes (lines ++ line ∷ []) rest
        (ground (arith, h, ap (λ (l : List (List ℕ)). size (unlines l)) whole))
    ∙ whole

-- Lines that are appended to a session without a transcript, with no failure of the file system, are
-- read back in their order: those since the last rotation, or the last of them up to the limit. They
-- are all that was appended when that comes to no more than the size at which a file is rotated.
pub read_transcript-write_all :
    (f : Files) (max_bytes : ℕ) (id : String) (writes : List (Disk × List ℕ)) (disk : Disk)
    (limit : ℕ)
    → lookup id f.transcripts ≡ none
    → All IsWritten writes
    → IsQuiet disk
    → (read_transcript (write_all f max_bytes id writes) disk id limit
        ≡ ok (last_lines limit (kept max_bytes [] writes)))
      × ((kept max_bytes [] writes ≡ lines_of writes)
          ⊎ (max_bytes < size (unlines (lines_of writes))))
read_transcript-write_all f max_bytes id writes disk limit missing w q = (
  read-IsTranscript (write_all f max_bytes id writes) disk id (kept max_bytes [] writes) limit q (
      write_all-IsTranscript f max_bytes id [] writes
        (record { codes = ap content missing; proper = tt }) w),
  elim (Bool-cases (leb (size (unlines (lines_of writes))) max_bytes)) [
    | inl small ↦ inl (kept-whole max_bytes [] writes (ground (arith, small)))
    | inr large ↦ inr (ground (arith, large))
  ],
)

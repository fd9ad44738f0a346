-- ===== src/Examples/Transcripts.antt =====
-- A transcript of two lines.
use heike.Prelude.{ℕ, ◌<◌, ◌≡◌, ◌⊎◌, refl, true, none, List, [], ◌∷◌, lookup, All, is_space}
use heike.Errors.{ok}
use heike.Store.Lines.{unlines, trim_back}
use heike.Store.Transcripts.{Files, Disk, size, append_transcript, last_lines, read_transcript}
use heike.Store.RoundTrip.{IsQuiet, IsWritten, write_all, kept, lines_of, read_transcript-write_all}

abbrev pub no_files : Files
no_files = record { transcripts = []; backups = [] }

abbrev pub disk : Disk
disk = record {
  timestamp = "20250101000000";
  stat_error = none;
  rename_error = none;
  create_error = none;
  open_error = none;
  write_error = none;
  written = [];
  newline_error = none;
  sync_error = none;
  read_error = none;
  remove_error = none;
  index_writable = true;
}

pub disk-IsQuiet : IsQuiet disk
disk-IsQuiet = record {
  stat = refl;
  rename = refl;
  create = refl;
  opening = refl;
  writing = refl;
  ending = refl;
  reading = refl;
}

-- {} and {1}
abbrev writes : List (Disk × List ℕ)
writes = (disk, 123 ∷ 125 ∷ []) ∷ (disk, 123 ∷ 49 ∷ 125 ∷ []) ∷ []

writes-IsWritten : All IsWritten writes
unfolding trim_back is_space
writes-IsWritten = (
  (disk-IsQuiet, record { one_line = refl; not_empty = refl; front = refl; back = refl }),
  ((disk-IsQuiet, record { one_line = refl; not_empty = refl; front = refl; back = refl }), tt),
)

read_back :
    read_transcript (write_all no_files 1000 "s1" writes) disk "s1" 1
    ≡ ok ((123 ∷ 49 ∷ 125 ∷ []) ∷ [])
unfolding read_transcript append_transcript is_space
read_back = refl

nothing_yet : lookup "s1" no_files.transcripts ≡ none
unfolding lookup
nothing_yet = refl

read_transcript-write_all_example :
    (read_transcript (write_all no_files 1000 "s1" writes) disk "s1" 1
      ≡ ok (last_lines 1 (kept 1000 [] writes)))
    × ((kept 1000 [] writes ≡ lines_of writes) ⊎ (1000 < size (unlines (lines_of writes))))
read_transcript-write_all_example =
    read_transcript-write_all no_files 1000 "s1" writes disk 1 nothing_yet writes-IsWritten
      disk-IsQuiet

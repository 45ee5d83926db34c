-- ===== src/Tailer/Tests.antt =====
-- Runs of the tailer, and each theorem on it at concrete files.
use centi_log.Base.{[], ◌∷◌, ◌++◌, ◌≡◌, refl, true, drop, Option, false, none, some, take, ℕ}
use centi_log.Dict.{insert, lookup, Dict, erase}
use centi_log.Tailer.{
  FileConfig, Tailer, commit_all, commit_offsets, commit_one, complete_lines, offset_of,
  without_return, read_file, read_files, read_new_lines, readable,
}
use centi_log.Tailer.Lines.{complete_lines-append}
use centi_log.Tailer.Offsets.{commit_offsets-offset_of, committed}
use centi_log.Tailer.Saved.{IsAtomic, save_offsets-IsAtomic}
use centi_log.Tailer.Saving.{
  OffsetsDirectory, SaveSteps, backed_up, carry_out, carry_out_all, replace_offsets, save_offsets,
  write_offsets,
}
use centi_log.Text.{Text, codes, text_eq}

abbrev access_log : FileConfig
access_log = record { path = codes "a.log"; format = codes "json"; time_zone = codes "UTC" }

abbrev grown : Tailer
grown = record {
  files = access_log ∷ [];
  offsets = (codes "a.log", 4) ∷ [];
  read_offsets = (codes "a.log", 9) ∷ [];
}

abbrev first_bytes : Text
first_bytes = codes "one\ntw"

abbrev later_bytes : Text
later_bytes = codes "o\r\nthree"

complete_lines_run : complete_lines access_log 0 [] (first_bytes ++ later_bytes) ≡ (
  record { file = access_log; text = codes "one"; end_offset = 4 }
      ∷ record { file = access_log; text = codes "two"; end_offset = 9 }
      ∷ [],
  9,
)
unfolding complete_lines without_return codes
complete_lines_run = refl

complete_lines-append_example :
    let first = complete_lines access_log 0 [] first_bytes in
    let second = complete_lines access_log first.1 [] (drop first.1 (first_bytes ++ later_bytes)) in
    complete_lines access_log 0 [] (first_bytes ++ later_bytes) ≡ (first.0 ++ second.0, second.1)
complete_lines-append_example = complete_lines-append access_log first_bytes later_bytes

commits : Unit {0}
unfolding commit_offsets commit_all commit_one lookup insert text_eq codes
commits = tt

commit_offsets-offset_of_example :
    (offset_of (codes "a.log") (insert (codes "a.log") 9 grown.offsets)
      ≡ committed grown ((codes "a.log", 9) ∷ []) (codes "a.log"))
    × (grown.files ≡ grown.files)
    × (grown.read_offsets ≡ grown.read_offsets)
unfolding commits
commit_offsets-offset_of_example =
    commit_offsets-offset_of grown
      (record grown { offsets = insert (codes "a.log") 9 grown.offsets }) ((codes "a.log", 9) ∷ [])
      true (codes "a.log") (refl, tt) refl

-- The offsets are written as a fixed text.
abbrev encode_offsets : Dict ℕ → Option Text
encode_offsets offsets = some (codes "{}")

abbrev directory : OffsetsDirectory
directory = record { offsets = some (codes "old"); backup = none; temporary = none }

abbrev all_well : SaveSteps
all_well = record {
  is_windows = false;
  creates = true;
  secures = true;
  written = none;
  syncs = true;
  closes = true;
  removes_backup = true;
  backs_up = backed_up;
  replaces = true;
  puts_back = true;
  removes_old = true;
}

save_offsets-IsAtomic_example :
    IsAtomic (some (codes "{}")) directory 3 (save_offsets encode_offsets all_well [])
save_offsets-IsAtomic_example = save_offsets-IsAtomic encode_offsets all_well [] directory 3 refl

-- On Windows a stop between the two renames leaves no file of offsets, and its old content in the
-- backup only.
windows_stop :
    carry_out_all
      (take 4 (save_offsets encode_offsets (record all_well { is_windows = true }) []).0)
      directory
    ≡ record { offsets = none; backup = some (codes "old"); temporary = some (codes "{}") }
unfolding save_offsets write_offsets replace_offsets carry_out_all carry_out
windows_stop = refl

-- A file of six bytes shrinks to three and is read again, then grows to nine and is read. The commit of
-- the first three leaves the six that were committed before.
abbrev six : Tailer
six = record {
  files = access_log ∷ [];
  offsets = (codes "a.log", 6) ∷ [];
  read_offsets = (codes "a.log", 6) ∷ [];
}

abbrev read_twice : Tailer
read_twice =
    let shrunk = (read_new_lines six (λ path. readable 3 (codes "ab\n") false)).0 in
    (read_new_lines shrunk (λ path. readable 9 (codes "ab\ncd\nef\n") false)).0

shrunk_then_grown :
    (offset_of (codes "a.log") read_twice.read_offsets ≡ 9)
    × (commit_offsets read_twice ((codes "a.log", 3) ∷ []) true
        ≡ some (record read_twice { offsets = (codes "a.log", 6) ∷ [] }))
unfolding commits read_new_lines read_files read_file complete_lines without_return erase
shrunk_then_grown = (refl, refl)

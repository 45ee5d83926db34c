-- ===== src/Tailer.antt =====
-- cmd/agent/tailer.go, the tailer: new lines of the watched files, and the offsets up to which they
-- are safe. An offset is a number of bytes; none that the code makes is negative.
pub mod Lines
pub mod Offsets
pub mod Saving
pub mod Saved
mod Tests
use centi_log.Base.{
  ok, err, Bool, List, Option, [], drop, if◌then◌else◌, length, ltb, none, reverse, some, ℕ, ◌++◌,
  ◌+◌, ◌==◌, ◌∷◌, Result, not,
}
use centi_log.Dict.{Dict, insert, lookup}
use centi_log.Text.{Text, codes}

-- `FileConfig`; its loaded time zone is what `time_zone` names.
pub record FileConfig : Type 0 where
  pub path : Text
  pub format : Text
  pub time_zone : Text

pub record FileLine : Type 0 where
  pub file : FileConfig
  pub text : Text
  pub end_offset : ℕ

pub record Tailer : Type 0 where
  pub files : List FileConfig
  pub offsets : Dict ℕ
  pub read_offsets : Dict ℕ

-- What `os.ReadFile` and `json.Unmarshal` make of the file of offsets.
pub data OffsetsFile : Type 0 where
  absent unreadable undecodable has_negative : OffsetsFile
  loaded : Dict ℕ → OffsetsFile

-- `NewTailer`; `made` says whether `os.MkdirAll` succeeds.
unfoldable pub new_tailer : List FileConfig → Bool → OffsetsFile → Result Tailer
new_tailer files made saved =
    if not made then err (codes "create agent buffer directory") else elim saved [
      | absent ↦ ok (record { files = files; offsets = []; read_offsets = [] })
      | unreadable ↦ err (codes "read agent offsets")
      | undecodable ↦ err (codes "decode agent offsets")
      | has_negative ↦ err (codes "agent offsets cannot be negative")
      | loaded offsets ↦ ok (record { files = files; offsets = offsets; read_offsets = offsets })
    ]

-- What the operating system does when a watched file is opened, and then asked for its size, its
-- position and its bytes: `readable` has the size of `Stat`, the bytes that reading yields from the
-- beginning on, and whether reading ends in an error other than the end of the file.
pub data Opened : Type 0 where
  not_exist open_failed stat_failed : Opened
  seek_failed : ℕ → Opened
  readable : ℕ → Text → Bool → Opened

-- `m[path]`, with Go's zero for a path that is absent.
abbrev pub offset_of : Text → Dict ℕ → ℕ
offset_of path m = elim (lookup path m) [ none ↦ 0 | some n ↦ n ]

-- `strings.TrimSuffix(line, "\r")`, on a line that is given from its last byte on.
unfoldable pub without_return : Text → Text
without_return [] = []
without_return (b ∷ back) = if b == 13 then reverse back else reverse (b ∷ back)

-- The loop over `reader.ReadString('\n')`: the complete lines, and the position behind them. `back`
-- is the line so far, from its last byte on.
unfoldable pub complete_lines : FileConfig → ℕ → Text → Text → List FileLine × ℕ
complete_lines file position back [] = ([], position)
complete_lines file position back (b ∷ rest) =
    let here = position + length back + 1 in
    let (lines, final) = complete_lines file here [] rest in
    let longer = complete_lines file position (b ∷ back) rest in
    if b == 10
    then (record { file = file; text = without_return back; end_offset = here } ∷ lines, final)
    else longer

-- What one round of `ReadNewLines` has gathered.
pub record Staged : Type 0 where
  pub read_offsets : Dict ℕ
  pub lines : List FileLine
  pub resets : List Text
  pub first_err : Option Text

-- `if firstErr == nil { firstErr = errors.New(message) }`
abbrev pub note_err : Option Text → Text → Option Text
note_err none message = some message
note_err (some first) message = some first

-- `if info.Size() < offset { … }`
abbrev pub after_stat : FileConfig → ℕ → Staged → Staged
after_stat file size s =
    if ltb size (offset_of file.path s.read_offsets)
    then record s {
      read_offsets = insert file.path 0 s.read_offsets;
      resets = s.resets ++ file.path ∷ [];
    }
    else s

-- One round: one watched file.
unfoldable pub read_file : (Text → Opened) → FileConfig → Staged → Staged
read_file world file s = elim (world file.path) [
  | not_exist ↦ s
  | open_failed ↦ record s { first_err = note_err s.first_err (codes "open watched file") }
  | stat_failed ↦ record s { first_err = note_err s.first_err (codes "stat watched file") }
  | seek_failed size ↦
      let s' = after_stat file size s in
      record s' { first_err = note_err s'.first_err (codes "seek watched file") }
  | readable size bytes broken ↦
      let s' = after_stat file size s in
      let offset = offset_of file.path s'.read_offsets in
      let (lines, position) = complete_lines file offset [] (drop offset bytes) in
      record s' {
        read_offsets = insert file.path position s'.read_offsets;
        lines = s'.lines ++ lines;
        first_err =
            if broken then note_err s'.first_err (codes "read watched file") else s'.first_err;
      }
]

unfoldable pub read_files : (Text → Opened) → List FileConfig → Staged → Staged
read_files world [] s = s
read_files world (file ∷ files) s = read_files world files (read_file world file s)

-- `ReadNewLines`: the new tailer, the lines, the files that were reset, and the first error.
unfoldable pub read_new_lines :
    Tailer → (Text → Opened) → Tailer × List FileLine × List Text × Option Text
read_new_lines t world =
    let s =
      read_files world t.files
        (record { read_offsets = t.read_offsets; lines = []; resets = []; first_err = none }) in
    (record t { read_offsets = s.read_offsets }, s.lines, s.resets, s.first_err)

-- One round of the loop of `CommitOffsets`, on the candidate; none if the offset is invalid.
unfoldable pub commit_one : Tailer → Text → ℕ → Dict ℕ → Option (Dict ℕ)
commit_one t path safe candidate = elim (lookup path t.read_offsets) [
  | none ↦ none
  | some read ↦
      if ltb read safe
      then none
      else if ltb read (offset_of path t.offsets)
      then some (insert path safe candidate)
      else if ltb (offset_of path candidate) safe
      then some (insert path safe candidate)
      else some candidate
]

unfoldable pub commit_all : Tailer → Dict ℕ → Dict ℕ → Option (Dict ℕ)
commit_all t [] candidate = some candidate
commit_all t ((path, safe) ∷ rest) candidate = elim (commit_one t path safe candidate) [
  | none ↦ none
  | some candidate' ↦ commit_all t rest candidate'
]

-- `CommitOffsets`, where `saved` says whether `saveOffsets` wrote the file.
unfoldable pub commit_offsets : Tailer → Dict ℕ → Bool → Option Tailer
commit_offsets t safe_offsets saved = elim (commit_all t safe_offsets t.offsets) [
  | none ↦ none
  | some candidate ↦ if saved then some (record t { offsets = candidate }) else none
]

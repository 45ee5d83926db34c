-- ===== src/Tailer/Saving.antt =====
-- cmd/agent/tailer.go, `saveOffsets`: the files that it writes, moves and removes, in their order.
-- Parameters: encoding/json for the offsets, and which of the steps the operating system carries out.
use centi_log.Base.{
  ℕ, Bool, true, false, List, [], ◌∷◌, ◌++◌, Option, none, some, if◌then◌else◌, not,
}
use centi_log.Dict.{Dict}
use centi_log.Text.{Text, codes}

-- What the directory holds of them: each file, or none.
pub record OffsetsDirectory : Type 0 where
  pub offsets : Option Text
  pub backup : Option Text
  pub temporary : Option Text

pub data FileStep : Type 0 where
  create_temporary remove_temporary remove_backup back_up put_back replace : FileStep
  write_temporary : Text → FileStep

-- A step that is carried out; a rename moves nothing where there is no file.
unfoldable pub carry_out : FileStep → OffsetsDirectory → OffsetsDirectory
carry_out create_temporary d = record d { temporary = some [] }
carry_out (write_temporary text) d = record d { temporary = some text }
carry_out remove_temporary d = record d { temporary = none }
carry_out remove_backup d = record d { backup = none }
carry_out back_up d = elim d.offsets [
  | none ↦ d
  | some text ↦ record d { offsets = none; backup = some text }
]
carry_out put_back d = elim d.backup [
  | none ↦ d
  | some text ↦ record d { offsets = some text; backup = none }
]
carry_out replace d = elim d.temporary [
  | none ↦ d
  | some text ↦ record d { offsets = some text; temporary = none }
]

unfoldable pub carry_out_all : List FileStep → OffsetsDirectory → OffsetsDirectory
carry_out_all [] d = d
carry_out_all (step ∷ steps) d = carry_out_all steps (carry_out step d)

-- What `os.Rename` to the backup says; a file that is missing is no error there.
pub data BackUp : Type 0 where
  backed_up missing refused : BackUp

-- Which steps go well; a write that does not may have written a part.
pub record SaveSteps : Type 0 where
  pub is_windows : Bool
  pub creates : Bool
  pub secures : Bool
  pub written : Option Text
  pub syncs : Bool
  pub closes : Bool
  pub removes_backup : Bool
  pub backs_up : BackUp
  pub replaces : Bool
  pub puts_back : Bool
  pub removes_old : Bool

abbrev when : Bool → FileStep → List FileStep
when true step = step ∷ []
when false step = []

-- The steps once the temporary file is closed, and the error.
unfoldable pub replace_offsets : SaveSteps → List FileStep × Option Text
replace_offsets s =
    if s.is_windows
    then elim s.backs_up [
      | refused ↦ (when s.removes_backup remove_backup, some (codes "backup agent offsets"))
      | missing ↦
          if s.replaces
          then (
            when s.removes_backup remove_backup ++ (replace ∷ when s.removes_old remove_backup),
            none,
          )
          else (
            when s.removes_backup remove_backup ++ when s.puts_back put_back,
            some (codes "replace agent offsets"),
          )
      | backed_up ↦
          if s.replaces
          then (
            when s.removes_backup remove_backup
                ++ (back_up ∷ replace ∷ when s.removes_old remove_backup),
            none,
          )
          else (
            when s.removes_backup remove_backup ++ (back_up ∷ when s.puts_back put_back),
            some (codes "replace agent offsets"),
          )
    ]
    else if s.replaces
    then (replace ∷ [], none)
    else ([], some (codes "replace agent offsets"))

-- The steps once the temporary file is there and its bytes are known; the deferred `os.Remove` is last.
unfoldable pub write_offsets : SaveSteps → Text → List FileStep × Option Text
write_offsets s data_bytes =
    let ended : List FileStep → Text → List FileStep × Option Text =
      λ steps message. (create_temporary ∷ steps ++ (remove_temporary ∷ []), some message) in
    let rest = replace_offsets s in
    if not s.secures then ended [] (codes "secure temporary offsets file") else elim s.written [
      | some part ↦ ended (write_temporary part ∷ []) (codes "write agent offsets")
      | none ↦
          if not s.syncs
          then ended (write_temporary data_bytes ∷ []) (codes "sync agent offsets")
          else if not s.closes
          then ended (write_temporary data_bytes ∷ []) (codes "close agent offsets")
          else (
            create_temporary ∷ write_temporary data_bytes ∷ rest.0 ++ (remove_temporary ∷ []),
            rest.1,
          )
    ]

-- `saveOffsets`: the steps that are carried out, and the error.
unfoldable pub save_offsets :
    (Dict ℕ → Option Text) → SaveSteps → Dict ℕ → List FileStep × Option Text
save_offsets encode s offsets = elim (encode offsets) [
  | none ↦ ([], some (codes "encode agent offsets"))
  | some data_bytes ↦
      if s.creates
      then write_offsets s data_bytes
      else ([], some (codes "create temporary offsets file"))
]

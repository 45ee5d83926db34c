-- ===== src/Buffer.antt =====
-- cmd/agent/buffer.go, the store of batches on disk: one file a batch, pending under its name and
-- claimed under that name with `.sending` behind it, and a directory of its own for rejected ones.
-- A file is its records and its size; gzip and JSON give back what they were given. Names are within
-- the directory. What the operating system answers is an argument of each operation.
pub mod Pending
pub mod Limit
pub mod Claims
pub mod Returns
pub mod Order
mod Tests
use centi_log.Base.{
  ℕ, Bool, List, [], ◌∷◌, Option, Result, ok, err, false, if◌then◌else◌, leb, length, ltb, none,
  not, some, take, true, ◌*◌, ◌++◌, ◌+◌, ◌-◌, ◌/◌, ◌==◌, ◌^◌, ◌||◌,
}
use centi_log.Dict.{Dict, erase, insert, lookup}
use centi_log.Schema.{Log}
use centi_log.Text.{Text, codes, has_suffix}

-- A batch file.
pub record Batch : Type 0 where
  pub logs : List Log
  pub size : ℕ

-- `BatchStore`, with the two directories.
pub record BatchStore : Type 0 where
  pub files : Dict Batch
  pub failed : Dict Batch
  pub max_bytes : ℕ

abbrev pub batch_suffix : Text
batch_suffix = codes ".json.gz"

abbrev pub claim_suffix : Text
claim_suffix = codes ".sending"

-- `strings.TrimSuffix(s, suffix)`
unfoldable pub trim_suffix : Text → Text → Text
trim_suffix s suffix = if has_suffix s suffix then take (length s - length suffix) s else s

-- What the operating system does at a listing of the directory and at a removal or a renaming of
-- one of its files.
pub record Disk : Type 0 where
  pub lists : Bool
  pub removes : Text → Bool
  pub renames : Text → Bool

-- `filepath.Base(a) < filepath.Base(b)`
unfoldable pub name_lt : Text → Text → Bool
name_lt a [] = false
name_lt [] (y ∷ b) = true
name_lt (x ∷ a) (y ∷ b) = if x == y then name_lt a b else ltb x y

-- `sort.Slice` by name, and the files that are pending among those of the directory.
unfoldable pub put_in_order : Text × Batch → Dict Batch → Dict Batch
put_in_order e [] = e ∷ []
put_in_order e (f ∷ rest) =
    let later = put_in_order e rest in if name_lt f.0 e.0 then f ∷ later else e ∷ f ∷ rest

unfoldable pub pending_of : Dict Batch → Dict Batch
pending_of [] = []
pending_of ((name, batch) ∷ rest) =
    let others = pending_of rest in
    if has_suffix name batch_suffix then put_in_order (name, batch) others else others

-- `pendingBatchesLocked`
unfoldable pub pending_batches : BatchStore → Disk → Result (Dict Batch)
pending_batches s disk =
    if disk.lists then ok (pending_of s.files) else err (codes "read agent buffer directory")

unfoldable pub total_size : Dict Batch → ℕ
total_size [] = 0
total_size ((name, batch) ∷ rest) = batch.size + total_size rest

-- The second loop of `enforceLimitLocked`: the files without those that it removes.
unfoldable pub evict : Disk → ℕ → ℕ → Dict Batch → Dict Batch → Dict Batch
evict disk max_bytes total [] files = files
evict disk max_bytes total ((name, batch) ∷ rest) files =
    let smaller = evict disk max_bytes (total - batch.size) rest (erase name files) in
    let next = evict disk max_bytes total rest files in
    if leb total max_bytes then files else if disk.removes name then smaller else next

-- `enforceLimitLocked`
unfoldable pub enforce_limit : BatchStore → Disk → BatchStore
enforce_limit s disk = elim (pending_batches s disk) [
  | err message ↦ s
  | ok batches ↦ record s { files = evict disk s.max_bytes (total_size batches) batches s.files }
]

-- How `WriteBatch` fares before it enforces the limit: the step that fails, or the name that
-- `newBatchName` made and the size of the file.
pub data Write : Type 0 where
  create_failed chmod_failed encode_failed compress_failed sync_failed close_failed : Write
  name_failed rename_failed : Write
  written : Text → ℕ → Write

-- `WriteBatch`: the store, and the name of the batch. The temporary file is removed in every case.
unfoldable pub write_batch : BatchStore → List Log → Write → Disk → BatchStore × Result Text
write_batch s logs create_failed disk = (s, err (codes "create temporary batch"))
write_batch s logs chmod_failed disk = (s, err (codes "secure temporary batch"))
write_batch s logs encode_failed disk = (s, err (codes "encode buffered logs"))
write_batch s logs compress_failed disk = (s, err (codes "compress buffered logs"))
write_batch s logs sync_failed disk = (s, err (codes "sync buffered logs"))
write_batch s logs close_failed disk = (s, err (codes "close temporary batch"))
write_batch s logs name_failed disk = (s, err (codes "create batch identifier"))
write_batch s logs rename_failed disk = (s, err (codes "publish buffered batch"))
write_batch s logs (written name size) disk =
    let batch : Batch = record { logs = logs; size = size } in
    (enforce_limit (record s { files = insert name batch s.files }) disk, ok name)

-- `os.Rename` of a file of the directory to a name within it; the file must be there.
unfoldable pub rename : Text → Text → Dict Batch → Dict Batch
rename from to files = elim (lookup from files) [
  | none ↦ files
  | some batch ↦ insert to batch (erase from files)
]

-- The loop of `ClaimOldest`; the empty name stands for no batch, as in the source.
unfoldable pub claim_first : BatchStore → Disk → Dict Batch → BatchStore × Text
claim_first s disk [] = (s, [])
claim_first s disk ((name, batch) ∷ rest) =
    let next = claim_first s disk rest in
    let claimed = name ++ claim_suffix in
    if disk.renames name then (record s { files = rename name claimed s.files }, claimed) else next

-- `ClaimOldest`
unfoldable pub claim_oldest : BatchStore → Disk → BatchStore × Result Text
claim_oldest s disk = elim (pending_batches s disk) [
  | err message ↦ (s, err message)
  | ok batches ↦ let (s', name) = claim_first s disk batches in (s', ok name)
]

-- `Unclaim`
unfoldable pub unclaim : BatchStore → Text → Disk → BatchStore × Result (Unit {0})
unclaim s claimed disk =
    if not (has_suffix claimed (batch_suffix ++ claim_suffix))
    then (s, err (codes "invalid claimed batch path"))
    else elim (lookup claimed s.files) [
      | none ↦ (enforce_limit s disk, ok tt)
      | some batch ↦
          if disk.renames claimed
          then (
            enforce_limit
                (record s { files = rename claimed (trim_suffix claimed claim_suffix) s.files })
                disk,
            ok tt,
          )
          else (s, err (codes "return batch to queue"))
    ]

-- `DeleteClaim`
unfoldable pub delete_claim : BatchStore → Text → Disk → BatchStore × Result (Unit {0})
delete_claim s claimed disk = elim (lookup claimed s.files) [
  | none ↦ (s, ok tt)
  | some batch ↦
      if disk.removes claimed
      then (record s { files = erase claimed s.files }, ok tt)
      else (s, err (codes "delete delivered batch"))
]

-- `MoveToFailed`
unfoldable pub move_to_failed : BatchStore → Text → Disk → BatchStore × Result (Unit {0})
move_to_failed s claimed disk =
    let name = trim_suffix claimed claim_suffix in
    if not (has_suffix name batch_suffix)
    then (s, err (codes "invalid claimed batch path"))
    else elim (lookup claimed s.files) [
      | none ↦ (s, err (codes "move rejected batch to failed directory"))
      | some batch ↦
          if disk.renames claimed
          then (
            record s { files = erase claimed s.files; failed = insert name batch s.failed },
            ok tt,
          )
          else (s, err (codes "move rejected batch to failed directory"))
    ]

-- `PendingCount`
unfoldable pub pending_count : BatchStore → Disk → Result ℕ
pending_count s disk = elim (pending_batches s disk) [
  | err message ↦ err message
  | ok batches ↦ ok (length batches)
]

-- One round of `recoverClaims` over a name of the listing; `nanos` is what `time.Now().UnixNano()`
-- says, in decimal. None if the renaming fails.
unfoldable pub recover_one : Disk → (Text → Text) → Text → Dict Batch → Option (Dict Batch)
recover_one disk nanos name files =
    if not (has_suffix name (batch_suffix ++ claim_suffix))
    then some files
    else let pending = trim_suffix name claim_suffix in
      let target : Text = elim (lookup pending files) [
        | none ↦ pending
        | some batch ↦
            trim_suffix pending batch_suffix ++ codes "-recovered-" ++ nanos name ++ batch_suffix
      ] in
      if disk.renames name then some (rename name target files) else none

unfoldable pub recover_all : Disk → (Text → Text) → List Text → Dict Batch → Option (Dict Batch)
recover_all disk nanos [] files = some files
recover_all disk nanos (name ∷ names) files = elim (recover_one disk nanos name files) [
  | none ↦ none
  | some files' ↦ recover_all disk nanos names files'
]

-- `recoverClaims`; `names` is what `os.ReadDir` lists.
unfoldable pub recover_claims : BatchStore → Disk → (Text → Text) → List Text → Result BatchStore
recover_claims s disk nanos names =
    if not disk.lists
    then err (codes "read agent buffer directory")
    else elim (recover_all disk nanos names s.files) [
      | none ↦ err (codes "recover in-flight batch")
      | some files ↦ ok (record s { files = files })
    ]

abbrev pub bytes_per_megabyte : ℕ
bytes_per_megabyte = 1024 * 1024

-- `NewBatchStore`, on what the directories hold; `made` says whether `os.MkdirAll` succeeds.
unfoldable pub new_batch_store :
    Dict Batch → Dict Batch → ℕ → Bool → Disk → (Text → Text) → List Text → Result BatchStore
new_batch_store files failed max_buffer_size_mb made disk nanos names =
    if ltb max_buffer_size_mb 1 || ltb ((2 ^ 63 - 1) / bytes_per_megabyte) max_buffer_size_mb
    then err (codes "invalid maximum buffer size")
    else if not made
    then err (codes "create failed batch directory")
    else recover_claims
        (record {
          files = files;
          failed = failed;
          max_bytes = max_buffer_size_mb * bytes_per_megabyte;
        })
        disk nanos names

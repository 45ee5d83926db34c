-- ===== src/Stacks.antt =====
-- cmd/agent/tailer.go, the assembler that joins a line with the continuation lines of its stack trace.
pub mod Joined
mod Tests
use centi_log.Base.{
  Bool, List, Option, [], false, if◌then◌else◌, ltb, none, some, true, ℕ, ◌++◌, ◌+◌, ◌||◌, ◌∷◌,
}
use centi_log.Dict.{Dict, erase, insert, lookup}
use centi_log.Tailer.{FileLine, offset_of}
use centi_log.Text.{Text, codes, has_prefix, space_width, trim_space}

pub record StackAssembler : Type 0 where
  pub pending : Dict FileLine
  pub updated_at : Dict ℕ

-- `NewStackAssembler`
abbrev pub new_stacks : StackAssembler
new_stacks = record { pending = []; updated_at = [] }

-- `isStackContinuation`
unfoldable pub is_stack_continuation : Text → Bool
is_stack_continuation [] = false
is_stack_continuation (b ∷ r) =
    if ltb 0 (space_width (b ∷ r))
    then true
    else has_prefix (trim_space (b ∷ r)) (codes "Caused by:")
      || has_prefix (trim_space (b ∷ r)) (codes "...")

-- The line with a continuation line.
abbrev pub extend : FileLine → FileLine → FileLine
extend previous line = record previous {
  text = previous.text ++ (10 ∷ line.text);
  end_offset = line.end_offset;
}

-- `assembler.pending[path] = line; assembler.updatedAt[path] = now`
abbrev pub keep : StackAssembler → Text → FileLine → ℕ → StackAssembler
keep a path line now = record {
  pending = insert path line a.pending;
  updated_at = insert path now a.updated_at;
}

-- `Add`: the new assembler, and the lines that are complete.
unfoldable pub add : StackAssembler → FileLine → ℕ → StackAssembler × List FileLine
add a line now =
    let path = line.file.path in
    if is_stack_continuation line.text
    then elim (lookup path a.pending) [
      | some previous ↦ (keep a path (extend previous line) now, [])
      | none ↦ (a, line ∷ [])
    ]
    else elim (lookup path a.pending) [
      | some previous ↦ (keep a path line now, previous ∷ [])
      | none ↦ (keep a path line now, [])
    ]

-- `Flush`
unfoldable pub flush : StackAssembler → Text → StackAssembler × Option FileLine
flush a path = (
  record { pending = erase path a.pending; updated_at = erase path a.updated_at },
  lookup path a.pending,
)

-- `FlushIdle`
unfoldable pub flush_idle : StackAssembler → Text → ℕ → ℕ → StackAssembler × Option FileLine
flush_idle a path now idle_for = elim (lookup path a.pending) [
  | none ↦ (a, none)
  | some line ↦ if ltb now (offset_of path a.updated_at + idle_for) then (a, none) else flush a path
]

-- ===== src/Tac/Cfg/Leaders.antt =====
-- `Build`: the definitions of the labels, and the leaders: 0, each target, and what follows a jump
-- or a branch. A return has no part in it.
use wihajster.Common.{ℕ, not, ◌+◌, List, [], ◌∷◌, ltb, if◌then◌else◌}
use wihajster.Common.Bytes.{Bytes}
use wihajster.Common.Maps.{Map, lookup, exists, assign, bytes_key}
use wihajster.Common.Outcome.{Outcome, ok, ◌>>=◌, ◌>>◌, check, found}
use wihajster.Tac.Types.{InstructionKind, Instruction}
use wihajster.Tac.Validate.{ValidateError, add_start}

-- The errors, with what they name beside the function.
pub data BuildError : Type 0 where
  invalid_function : ValidateError → BuildError
  duplicate_label undefined_jump undefined_branch : Bytes → BuildError
  empty_block terminator_position : ℕ → BuildError
  -- A slice indexed out of its range, at which the program panics.
  index_panic : BuildError

unfoldable pub index_label :
    InstructionKind → ℕ → Bytes → Map Bytes ℕ → Outcome BuildError (Map Bytes ℕ)
index_label InstructionKind.label i name defs = do
  check (not (exists name defs)) (BuildError.duplicate_label name)
  ok (assign name i defs)
index_label _ i name defs = ok defs

-- The loop that fills `labelDefs`, from index `i`.
unfoldable pub index_labels : ℕ → List Instruction → Map Bytes ℕ → Outcome BuildError (Map Bytes ℕ)
unfolding index_label
index_labels i [] defs = ok defs
index_labels i (inst ∷ insts) defs = do
  defs' ← index_label inst.kind i inst.label defs
  index_labels (i + 1) insts defs'

-- `leaders[idx] = struct{}{}`; a set of indices is a list without repetitions.
abbrev pub add_leader : ℕ → List ℕ → List ℕ
add_leader = add_start

unfoldable pub add_following : ℕ → ℕ → List ℕ → List ℕ
add_following count i leaders = if ltb (i + 1) count then add_leader (i + 1) leaders else leaders

-- The leaders that the instruction at `i` adds, of `count` instructions.
unfoldable pub instruction_leaders :
    Map Bytes ℕ → ℕ → ℕ → InstructionKind → Instruction → List ℕ → Outcome BuildError (List ℕ)
unfolding add_following
instruction_leaders defs count i InstructionKind.jmp inst leaders = do
  target ← found (lookup inst.true_label.text defs) (BuildError.undefined_jump inst.true_label.text)
  ok (add_following count i (add_leader target leaders))
instruction_leaders defs count i InstructionKind.br inst leaders = do
  t ← found (lookup inst.true_label.text defs) (BuildError.undefined_branch inst.true_label.text)
  f ← found (lookup inst.false_label.text defs) (BuildError.undefined_branch inst.false_label.text)
  ok (add_following count i (add_leader f (add_leader t leaders)))
instruction_leaders defs count i _ inst leaders = ok leaders

-- The loop that fills `leaders`, from index `i`.
unfoldable pub collect_leaders :
    Map Bytes ℕ → ℕ → ℕ → List Instruction → List ℕ → Outcome BuildError (List ℕ)
unfolding instruction_leaders
collect_leaders defs count i [] leaders = ok leaders
collect_leaders defs count i (inst ∷ insts) leaders = do
  leaders' ← instruction_leaders defs count i inst.kind inst leaders
  collect_leaders defs count (i + 1) insts leaders'

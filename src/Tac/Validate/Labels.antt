-- ===== src/Tac/Validate/Labels.antt =====
-- The errors of `ValidateFunctionIR`, and its first loop: each instruction is verified, and the
-- index of each label is kept.
use wihajster.Common.{ℕ, not, ◌+◌, List, [], ◌∷◌}
use wihajster.Common.Bytes.{Bytes}
use wihajster.Common.Maps.{Map, exists, assign, bytes_key}
use wihajster.Common.Outcome.{Outcome, ok, err, ◌>>=◌, ◌>>◌, check}
use wihajster.Tac.Types.{InstructionKind, Instruction}
use wihajster.Tac.Verify.{VerifyError, verify_instruction}

pub data ValidateError : Type 0 where
  invalid_instruction : ℕ → VerifyError → ValidateError
  duplicate_label undefined_jump undefined_branch missing_block no_fallthrough :
      Bytes → ValidateError
  block_boundaries no_entry entry_start : ValidateError
  terminator_position successor_range : ℕ → ValidateError
  -- A slice indexed out of its range, at which the program panics.
  index_panic : ValidateError

abbrev pub Labels : Type 0
Labels = Map Bytes ℕ

abbrev pub at_index : ℕ → Outcome VerifyError (Unit {0}) → Outcome ValidateError (Unit {0})
at_index i (ok u) = ok u
at_index i (err e) = err (ValidateError.invalid_instruction i e)

-- The definition of a label by the instruction at `i`.
unfoldable pub define_label : InstructionKind → ℕ → Bytes → Labels → Outcome ValidateError Labels
define_label InstructionKind.label i name defs = do
  check (not (exists name defs)) (ValidateError.duplicate_label name)
  ok (assign name i defs)
define_label _ i name defs = ok defs

-- The first loop of `ValidateFunctionIR`, from index `i`.
unfoldable pub define_labels : ℕ → List Instruction → Labels → Outcome ValidateError Labels
unfolding define_label
define_labels i [] defs = ok defs
define_labels i (inst ∷ insts) defs = do
  at_index i (verify_instruction inst)
  defs' ← define_label inst.kind i inst.label defs
  define_labels (i + 1) insts defs'

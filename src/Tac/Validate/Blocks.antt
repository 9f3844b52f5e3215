-- ===== src/Tac/Validate/Blocks.antt =====
-- `collectIRBlocks`, the blocks between the starts, and `ValidateFunctionIR`.
pub mod Made
pub mod Linked
pub mod Checked
use wihajster.Common.{
  ℕ, Bool, true, false, not, ◌||◌, ◌+◌, ◌-◌, List, [], ◌∷◌, ◌++◌, length, get_elem?, take, drop,
  none, some, ltb, ◌==◌, if◌then◌else◌,
}
use wihajster.Common.Bytes.{Bytes, codes, decimal}
use wihajster.Common.Maps.{Map, lookup, exists, assign, nat_eq, bytes_key}
use wihajster.Common.Outcome.{Outcome, ok, err, ◌>>=◌, ◌>>◌, check, found}
use wihajster.Tac.Types.{InstructionKind, Instruction, Function}
use wihajster.Tac.Validate.Labels.{ValidateError, Labels, define_labels}
use wihajster.Tac.Validate.Starts.{collect_starts, sort_starts}

-- `irBlock`; a `BlockID` is the block's index.
pub record IrBlock : Type 0 where
  pub id : ℕ
  pub start : ℕ
  pub label : Bytes
  pub terminator : InstructionKind
  pub successors : List ℕ

abbrev pub is_terminator : InstructionKind → Bool
is_terminator InstructionKind.jmp = true
is_terminator InstructionKind.br = true
is_terminator InstructionKind.ret = true
is_terminator _ = false

-- `startToID` and `labelToBlock`; the zero value stands for a missing key.
abbrev pub block_at : ℕ → Map ℕ ℕ → ℕ
block_at start ids = elim (lookup start ids) [ none ↦ 0 | some id ↦ id ]

abbrev pub label_at : Bytes → Labels → ℕ
label_at name defs = elim (lookup name defs) [ none ↦ 0 | some i ↦ i ]

-- The loop that refuses a terminator before the last instruction of a block.
unfoldable pub check_inside : ℕ → List Instruction → Outcome ValidateError (Unit {0})
check_inside start [] = ok tt
check_inside start (last ∷ []) = ok tt
check_inside start (inst ∷ next ∷ insts) = do
  check (not (is_terminator inst.kind)) (ValidateError.terminator_position start)
  check_inside start (next ∷ insts)

abbrev pub leading_label : InstructionKind → Bytes → Bytes
leading_label InstructionKind.label name = name
leading_label _ name = []

-- The block of the instructions from `start` up to `end`, without its successors.
unfoldable pub make_block : List Instruction → ℕ → ℕ → ℕ → Outcome ValidateError IrBlock
unfolding check_inside
make_block insts id start end = do
  check (ltb start end) ValidateError.block_boundaries
  first ← found (get_elem? insts start) ValidateError.index_panic
  last ← found (get_elem? insts (end - 1)) ValidateError.index_panic
  check_inside start (take (end - start) (drop start insts))
  ok (record {
    id = id;
    start = start;
    label = leading_label first.kind first.label;
    terminator = last.kind;
    successors = [];
  })

-- The end of a block is the next start, or the number of instructions.
abbrev pub next_start : ℕ → List ℕ → ℕ
next_start count [] = count
next_start count (s ∷ _) = s

-- The loop over the sorted starts, from block `id`.
unfoldable pub make_blocks : List Instruction → ℕ → List ℕ → Outcome ValidateError (List IrBlock)
unfolding make_block
make_blocks insts id [] = ok []
make_blocks insts id (start ∷ starts) = do
  block ← make_block insts id start (next_start (length insts) starts)
  blocks ← make_blocks insts (id + 1) starts
  ok (block ∷ blocks)

unfoldable pub start_to_id : List IrBlock → Map ℕ ℕ
start_to_id [] = []
start_to_id (b ∷ bs) = assign b.start b.id (start_to_id bs)

unfoldable pub is_labelled : Bytes → Bool
is_labelled [] = false
is_labelled (_ ∷ _) = true

-- `irBlockIndex.labelToBlock` as `newIRBlockIndex` fills it: a later block is assigned later.
unfoldable pub label_to_block : List IrBlock → Map Bytes ℕ → Map Bytes ℕ
label_to_block [] index = index
label_to_block (b ∷ bs) index =
    label_to_block bs (if is_labelled b.label then assign b.label b.id index else index)

-- The successors of a block by its last instruction.
unfoldable pub block_successors : Labels → Map ℕ ℕ → InstructionKind → Instruction → List ℕ
block_successors defs ids InstructionKind.jmp last =
    block_at (label_at last.true_label.text defs) ids ∷ []
block_successors defs ids InstructionKind.br last =
    let t = block_at (label_at last.true_label.text defs) ids in
    let f = block_at (label_at last.false_label.text defs) ids in
    if t == f then t ∷ [] else t ∷ f ∷ []
block_successors defs ids _ last = []

abbrev pub block_end : ℕ → List IrBlock → ℕ
block_end count [] = count
block_end count (next ∷ _) = next.start

-- The second loop over the blocks.
unfoldable pub link_blocks :
    List Instruction
    → Labels
    → Map ℕ ℕ
    → Map Bytes ℕ
    → List IrBlock
    → Outcome ValidateError (List IrBlock)
unfolding block_successors is_labelled
link_blocks insts defs ids index [] = ok []
link_blocks insts defs ids index (b ∷ bs) = do
  last ← found (get_elem? insts (block_end (length insts) bs - 1)) ValidateError.index_panic
  check (not (is_labelled b.label) || exists b.label index) (ValidateError.missing_block b.label)
  rest ← link_blocks insts defs ids index bs
  ok (record b { successors = block_successors defs ids last.kind last } ∷ rest)

-- `collectIRBlocks`.
unfoldable pub collect_blocks : List Instruction → Labels → Outcome ValidateError (List IrBlock)
unfolding make_blocks start_to_id label_to_block link_blocks
collect_blocks insts defs = do
  starts ← collect_starts defs (length insts) 0 insts (0 ∷ [])
  blocks ← make_blocks insts 0 (sort_starts starts)
  link_blocks insts defs (start_to_id blocks) (label_to_block blocks []) blocks

-- `displayBlockName`.
display_block_name : ℕ → Bytes → Bytes
display_block_name i [] = codes "#" ++ decimal i
display_block_name i (c ∷ label) = c ∷ label

unfoldable pub check_successors : ℕ → List ℕ → Outcome ValidateError (Unit {0})
check_successors count [] = ok tt
check_successors count (s ∷ ss) = do
  check (ltb s count) (ValidateError.successor_range s)
  check_successors count ss

-- The last loop of `ValidateFunctionIR`, at block `i` of `count`.
unfoldable pub check_blocks : ℕ → ℕ → List IrBlock → Outcome ValidateError (Unit {0})
unfolding display_block_name check_successors
check_blocks count i [] = ok tt
check_blocks count i (b ∷ bs) = do
  check_successors count b.successors
  check (is_terminator b.terminator || ltb (i + 1) count)
      (ValidateError.no_fallthrough (display_block_name i b.label))
  check_blocks count (i + 1) bs

unfoldable pub check_entry : List IrBlock → Outcome ValidateError (Unit {0})
check_entry [] = err ValidateError.no_entry
check_entry (b ∷ _) = check (b.start == 0) ValidateError.entry_start

unfoldable pub validate_instructions : List Instruction → Outcome ValidateError (Unit {0})
unfolding collect_blocks check_blocks check_entry
validate_instructions [] = ok tt
validate_instructions (inst ∷ insts) = do
  defs ← define_labels 0 (inst ∷ insts) []
  blocks ← collect_blocks (inst ∷ insts) defs
  check_entry blocks
  check_blocks (length blocks) 0 blocks

-- `ValidateFunctionIR`.
unfoldable pub validate_function : Function → Outcome ValidateError (Unit {0})
unfolding validate_instructions
validate_function fn = validate_instructions fn.instructions

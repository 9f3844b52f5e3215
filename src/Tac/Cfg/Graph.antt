-- ===== src/Tac/Cfg/Graph.antt =====
-- `Graph`, its methods, and `Build`.
use wihajster.Common.{
  ℕ, zero, suc, Bool, true, false, not, ◌&&◌, leb, ◌+◌, ◌-◌, List, [], ◌∷◌, ◌++◌, length, take,
  drop, get_elem?, ltb, ◌==◌, if◌then◌else◌, Option, none, some,
}
use wihajster.Common.Bytes.{Bytes, codes, decimal}
use wihajster.Common.Maps.{Map, lookup, assign, bytes_key, nat_eq}
use wihajster.Common.Outcome.{Outcome, ok, err, ◌>>=◌, ◌>>◌, check, found}
use wihajster.Tac.Types.{InstructionKind, Instruction, Function}
use wihajster.Tac.Validate.{ValidateError, validate_function, sort_starts}
use wihajster.Tac.Validate.Blocks.{is_terminator, leading_label, next_start}
use wihajster.Tac.Cfg.Leaders.{BuildError, index_labels, collect_leaders}

pub record BasicBlock : Type 0 where
  pub id : ℕ
  pub label : Bytes
  pub start : ℕ
  pub instructions : List Instruction
  pub predecessors : List ℕ
  pub successors : List ℕ

-- `Graph`; a nil map is an empty one.
pub record Graph : Type 0 where
  pub function : Function
  pub blocks : List BasicBlock
  pub labels : Map Bytes ℕ

-- `BlockByLabel`.
unfoldable pub block_by_label : Graph → Bytes → ℕ × Bool
block_by_label g label = elim (lookup label g.labels) [ some id ↦ (id, true) | none ↦ (0, false) ]

-- `g.Blocks[id] = b`.
unfoldable pub set_block : List BasicBlock → ℕ → BasicBlock → List BasicBlock
set_block [] i b = []
set_block (_ ∷ bs) zero b = b ∷ bs
set_block (a ∷ bs) (suc i) b = a ∷ set_block bs i b

unfoldable pub block_label : ℕ → Bytes
block_label id = codes ".B" ++ decimal id

-- The label of a block that is there, and the graph with it.
unfoldable pub ensure_block : Graph → ℕ → BasicBlock → Bytes → Bytes × Graph
unfolding block_label
ensure_block g id b (c ∷ label) = (c ∷ label, g)
ensure_block g id b [] =
    let label = block_label id in
    (
      label,
      record g {
        blocks = set_block g.blocks id (record b { label = label });
        labels = assign label id g.labels;
      },
    )

-- `EnsureLabel`.
unfoldable pub ensure_label : Graph → ℕ → Bytes × Graph
unfolding ensure_block
ensure_label g id = elim (get_elem? g.blocks id) [
  | none ↦ ([], g)
  | some b ↦ ensure_block g id b b.label
]

first_label : List Instruction → Bytes
first_label [] = []
first_label (inst ∷ _) = leading_label inst.kind inst.label

-- The blocks between the sorted leaders, from block `id`. The first check is the one that the
-- slice `fn.Instructions[start:end]` makes: out of range it panics.
unfoldable pub slice_blocks : List Instruction → ℕ → List ℕ → Outcome BuildError (List BasicBlock)
unfolding first_label
slice_blocks insts id [] = ok []
slice_blocks insts id (start ∷ starts) = do
  let end = next_start (length insts) starts
  check (leb start end && leb end (length insts)) BuildError.index_panic
  let body = take (end - start) (drop start insts)
  check (ltb 0 (length body)) (BuildError.empty_block start)
  rest ← slice_blocks insts (id + 1) starts
  ok (
      record {
        id = id;
        label = first_label body;
        start = start;
        instructions = body;
        predecessors = [];
        successors = [];
      }
      ∷ rest)

is_label_kind : InstructionKind → Bool
is_label_kind InstructionKind.label = true
is_label_kind _ = false

starts_with_label : List Instruction → Bool
starts_with_label [] = false
starts_with_label (inst ∷ _) = is_label_kind inst.kind

-- `labels` and `startToBlock` as the loop over the leaders fills them.
unfoldable pub block_labels : List BasicBlock → Map Bytes ℕ → Map Bytes ℕ
unfolding starts_with_label is_label_kind
block_labels [] labels = labels
block_labels (b ∷ bs) labels =
    block_labels bs
      (if starts_with_label b.instructions then assign b.label b.id labels else labels)

unfoldable pub start_to_block : List BasicBlock → Map ℕ ℕ
start_to_block [] = []
start_to_block (b ∷ bs) = assign b.start b.id (start_to_block bs)

abbrev pub or_zero : Option ℕ → ℕ
or_zero none = 0
or_zero (some n) = n

-- `startToBlock[labelDefs[label]]`, where a missing key gives 0.
abbrev pub target_block : Map Bytes ℕ → Map ℕ ℕ → Bytes → ℕ
target_block defs starts label = or_zero (lookup (or_zero (lookup label defs)) starts)

-- The successors of block `i` of `count` by its last instruction.
unfoldable pub successors_of :
    Map Bytes ℕ → Map ℕ ℕ → ℕ → ℕ → InstructionKind → Instruction → List ℕ
successors_of defs starts count i InstructionKind.jmp last =
    target_block defs starts last.true_label.text ∷ []
successors_of defs starts count i InstructionKind.br last =
    let t = target_block defs starts last.true_label.text in
    let f = target_block defs starts last.false_label.text in if f == t then t ∷ [] else t ∷ f ∷ []
successors_of defs starts count i InstructionKind.ret last = []
successors_of defs starts count i _ last = if ltb (i + 1) count then (i + 1) ∷ [] else []

-- No instruction but the last is a terminator.
unfoldable pub check_positions : ℕ → List Instruction → Outcome BuildError (Unit {0})
check_positions start [] = ok tt
check_positions start (last ∷ []) = ok tt
check_positions start (inst ∷ next ∷ insts) = do
  check (not (is_terminator inst.kind)) (BuildError.terminator_position start)
  check_positions start (next ∷ insts)

-- The loop that gives each block its successors, from block `i`.
unfoldable pub link_successors :
    Map Bytes ℕ → Map ℕ ℕ → ℕ → ℕ → List BasicBlock → Outcome BuildError (List BasicBlock)
unfolding successors_of check_positions
link_successors defs starts count i [] = ok []
link_successors defs starts count i (b ∷ bs) = do
  last ← found (get_elem? b.instructions (length b.instructions - 1)) BuildError.index_panic
  check_positions b.start b.instructions
  rest ← link_successors defs starts count (i + 1) bs
  ok (record b { successors = successors_of defs starts count i last.kind last } ∷ rest)

-- `blocks[succ].Predecessors = append(blocks[succ].Predecessors, i)`.
unfoldable pub add_predecessor : ℕ → ℕ → List BasicBlock → Outcome BuildError (List BasicBlock)
add_predecessor i succ [] = err BuildError.index_panic
add_predecessor i zero (b ∷ bs) = ok (record b { predecessors = b.predecessors ++ (i ∷ []) } ∷ bs)
add_predecessor i (suc succ) (b ∷ bs) = do bs' ← add_predecessor i succ bs; ok (b ∷ bs')

unfoldable pub add_predecessors :
    ℕ → List ℕ → List BasicBlock → Outcome BuildError (List BasicBlock)
unfolding add_predecessor
add_predecessors i [] blocks = ok blocks
add_predecessors i (succ ∷ succs) blocks = do
  blocks' ← add_predecessor i succ blocks
  add_predecessors i succs blocks'

-- The last loop, over the successors of each block, which it does not change.
unfoldable pub link_predecessors :
    ℕ → List BasicBlock → List BasicBlock → Outcome BuildError (List BasicBlock)
unfolding add_predecessors
link_predecessors i [] blocks = ok blocks
link_predecessors i (b ∷ bs) blocks = do
  blocks' ← add_predecessors i b.successors blocks
  link_predecessors (i + 1) bs blocks'

abbrev pub validated : Outcome ValidateError (Unit {0}) → Outcome BuildError (Unit {0})
validated (ok u) = ok u
validated (err e) = err (BuildError.invalid_function e)

-- `Build` behind the validation. `sort.Ints` puts the leaders in ascending order, as the two loops
-- of internal/tac/validate.go do.
unfoldable pub build_blocks : Function → List Instruction → Outcome BuildError Graph
unfolding slice_blocks block_labels start_to_block link_successors link_predecessors
build_blocks fn [] = ok (record { function = fn; blocks = []; labels = [] })
build_blocks fn (inst ∷ insts) = do
  defs ← index_labels 0 (inst ∷ insts) []
  leaders ← collect_leaders defs (length (inst ∷ insts)) 0 (inst ∷ insts) (0 ∷ [])
  blocks ← slice_blocks (inst ∷ insts) 0 (sort_starts leaders)
  linked ← link_successors defs (start_to_block blocks) (length blocks) 0 blocks
  all ← link_predecessors 0 linked linked
  ok (record { function = fn; blocks = all; labels = block_labels blocks [] })

unfoldable pub build : Function → Outcome BuildError Graph
unfolding build_blocks
build fn = do validated (validate_function fn); build_blocks fn fn.instructions

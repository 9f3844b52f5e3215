-- ===== src/Tests/Graphs.antt =====
-- internal/tac/cfg/cfg.go on a concrete input.
use wihajster.Common.{refl, true, ◌≢◌, [], ◌∷◌, ◌≡◌}
use wihajster.Common.Bytes.{Bytes, codes}
use wihajster.Common.Outcome.{Outcome, Post}
use wihajster.Tac.Types.{InstructionKind, Function, blank}
use wihajster.Tac.Operands.{label}
use wihajster.Tac.Cfg.Graph.{BasicBlock, Graph, block_by_label, ensure_label, build}
use wihajster.Tac.Cfg.Names.{ensure_label-block_by_label}
use wihajster.Tac.Cfg.Cutting.{Cuts, build-Cuts}
use wihajster.Tac.Cfg.Panics.{NoPanic}
use wihajster.Tac.Cfg.Bounds.{Joined, build-Linked}
use wihajster.Tac.Cfg.Mirror.{Mirrored, build-Mirrored}
use wihajster.Tac.Cfg.Leaders.{BuildError}
use wihajster.Backend.{FunctionView, build_function_view}

-- .L0: jmp .L1; .L1: jmp .L0
abbrev two_blocks : Function
two_blocks = record {
  name = codes "spin";
  parameters = [];
  return_type = codes "void";
  instructions =
      record (blank InstructionKind.label) { label = codes ".L0" }
      ∷ record (blank InstructionKind.jmp) { true_label = label (codes ".L1") }
      ∷ record (blank InstructionKind.label) { label = codes ".L1" }
      ∷ record (blank InstructionKind.jmp) { true_label = label (codes ".L0") }
      ∷ [];
  next_temp_id = 0;
}

build-Cuts_example :
    Post (λ g. Cuts two_blocks.instructions g.blocks) (λ _. Unit {0}) (build two_blocks)
build-Cuts_example = build-Cuts two_blocks

build-Mirrored_example : Post (λ g. Mirrored g.blocks) (λ _. Unit {0}) (build two_blocks)
build-Mirrored_example = build-Mirrored two_blocks

build-Linked_example : Post (λ g. Joined g.blocks) NoPanic (build two_blocks)
build-Linked_example = build-Linked two_blocks

abbrev nameless : BasicBlock
nameless = record {
  id = 0;
  label = [];
  start = 0;
  instructions = [];
  predecessors = [];
  successors = [];
}

abbrev nameless_graph : Graph
nameless_graph = record { function = two_blocks; blocks = nameless ∷ []; labels = [] }

ensure_label-block_by_label_example :
    (out : Bytes × Graph) × (ensure_label nameless_graph 0 ≡ out)
    × (out.0 ≢ [])
    × (block_by_label out.1 out.0 ≡ (0, true))
    × (ensure_label out.1 0 ≡ out)
ensure_label-block_by_label_example =
    ensure_label-block_by_label nameless_graph 0 nameless refl refl

view_run : Outcome BuildError FunctionView
view_run = build_function_view two_blocks

-- ===== src/Tests/Builders.antt =====
-- internal/tac/builder.go on a concrete input.
use wihajster.Common.{[], ◌∷◌, ◌++◌, ◌≡◌, refl, All}
use wihajster.Common.Bytes.{codes}
use wihajster.Common.Outcome.{ok, err, Post}
use wihajster.Tac.Types.{InstructionKind, Function, Module, blank}
use wihajster.Tac.Builder.{add_label}
use wihajster.Tac.Builder.Blocks.{set_block, add_block, add_function}
use wihajster.Tac.Builder.Refused.{set_block_refused, add_function_accepted}
use wihajster.Common.Maps.{exists, bytes_eq}
use wihajster.Tac.Verify.{verify_instruction}
use wihajster.Tac.Validate.{
  ValidateError, validate_function, define_labels, collect_starts, sort_starts,
}
use wihajster.Tac.Validate.Calm.{NoPanic}

-- ret
abbrev stop : Function
stop = record {
  name = codes "stop";
  parameters = [];
  return_type = codes "void";
  instructions = blank InstructionKind.ret ∷ [];
  next_temp_id = 0;
}

abbrev no_function : Module
no_function = record { functions = [] }

add_function_runs : add_function stop no_function ≡ (ok tt, record { functions = stop ∷ [] })
unfolding add_function validate_function define_labels verify_instruction collect_starts sort_starts
add_function_runs = refl

add_block_runs :
    add_block (codes ".L0") stop
    ≡ (err (ValidateError.no_fallthrough (codes ".L0")), add_label (codes ".L0") stop)
unfolding add_block set_block define_labels verify_instruction exists collect_starts sort_starts
    bytes_eq
add_block_runs = refl

set_block_refused_example :
    (e : ValidateError) × NoPanic e
    × (set_block (codes ".L0") stop ≡ (err e, add_label (codes ".L0") stop))
set_block_refused_example = set_block_refused (codes ".L0") stop

add_function_accepted_example :
    All (λ (f : Function). validate_function f ≡ ok tt) (add_function stop no_function).1.functions
    × Post
        (λ _. (add_function stop no_function).1.functions ≡ [] ++ (stop ∷ []))
        (λ _. (add_function stop no_function).1 ≡ no_function)
        (add_function stop no_function).0
add_function_accepted_example = add_function_accepted stop no_function tt

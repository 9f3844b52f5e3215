-- ===== src/Tests/Evaluator.antt =====
-- internal/tac/evaluator.go on small modules.
use wihajster.Common.{ℕ, true, List, [], ◌∷◌, ◌≡◌, refl, arith}
use wihajster.Common.Bytes.{Bytes, codes, trim_space, parse_int, decimal}
use wihajster.Common.Maps.{lookup, exists, bytes_eq}
use wihajster.Common.Outcome.{Outcome, ok, err}
use wihajster.Tac.Types.{InstructionKind, Opcode, Operand, Instruction, Function, Module, blank}
use wihajster.Tac.Operands.{temp, param, immediate, label, function_symbol}
use wihajster.Tac.Builder.{operation, with_destination, call_instruction}
use wihajster.Tac.Verify.{verify_instruction}
use wihajster.Tac.Validate.{validate_function, define_labels, collect_starts, sort_starts}
use wihajster.Tac.Int32
use wihajster.Tac.Int32.{IsI32}
use wihajster.Tac.Eval.{EvalError, evaluate_function}
use wihajster.Tac.Eval.Ranges.{Finishes}
use wihajster.Tac.Eval.Terminates.{evaluate_function-Finishes}

abbrev set_op : Operand → Opcode → List Operand → Instruction
set_op dst op os = with_destination dst (operation op os)

abbrev t : Bytes → Operand
t name = temp name

abbrev ret : Operand → Instruction
ret o = record (blank InstructionKind.ret) { has_return_value = true; return_value = o }

-- func @fib(%n:i32) -> i32: n < 2 returns n, else fib(n-1) + fib(n-2).
abbrev fib : Function
fib = record {
  name = codes "@fib";
  parameters = record { name = codes "%n"; type_name = codes "i32" } ∷ [];
  return_type = codes "i32";
  next_temp_id = 0;
  instructions =
      set_op (t (codes "%t0")) Opcode.lt_s (param (codes "%n") ∷ immediate (codes "2") ∷ [])
      ∷ record (blank InstructionKind.br) {
        condition = t (codes "%t0");
        true_label = label (codes ".L0");
        false_label = label (codes ".L1");
      }
      ∷ record (blank InstructionKind.label) { label = codes ".L0" }
      ∷ ret (param (codes "%n"))
      ∷ record (blank InstructionKind.label) { label = codes ".L1" }
      ∷ set_op (t (codes "%t1")) Opcode.sub (param (codes "%n") ∷ immediate (codes "1") ∷ [])
      ∷ with_destination (t (codes "%t2"))
          (call_instruction (function_symbol (codes "@fib")) (t (codes "%t1") ∷ []))
      ∷ set_op (t (codes "%t3")) Opcode.sub (param (codes "%n") ∷ immediate (codes "2") ∷ [])
      ∷ with_destination (t (codes "%t4"))
          (call_instruction (function_symbol (codes "@fib")) (t (codes "%t3") ∷ []))
      ∷ set_op (t (codes "%t5")) Opcode.add (t (codes "%t2") ∷ t (codes "%t4") ∷ [])
      ∷ ret (t (codes "%t5"))
      ∷ [];
}

abbrev fib_module : Module
fib_module = record { functions = fib ∷ [] }

-- The functions that a run of the evaluator computes with.
evaluate : Module → Bytes → List ℕ → ℕ → ℕ → Outcome EvalError ℕ
unfolding evaluate_function validate_function verify_instruction lookup exists bytes_eq trim_space
    parse_int decimal define_labels collect_starts sort_starts Int32.lt Int32.of_parsed Int32.sub
    Int32.add
evaluate = evaluate_function

fib_runs : evaluate fib_module (codes "@fib") (6 ∷ []) 0 0 ≡ ok 8
unfolding evaluate
fib_runs = refl

fib_over_limit :
    evaluate fib_module (codes "@fib") (6 ∷ []) 20 0 ≡ err (EvalError.step_limit (codes "@fib"))
unfolding evaluate
fib_over_limit = refl

fib_too_deep :
    evaluate fib_module (codes "@fib") (6 ∷ []) 0 3 ≡ err (EvalError.call_depth (codes "@fib"))
unfolding evaluate
fib_too_deep = refl

evaluate_function-Finishes_example :
    Finishes IsI32 (evaluate_function fib_module (codes "@fib") (6 ∷ []) 0 0)
evaluate_function-Finishes_example =
    evaluate_function-Finishes fib_module (codes "@fib") (6 ∷ []) 0 0 (omega arith)
      (omega arith, tt)

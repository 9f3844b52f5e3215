-- ===== src/Tests/Lowering.antt =====
-- internal/sema/lower.go on a small translation unit.
use wihajster.Sema.Unit.Accepted.{IsAccepted, lower-IsAccepted}
use wihajster.Tac.Eval.{index_functions}
use wihajster.Common.{true, false, [], ◌∷◌, ◌≡◌, ◌≢◌, ◌+◌, ◌<◌, refl, arith, All}
use wihajster.Common.Bytes.{Bytes, codes}
use wihajster.Common.Maps.{Map, bytes_eq}
use wihajster.Common.Outcome.{Post, ok}
use wihajster.Lexer.Token.{TokenType}
use wihajster.Parser.Ast.{
  TypeSpecifier, TypeName, Expression, Expressions, Statement, Statements, FunctionDefinition,
  TranslationUnit,
}
use wihajster.Tac.Types.{Opcode, Function, Module}
use wihajster.Tac.Opcodes.{parse_opcode, opcode_string, parse_opcode-opcode_string}
use wihajster.Tac.Code.{WellFormed}
use wihajster.Sema.Types.{FunctionSignature, no_token}
use wihajster.Sema.Lowerer.{Lowerer, label_name, new_label}
use wihajster.Sema.Shape.{new_label-fresh}
use wihajster.Sema.Emits.{Env, Ran, Any}
use wihajster.Sema.Expressions.{lower_expr}
use wihajster.Sema.Expressions.Calls.{VoidOrObject, lower_expr-Ran}
use wihajster.Sema.Statements.{lower_statement}
use wihajster.Sema.Statements.Code.{OpenOrEnded, lower_statement-Ran}
use wihajster.Sema.Lower.{lower_function, initial_lowerer}
use wihajster.Sema.Lower.Bodies.{lower_function-WellFormed}
use wihajster.Sema.Unit.{lower}
use wihajster.Sema.Unit.Modules.{lower-WellFormed}

abbrev int_type : TypeName
int_type = record { token = no_token; specifier = TypeSpecifier.int; pointer_depth = 0 }

abbrev var : Bytes → Expression
var name = Expression.identifier no_token name

abbrev number : Bytes → Expression
number raw = Expression.integer_literal no_token raw

abbrev infix_op : TokenType → Expression → Expression → Expression
infix_op op a b = Expression.binary no_token op a b

-- fib(n - k)
abbrev fib_of : Bytes → Expression
fib_of k =
    Expression.call no_token (var (codes "fib"))
      (Expressions.arg (infix_op TokenType.minus (var (codes "n")) (number k)) Expressions.no_args)

-- if (n < 2) return n;
abbrev small_case : Statement
small_case =
    Statement.if_else no_token (infix_op TokenType.lt (var (codes "n")) (number (codes "2")))
      (Statement.return no_token (var (codes "n"))) Statement.nil

abbrev fib : FunctionDefinition
fib = record {
  return_type = int_type;
  name = codes "fib";
  parameters = record { token = no_token; type_name = int_type; name = codes "n" } ∷ [];
  body = Statements.then_do small_case (
      Statements.then_do
        (Statement.return no_token
          (infix_op TokenType.plus (fib_of (codes "1")) (fib_of (codes "2"))))
        Statements.done);
  token = no_token;
}

abbrev fib_unit : TranslationUnit
fib_unit = record { functions = fib ∷ []; declarations = []; prototypes = [] }

abbrev fib_signature : FunctionSignature
fib_signature = record { return_type = codes "i32"; params = codes "i32" ∷ [] }

abbrev fib_state : Lowerer
fib_state = record (initial_lowerer fib ((codes "fib", fib_signature) ∷ [])) {
  scopes = ((codes "n", record { type_name = codes "i32"; slot = codes "%s1" }) ∷ []) ∷ [];
}

fib_state-Env : Env fib_state
unfolding bytes_eq
fib_state-Env = record { scopes_ok = ((refl, tt), tt); functions_ok = (tt, (refl, tt), tt) }

lower-WellFormed_example :
    Post
      (λ (m : Module). All (λ (fn : Function). WellFormed fn.instructions) m.functions)
      Any
      (lower fib_unit)
lower-WellFormed_example = lower-WellFormed fib_unit (tt, (tt, tt))

lower_function-WellFormed_example :
    Post
      (λ (fn : Function). WellFormed fn.instructions)
      Any
      (lower_function fib ((codes "fib", fib_signature) ∷ []))
lower_function-WellFormed_example =
    lower_function-WellFormed fib ((codes "fib", fib_signature) ∷ []) fib_state-Env.functions_ok

lower_statement-Ran_example :
    Post (Ran OpenOrEnded fib_state) Any (lower_statement small_case fib_state)
lower_statement-Ran_example = lower_statement-Ran small_case fib_state fib_state-Env

lower_expr-Ran_example :
    Post (Ran (λ v _. VoidOrObject v) fib_state) Any (lower_expr (fib_of (codes "1")) fib_state)
lower_expr-Ran_example = lower_expr-Ran (fib_of (codes "1")) fib_state fib_state-Env

abbrev second_label : Lowerer
second_label = record fib_state { next_label_id = fib_state.next_label_id + 1 }

new_label_run : new_label fib_state ≡ ok (label_name fib_state.next_label_id, second_label)
unfolding new_label
new_label_run = refl

new_label-fresh_example :
    (fib_state.next_label_id < second_label.next_label_id)
    × Post
        (λ (other, _). other ≢ label_name fib_state.next_label_id)
        (λ _. ⊥)
        (new_label second_label)
new_label-fresh_example =
    new_label-fresh fib_state second_label second_label (label_name fib_state.next_label_id)
      new_label_run (omega arith)

parse_opcode-opcode_string_example :
    parse_opcode (opcode_string Opcode.shr_s) ≡ (Opcode.shr_s, true, false)
parse_opcode-opcode_string_example = parse_opcode-opcode_string Opcode.shr_s

lower-IsAccepted_example :
    Post
      (λ (m : Module).
        All IsAccepted m.functions
        × ((all : Map Bytes Function) × (index_functions m.functions [] ≡ ok all)))
      Any
      (lower fib_unit)
lower-IsAccepted_example = lower-IsAccepted fib_unit (tt, (tt, tt))

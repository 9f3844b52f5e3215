-- ===== src/Lib.antt =====
-- A model of wihajster, a compiler of a subset of C to three-address code, and theorems on it.
--
-- The program lexes (internal/lexer) and parses (internal/parser) a file, lowers the syntax tree to
-- three-address code (internal/sema), and validates, prints, reads and evaluates that code
-- (internal/tac); main.go wires these together.
--
-- - Common: shared helpers. Bytes stand for Go strings, as lists of bytes; maps are association
--   lists with the latest assignment first; Outcome is a result with an error beside it.
-- - Tac: internal/tac. Types, Operands, Opcodes and Verify are types.go (VerifyInstruction is
--   verify_instruction), Builder is builder.go, whose methods return the function after the call
--   (Builder.Blocks has those that validate), Validate is validate.go (ValidateFunctionIR is
--   validate_function), Int32 is the arithmetic of int32 on patterns below 2 ^ 32, and Eval is
--   evaluator.go (EvaluateFunction is evaluate_function). Code says what a well-formed body is. The
--   children of Validate follow each loop of ValidateFunctionIR, Complete puts them together, and
--   Calm is about its slice indices. Cfg is cfg/cfg.go: Leaders and Graph are the loops of Build
--   (build), and the other children are about its graphs.
-- - Backend: internal/backend/function_view.go.
-- - Lexer: internal/lexer. Scanner is scanner.go; a reader is the list of what its calls of Read
--   return, and the buffer is the bytes that are ready. Monad is a state monad that keeps the state
--   at an error, since callers go on after io.EOF. Tokenizer is tokenizer*.go, with the accumulator
--   that buildFn appends to beside the scanner; a function that calls itself while isPartial holds
--   is read_run followed by the rest. Preprocessor is preprocesor*.go, in which the method next
--   stands as an argument where it is called again, and Client is lexer.go. Tokenizer.Alike
--   compares two runs over other chunks.
-- - Parser.Ast: the tree of internal/parser/ast.go. A nil interface value is a constructor.
-- - Sema: internal/sema. Lowerer is the state of `lowerer` and the methods that write to it, as a
--   state monad with errors; Expressions, Statements, Lower and Unit are lowerExpr, lowerStatement,
--   lowerFunction and Lower. Shape, Emits, EmitsOps, Builds and OwnLabels are the means to follow
--   the code that a lowering appends: Emits for whole parts, Builds for the inside of a statement
--   that has labels of its own.
-- - Tests: runs on concrete inputs, and the theorems at concrete inputs.
--
-- Fuel: the loop of evalCall runs on fuel, one for each counted step, so one more than the step
-- limit is enough for a limit below 2 ^ 63 - 1; at that one the count, a 64-bit int, wraps around.
-- The sort of validate.go runs on the length of its list. A run of bytes of one class and lex run
-- on fuel above the number of the bytes to come, which is enough. The method next of the
-- preprocessor runs on fuel for which no bound is given. Everything else recurs on its input.
--
-- Not modelled: the parsers of C and of the text form, the writer, and main.go, which is input and
-- output. The mutex of the lexer is never locked. The messages of errors are constructors that
-- carry what the texts name. Out-of-range indices are errors of their own where the source would
-- panic.
pub mod Common
pub mod Tac
pub mod Backend
pub mod Lexer
pub mod Parser
pub mod Sema
mod Tests

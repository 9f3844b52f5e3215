-- ===== src/Sema/Expressions.antt =====
-- internal/sema/lower.go: `lowerExpr` and `lowerAddress`. A case that lowers its parts in an order
-- of its own is a function of the parts' lowerings.
pub mod Code
pub mod Calls
use wihajster.Common.{
  ℕ, suc, ◌+◌, Bool, true, false, not, ◌&&◌, ◌||◌, List, [], ◌∷◌, ◌++◌, length, ◌==◌, Option, none,
  some, if◌then◌else◌,
}
use wihajster.Common.Bytes.{Bytes, codes, decimal, parse_int}
use wihajster.Common.Maps.{Map, bytes_eq, bytes_key, lookup}
use wihajster.Lexer.Token.{Token, TokenType}
use wihajster.Parser.Ast.{Expression, Expressions}
use wihajster.Tac.Types.{OperandKind, Opcode, Operand, no_operand}
use wihajster.Tac.Operands.{immediate, stack_slot_pointer, function_symbol}
use wihajster.Tac.Builder
use wihajster.Sema.Types.{
  Message, FunctionSignature, no_token, i32, void, is_pointer_type, pointee_type, pointer_to,
}
use wihajster.Sema.Literals.{decode_character_literal, binary_opcode}
use wihajster.Sema.Lowerer.{
  TypedValue, Lowerer, Lowering, ◌>>=◌, ◌>>◌, pure, fail, fail_if, found, get, emit, emit_value,
  instruction, void_instruction, resolve_variable, load_address, store_address,
}

-- `lowerAddress`: the address and the type of what stands there.
abbrev pub Address : Type 0
Address = Operand × Bytes

abbrev pub typed : Operand → Bytes → TypedValue
typed o typ = record { value = o; type_name = typ }

pub unsupported : {A : Type 0} → Token → Bytes → Lowering A
unfolding fail
unsupported tok feature = fail tok (Message.unsupported feature)

-- `case parser.IntegerLiteralExpression`.
pub lower_integer : Token → Bytes → Lowering TypedValue
lower_integer tok raw = do
  _ ← found (parse_int 32 raw) tok (Message.invalid_integer raw)
  o ← instruction Opcode.const_i32 (immediate raw ∷ [])
  pure (typed o i32)

-- `case parser.CharacterLiteralExpression`.
pub lower_character : Token → Bytes → Lowering TypedValue
lower_character tok raw = do
  value ← found (decode_character_literal raw) tok (Message.invalid_character raw)
  o ← instruction Opcode.const_i32 (immediate (decimal value) ∷ [])
  pure (typed o i32)

-- The address of a variable.
pub variable_address : Token → Bytes → Lowering Address
variable_address tok name = do
  l ← get
  sym ← found (resolve_variable name l.scopes) tok (Message.undeclared name)
  pure (stack_slot_pointer sym.slot, sym.type_name)

-- `case parser.IdentifierExpression`.
pub lower_identifier : Token → Bytes → Lowering TypedValue
unfolding variable_address
lower_identifier tok name = do
  (addr, typ) ← variable_address tok name
  o ← instruction Opcode.load (addr ∷ [])
  pure (typed o typ)

-- The pointer that `*` is applied to, and the type that it points to.
pub pointer_target : Token → TypedValue → Lowering Address
pointer_target tok ptr = do
  elem ← found (pointee_type ptr.type_name) tok (Message.not_a_pointer ptr.type_name)
  fail_if (bytes_eq elem void) tok Message.void_pointer
  pure (ptr.value, elem)

-- The unary operators on a value that is no pointer.
lower_arithmetic : Token → TokenType → TypedValue → Lowering TypedValue
unfolding unsupported
lower_arithmetic tok TokenType.plus operand = pure operand
lower_arithmetic tok TokenType.minus operand = do
  o ← instruction Opcode.neg (operand.value ∷ [])
  pure (typed o operand.type_name)
lower_arithmetic tok TokenType.bang operand = do
  o ← instruction Opcode.logic_not (operand.value ∷ [])
  pure (typed o i32)
lower_arithmetic tok TokenType.tilde operand = do
  o ← instruction Opcode.not (operand.value ∷ [])
  pure (typed o operand.type_name)
lower_arithmetic tok _ operand = unsupported tok (codes "unary operator")

lower_operator : Token → TokenType → Lowering TypedValue → Lowering TypedValue
unfolding lower_arithmetic
lower_operator tok op value = do
  operand ← value
  fail_if (bytes_eq operand.type_name void) tok Message.unary_void
  fail_if (is_pointer_type operand.type_name) tok Message.unary_pointer
  lower_arithmetic tok op operand

-- `case parser.UnaryExpression`, on the operator.
unfoldable pub lower_unary :
    Token → TokenType → Lowering TypedValue → Lowering Address → Lowering TypedValue
unfolding pointer_target lower_operator
lower_unary tok TokenType.star value address = do
  ptr ← value
  (addr, elem) ← pointer_target tok ptr
  o ← load_address addr
  pure (typed o elem)
lower_unary tok TokenType.amp value address = do
  (addr, elem) ← address
  pure (typed addr (pointer_to elem))
lower_unary tok op value address = lower_operator tok op value

-- The operators whose result is an `i32` whatever their operands' type.
abbrev result_type : TokenType → Bytes → Bytes
result_type TokenType.eq typ = i32
result_type TokenType.ne typ = i32
result_type TokenType.lt typ = i32
result_type TokenType.le typ = i32
result_type TokenType.gt typ = i32
result_type TokenType.ge typ = i32
result_type _ typ = typ

-- `&&` and `||`: each side is compared with 0.
lower_logical : Opcode → Operand → Operand → Lowering TypedValue
lower_logical opcode lhs rhs = do
  a ← instruction Opcode.ne (lhs ∷ immediate (codes "0") ∷ [])
  b ← instruction Opcode.ne (rhs ∷ immediate (codes "0") ∷ [])
  o ← instruction opcode (a ∷ b ∷ [])
  pure (typed o i32)

lower_comparison : TokenType → Opcode → TypedValue → TypedValue → Lowering TypedValue
lower_comparison op opcode lhs rhs = do
  o ← instruction opcode (lhs.value ∷ rhs.value ∷ [])
  pure (typed o (result_type op lhs.type_name))

-- `binaryOpcode(e.Op) == tac.OpcodeInvalid` is refused.
emit_binary : Token → TokenType → Opcode → TypedValue → TypedValue → Lowering TypedValue
unfolding unsupported lower_logical lower_comparison
emit_binary tok op Opcode.invalid lhs rhs = unsupported tok (codes "binary operator")
emit_binary tok TokenType.and_and opcode lhs rhs = lower_logical opcode lhs.value rhs.value
emit_binary tok TokenType.or_or opcode lhs rhs = lower_logical opcode lhs.value rhs.value
emit_binary tok op opcode lhs rhs = lower_comparison op opcode lhs rhs

-- `case parser.BinaryExpression`.
unfoldable pub lower_binary :
    Token → TokenType → Lowering TypedValue → Lowering TypedValue → Lowering TypedValue
unfolding emit_binary
lower_binary tok op left right = do
  lhs ← left
  rhs ← right
  fail_if (bytes_eq lhs.type_name void || bytes_eq rhs.type_name void) tok Message.binary_void
  emit_binary tok op (binary_opcode op) lhs rhs

-- `case parser.AssignmentExpression`.
unfoldable pub lower_assignment :
    Token → Lowering Address → Lowering TypedValue → Lowering TypedValue
lower_assignment tok address right = do
  (addr, typ) ← address
  rhs ← right
  fail_if (not (bytes_eq rhs.type_name typ)) tok (Message.assignment_mismatch typ rhs.type_name)
  store_address addr rhs.value
  pure rhs

-- The call, after its arguments.
emit_call : Bytes → FunctionSignature → List Operand → Lowering TypedValue
emit_call name sig args =
    let callee = function_symbol (codes "@" ++ name) in
    if bytes_eq sig.return_type void
    then (emit (Builder.add_call_void callee args) >> pure (typed no_operand void))
    else (emit_value (Builder.add_call callee args) >>= λ o. pure (typed o sig.return_type))

count_args : Expressions → ℕ
count_args Expressions.no_args = 0
count_args (Expressions.arg e es) = suc (count_args es)

-- One argument of a call, at index `i`, against its parameter's type.
lower_argument : Token → Bytes → ℕ → Bytes → Lowering TypedValue → Lowering Operand
lower_argument tok name i expected value = do
  arg ← value
  fail_if (not (bytes_eq arg.type_name expected)) tok
      (Message.argument_mismatch (i + 1) name arg.type_name expected)
  pure arg.value

-- `case parser.CallExpression`, with the lowering of its arguments by the parameters' types.
unfoldable pub lower_call :
    Token → Expression → ℕ → (Bytes → List Bytes → Lowering (List Operand)) → Lowering TypedValue
unfolding unsupported emit_call
lower_call tok (Expression.identifier callee_tok name) count lower_args = do
  l ← get
  sig ← found (lookup name l.functions) callee_tok (Message.undeclared_function name)
  fail_if (not (count == length sig.params)) tok
      (Message.argument_count name (length sig.params) count)
  args ← lower_args name sig.params
  emit_call name sig args
lower_call tok _ count lower_args = unsupported tok (codes "function call target")

-- The end of `lowerAddress`, which names no position.
no_target : Lowering Address
unfolding unsupported
no_target = unsupported no_token (codes "assignment target")

-- The address behind `*`.
lower_target : Token → TokenType → Lowering TypedValue → Lowering Address
unfolding pointer_target no_target
lower_target tok TokenType.star value = do ptr ← value; pointer_target tok ptr
lower_target tok _ value = no_target

unfoldable mutual
  unfolding lower_integer lower_character lower_identifier lower_unary lower_binary lower_assignment
      lower_call lower_argument unsupported count_args variable_address lower_target no_target

  -- `lowerExpr`.
  pub lower_expr : Expression → Lowering TypedValue
  lower_expr Expression.nil = unsupported no_token (codes "expression kind")
  lower_expr (Expression.integer_literal tok raw) = lower_integer tok raw
  lower_expr (Expression.character_literal tok raw) = lower_character tok raw
  lower_expr (Expression.identifier tok name) = lower_identifier tok name
  lower_expr (Expression.unary tok op e) = lower_unary tok op (lower_expr e) (lower_address e)
  lower_expr (Expression.binary tok op a b) = lower_binary tok op (lower_expr a) (lower_expr b)
  lower_expr (Expression.assignment tok a b) = lower_assignment tok (lower_address a) (lower_expr b)
  lower_expr (Expression.call tok callee args) =
      lower_call tok callee (count_args args) (λ name types. lower_args tok name 0 args types)

  -- `lowerAddress`.
  pub lower_address : Expression → Lowering Address
  lower_address (Expression.identifier tok name) = variable_address tok name
  lower_address (Expression.unary tok op e) = lower_target tok op (lower_expr e)
  lower_address _ = no_target

  -- The loop over the arguments, from index `i`.
  pub lower_args : Token → Bytes → ℕ → Expressions → List Bytes → Lowering (List Operand)
  lower_args tok name i (Expressions.arg e es) (typ ∷ types) = do
    o ← lower_argument tok name i typ (lower_expr e)
    os ← lower_args tok name (i + 1) es types
    pure (o ∷ os)
  lower_args tok name i _ _ = pure []

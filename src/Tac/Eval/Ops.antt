-- ===== src/Tac/Eval/Ops.antt =====
-- `evalState.evalOp`: one operation in a frame. The steps counted so far are passed through, and
-- the call of a function is an argument, which the loop supplies.
use wihajster.Common.{
  ℕ, suc, Bool, true, false, not, ◌+◌, List, [], ◌∷◌, length, Option, none, some, ◌==◌,
  if◌then◌else◌,
}
use wihajster.Common.Bytes.{Bytes, trim_space, parse_int}
use wihajster.Common.Maps.{assign, nat_eq}
use wihajster.Common.Outcome.{ok, err, ◌>>=◌, found}
use wihajster.Tac.Types.{Opcode, Operand, Instruction}
use wihajster.Tac.Int32
use wihajster.Tac.Eval.State.{
  Value, EvalFrame, EvalError, Result, blank_cell, resolve_value, resolve_i32, resolve_ptr,
  read_cell, write_cell,
}

-- `evalCall` at some depth: the callee, its arguments, the depth and the steps.
abbrev pub Call : Type 0
Call = Bytes → List Value → ℕ → ℕ → Result (Value × ℕ)

-- What an operation leaves: a result if it has one, the frame, and the steps.
pub record OpResult : Type 0 where
  pub result : Option Value
  pub frame : EvalFrame
  pub steps : ℕ

abbrev pub gives : EvalFrame → ℕ → Value → OpResult
gives frame steps v = record { result = some v; frame = frame; steps = steps }

-- `boolI32`.
unfoldable pub bool_i32 : Bool → ℕ
bool_i32 true = 1
bool_i32 false = 0

-- `needCount(1)`, and the operand.
unfoldable pub one_operand : Opcode → List Operand → Result Bytes
one_operand op (a ∷ []) = ok a.text
one_operand op os = err (EvalError.operand_count op 1 (length os))

-- `needCount(2)`, and the operands.
unfoldable pub two_operands : Opcode → List Operand → Result (Bytes × Bytes)
two_operands op (a ∷ b ∷ []) = ok (a.text, b.text)
two_operands op os = err (EvalError.operand_count op 2 (length os))

-- The operand of `const.i32`, for which the message is another one.
unfoldable pub const_operand : List Operand → Result Bytes
const_operand (a ∷ []) = ok a.text
const_operand _ = err EvalError.const_i32_operand

-- `strconv.ParseInt(strings.TrimSpace(text), 10, bits)`; `int8` and `int32` keep the value.
unfoldable pub constant : ℕ → Bytes → EvalError → Result ℕ
constant bits text e = do n ← found (parse_int bits (trim_space text)) e; ok (Int32.of_parsed n)

-- The inner switch of the unary operations.
unfoldable pub unary : Opcode → ℕ → ℕ
unary Opcode.neg a = Int32.neg a
unary Opcode.not a = Int32.complement a
unary _ a = bool_i32 (a == 0)

unfoldable pub divide : ℕ → ℕ → Result ℕ
divide a b = if b == 0 then err EvalError.division_by_zero else ok (Int32.div a b)

unfoldable pub modulo : ℕ → ℕ → Result ℕ
modulo a b = if b == 0 then err EvalError.modulo_by_zero else ok (Int32.rem a b)

-- The inner switch of the binary operations.
unfoldable pub binary : Opcode → ℕ → ℕ → Result ℕ
unfolding bool_i32 divide modulo
binary Opcode.add a b = ok (Int32.add a b)
binary Opcode.sub a b = ok (Int32.sub a b)
binary Opcode.mul a b = ok (Int32.mul a b)
binary Opcode.div_s a b = divide a b
binary Opcode.mod_s a b = modulo a b
binary Opcode.and a b = ok (Int32.and a b)
binary Opcode.or a b = ok (Int32.or a b)
binary Opcode.xor a b = ok (Int32.xor_bits a b)
binary Opcode.shl a b = ok (Int32.shl a b)
binary Opcode.shr_s a b = ok (Int32.shr a b)
binary Opcode.eq a b = ok (bool_i32 (a == b))
binary Opcode.ne a b = ok (bool_i32 (not (a == b)))
binary Opcode.lt_s a b = ok (bool_i32 (Int32.lt a b))
binary Opcode.le_s a b = ok (bool_i32 (Int32.le a b))
binary Opcode.gt_s a b = ok (bool_i32 (Int32.lt b a))
binary _ a b = ok (bool_i32 (Int32.le b a))

unfoldable pub eval_unary : EvalFrame → ℕ → Opcode → List Operand → Result OpResult
unfolding one_operand resolve_i32 unary
eval_unary frame steps op os = do
  x ← one_operand op os
  a ← resolve_i32 frame x
  ok (gives frame steps (Value.i32 (unary op a)))

unfoldable pub eval_binary : EvalFrame → ℕ → Opcode → List Operand → Result OpResult
unfolding two_operands resolve_i32 binary
eval_binary frame steps op os = do
  (x, y) ← two_operands op os
  a ← resolve_i32 frame x
  b ← resolve_i32 frame y
  c ← binary op a b
  ok (gives frame steps (Value.i32 c))

-- `load` and `load.ind`.
unfoldable pub eval_load : EvalFrame → ℕ → Opcode → List Operand → Result OpResult
unfolding one_operand resolve_ptr read_cell
eval_load frame steps op os = do
  x ← one_operand op os
  p ← resolve_ptr frame x
  v ← read_cell frame p
  ok (gives frame steps v)

-- `store` and `store.ind`.
unfoldable pub eval_store : EvalFrame → ℕ → Opcode → List Operand → Result OpResult
unfolding two_operands resolve_ptr resolve_value write_cell
eval_store frame steps op os = do
  (x, y) ← two_operands op os
  p ← resolve_ptr frame x
  v ← resolve_value frame y
  ok (record { result = none; frame = write_cell frame p v; steps = steps })

unfoldable pub resolve_args : EvalFrame → List Operand → Result (List Value)
resolve_args frame [] = ok []
resolve_args frame (a ∷ args) = do
  v ← resolve_value frame a.text
  vs ← resolve_args frame args
  ok (v ∷ vs)

unfoldable pub callee_of : Bytes → Result Bytes
callee_of [] = err EvalError.callee_missing
callee_of (c ∷ name) = ok (c ∷ name)

abbrev pub captured : Bool → Value → Option Value
captured true ret = some ret
captured false ret = none

unfoldable pub eval_call_op : Call → EvalFrame → ℕ → ℕ → Instruction → Result OpResult
unfolding callee_of resolve_args
eval_call_op call frame depth steps inst = do
  callee ← callee_of inst.call_callee
  argv ← resolve_args frame inst.call_args
  (ret, steps') ← call callee argv (depth + 1) steps
  ok (record { result = captured inst.has_destination ret; frame = frame; steps = steps' })

-- `alloca`: the next address gets an uninitialized cell.
unfoldable pub eval_alloca : EvalFrame → ℕ → List Operand → Result OpResult
unfolding one_operand
eval_alloca frame steps os = do
  _ ← one_operand Opcode.alloca os
  ok (
      gives
        (record frame {
          next_addr = suc frame.next_addr;
          memory = assign frame.next_addr blank_cell frame.memory;
        })
        steps (Value.ptr frame.next_addr))

-- `evalOp`, on the opcode.
unfoldable pub eval_op : Opcode → Call → EvalFrame → ℕ → ℕ → Instruction → Result OpResult
unfolding const_operand constant eval_alloca eval_load eval_store eval_call_op eval_unary
    eval_binary
eval_op Opcode.invalid call frame depth steps inst =
    err (EvalError.unsupported_opcode Opcode.invalid)
eval_op Opcode.const_i32 call frame depth steps inst = do
  text ← const_operand inst.operands
  n ← constant 32 text (EvalError.invalid_const_i32 text)
  ok (gives frame steps (Value.i32 n))
eval_op Opcode.const_i8 call frame depth steps inst = do
  text ← one_operand Opcode.const_i8 inst.operands
  n ← constant 8 text (EvalError.invalid_const_i8 text)
  ok (gives frame steps (Value.i32 n))
eval_op Opcode.copy call frame depth steps inst = do
  x ← one_operand Opcode.copy inst.operands
  v ← resolve_value frame x
  ok (gives frame steps v)
eval_op Opcode.alloca call frame depth steps inst = eval_alloca frame steps inst.operands
eval_op Opcode.load call frame depth steps inst = eval_load frame steps Opcode.load inst.operands
eval_op Opcode.load_indirect call frame depth steps inst =
    eval_load frame steps Opcode.load_indirect inst.operands
eval_op Opcode.store call frame depth steps inst = eval_store frame steps Opcode.store inst.operands
eval_op Opcode.store_indirect call frame depth steps inst =
    eval_store frame steps Opcode.store_indirect inst.operands
eval_op Opcode.call call frame depth steps inst = eval_call_op call frame depth steps inst
eval_op Opcode.neg call frame depth steps inst = eval_unary frame steps Opcode.neg inst.operands
eval_op Opcode.not call frame depth steps inst = eval_unary frame steps Opcode.not inst.operands
eval_op Opcode.logic_not call frame depth steps inst =
    eval_unary frame steps Opcode.logic_not inst.operands
eval_op op call frame depth steps inst = eval_binary frame steps op inst.operands

-- ===== src/Tac/Eval/OpRanges.antt =====
-- internal/tac/evaluator.go: the range of what `evalOp` computes, by the range of what a call does.
use wihajster.Common.{ℕ, ◌+◌, ◌≤◌, Bool, true, false, List, [], ◌∷◌, ◌==◌, arith, if_both, All}
use wihajster.Common.Bytes.{Bytes, trim_space, parse_int}
use wihajster.Common.Maps.{OnSome}
use wihajster.Common.Outcome.{returns, raises, Post-bind, Post-found}
use wihajster.Tac.Types.{Opcode, Operand, Instruction}
use wihajster.Tac.Int32.{IsI32}
use wihajster.Tac.Int32.Bounds
use wihajster.Tac.Eval.State.{Value, EvalFrame, EvalError, write_cell}
use wihajster.Tac.Eval.Ops.{
  Call, one_operand, two_operands, const_operand, constant, bool_i32, unary, binary, gives,
  eval_unary, eval_binary, eval_load, eval_store, callee_of, captured, eval_call_op, eval_alloca,
  eval_op,
}
use wihajster.Tac.Eval.Ranges.{
  Stops, Any, Finishes, InRange, FrameInRange, Counted, OpInRange, resolve_value-Finishes,
  resolve_i32-Finishes, resolve_ptr-Finishes, read_cell-Finishes, resolve_args-Finishes,
}

one_operand-Finishes : (op : Opcode) (os : List Operand) → Finishes Any (one_operand op os)
unfolding one_operand
one_operand-Finishes op [] = raises tt
one_operand-Finishes op (a ∷ []) = returns tt
one_operand-Finishes op (a ∷ b ∷ os) = raises tt

two_operands-Finishes : (op : Opcode) (os : List Operand) → Finishes Any (two_operands op os)
unfolding two_operands
two_operands-Finishes op [] = raises tt
two_operands-Finishes op (a ∷ []) = raises tt
two_operands-Finishes op (a ∷ b ∷ []) = returns tt
two_operands-Finishes op (a ∷ b ∷ c ∷ os) = raises tt

const_operand-Finishes : (os : List Operand) → Finishes Any (const_operand os)
unfolding const_operand
const_operand-Finishes [] = raises tt
const_operand-Finishes (a ∷ []) = returns tt
const_operand-Finishes (a ∷ b ∷ os) = raises tt

constant-Finishes :
    (bits : ℕ) (t : Bytes) (e : EvalError) → Stops e → Finishes IsI32 (constant bits t e)
unfolding constant
constant-Finishes bits t e h =
    Post-bind (Post-found e (parse_int bits (trim_space t)) h)
      λ n _. returns (Bounds.of_parsed-IsI32 n)

bool_i32-IsI32 : (b : Bool) → IsI32 (bool_i32 b)
unfolding bool_i32
bool_i32-IsI32 true = omega arith
bool_i32-IsI32 false = omega arith

unary-IsI32 : (op : Opcode) (a : ℕ) → IsI32 (unary op a)
unfolding unary
unary-IsI32 Opcode.neg a = Bounds.neg-IsI32 a
unary-IsI32 Opcode.not a = Bounds.complement-IsI32 a
unary-IsI32 _ a = bool_i32-IsI32 (a == 0)

binary-Finishes : (op : Opcode) (a b : ℕ) → IsI32 a → Finishes IsI32 (binary op a b)
unfolding binary
binary-Finishes Opcode.add a b h = returns (Bounds.add-IsI32 a b)
binary-Finishes Opcode.sub a b h = returns (Bounds.sub-IsI32 a b)
binary-Finishes Opcode.mul a b h = returns (Bounds.mul-IsI32 a b)
binary-Finishes Opcode.div_s a b h =
    if_both (Finishes IsI32) (b == 0) (raises tt) (returns (Bounds.div-IsI32 a b))
binary-Finishes Opcode.mod_s a b h =
    if_both (Finishes IsI32) (b == 0) (raises tt) (returns (Bounds.rem-IsI32 a b))
binary-Finishes Opcode.and a b h = returns (Bounds.and-IsI32 a b)
binary-Finishes Opcode.or a b h = returns (Bounds.or-IsI32 a b)
binary-Finishes Opcode.xor a b h = returns (Bounds.xor_bits-IsI32 a b)
binary-Finishes Opcode.shl a b h = returns (Bounds.shl-IsI32 a b)
binary-Finishes Opcode.shr_s a b h = returns (Bounds.shr-IsI32 a b h)
binary-Finishes _ a b h = returns (bool_i32-IsI32 _)

-- What a call leaves: its value in range, and its steps counted on.
abbrev pub CallInRange : ℕ → ℕ → Value × ℕ → Type 0
CallInRange from limit (v, steps) = InRange v × Counted from limit steps

module _ (limit : ℕ) (frame : EvalFrame) (ok' : FrameInRange frame) (steps : ℕ)
    (fits : steps ≤ limit) where
  -- A value is given, and the frame is left as it is.
  unchanged : (v : Value) → InRange v → OpInRange steps limit (gives frame steps v)
  unchanged v h = record { counted = (omega arith, fits); frame_ok = ok'; result_ok = h }

  unary-case :
      (op : Opcode) (os : List Operand)
      → Finishes (OpInRange steps limit) (eval_unary frame steps op os)
  unfolding eval_unary
  unary-case op os = Post-bind (one_operand-Finishes op os) λ x _.
      Post-bind (resolve_i32-Finishes frame ok' x) λ a _. returns (unchanged _ (unary-IsI32 op a))

  binary-case :
      (op : Opcode) (os : List Operand)
      → Finishes (OpInRange steps limit) (eval_binary frame steps op os)
  unfolding eval_binary
  binary-case op os = Post-bind (two_operands-Finishes op os) λ (x, y) _.
      Post-bind (resolve_i32-Finishes frame ok' x) λ a h.
        Post-bind (resolve_i32-Finishes frame ok' y)
          λ b _. Post-bind (binary-Finishes op a b h) λ c k. returns (unchanged _ k)

  load-case :
      (op : Opcode) (os : List Operand)
      → Finishes (OpInRange steps limit) (eval_load frame steps op os)
  unfolding eval_load
  load-case op os = Post-bind (one_operand-Finishes op os) λ x _.
      Post-bind (resolve_ptr-Finishes frame ok' x)
        λ p _. Post-bind (read_cell-Finishes frame ok' p) λ v h. returns (unchanged _ h)

  store-case :
      (op : Opcode) (os : List Operand)
      → Finishes (OpInRange steps limit) (eval_store frame steps op os)
  unfolding eval_store write_cell
  store-case op os = Post-bind (two_operands-Finishes op os) λ (x, y) _.
      Post-bind (resolve_ptr-Finishes frame ok' x) λ p _.
        Post-bind (resolve_value-Finishes frame ok' y) λ v h. returns (record {
          counted = (omega arith, fits);
          frame_ok = record { names = ok'.names; cells = (h, ok'.cells) };
          result_ok = tt;
        })

  alloca-case : (os : List Operand) → Finishes (OpInRange steps limit) (eval_alloca frame steps os)
  unfolding eval_alloca
  alloca-case os = Post-bind (one_operand-Finishes Opcode.alloca os) λ _ _. returns (record {
    counted = (omega arith, fits);
    frame_ok = record { names = ok'.names; cells = (omega arith, ok'.cells) };
    result_ok = tt;
  })

  callee_of-Finishes : (name : Bytes) → Finishes Any (callee_of name)
  unfolding callee_of
  callee_of-Finishes [] = raises tt
  callee_of-Finishes (c ∷ name) = returns tt

  captured-InRange : (b : Bool) (v : Value) → InRange v → OnSome InRange (captured b v)
  captured-InRange true v h = h
  captured-InRange false v h = tt

  module _ (call : Call) (depth : ℕ)
      (calls : (name : Bytes) (args : List Value)
        → All InRange args
        → Finishes (CallInRange steps limit) (call name args (depth + 1) steps)) where
    call-case :
        (inst : Instruction)
        → Finishes (OpInRange steps limit) (eval_call_op call frame depth steps inst)
    unfolding eval_call_op
    call-case inst = Post-bind (callee_of-Finishes inst.call_callee) λ callee _.
        Post-bind (resolve_args-Finishes frame ok' inst.call_args) λ argv h.
          Post-bind (calls callee argv h) λ (ret, steps') (k, n). returns (record {
            counted = n;
            frame_ok = ok';
            result_ok = captured-InRange inst.has_destination ret k;
          })

    pub eval_op-Finishes :
        (op : Opcode) (inst : Instruction)
        → Finishes (OpInRange steps limit) (eval_op op call frame depth steps inst)
    unfolding eval_op
    eval_op-Finishes Opcode.invalid inst = raises tt
    eval_op-Finishes Opcode.const_i32 inst =
        Post-bind (const_operand-Finishes inst.operands)
          λ t _. Post-bind (constant-Finishes 32 t _ tt) λ n h. returns (unchanged _ h)
    eval_op-Finishes Opcode.const_i8 inst =
        Post-bind (one_operand-Finishes Opcode.const_i8 inst.operands)
          λ t _. Post-bind (constant-Finishes 8 t _ tt) λ n h. returns (unchanged _ h)
    eval_op-Finishes Opcode.copy inst =
        Post-bind (one_operand-Finishes Opcode.copy inst.operands)
          λ x _. Post-bind (resolve_value-Finishes frame ok' x) λ v h. returns (unchanged _ h)
    eval_op-Finishes Opcode.alloca inst = alloca-case inst.operands
    eval_op-Finishes Opcode.load inst = load-case Opcode.load inst.operands
    eval_op-Finishes Opcode.load_indirect inst = load-case Opcode.load_indirect inst.operands
    eval_op-Finishes Opcode.store inst = store-case Opcode.store inst.operands
    eval_op-Finishes Opcode.store_indirect inst = store-case Opcode.store_indirect inst.operands
    eval_op-Finishes Opcode.call inst = call-case inst
    eval_op-Finishes Opcode.neg inst = unary-case Opcode.neg inst.operands
    eval_op-Finishes Opcode.not inst = unary-case Opcode.not inst.operands
    eval_op-Finishes Opcode.logic_not inst = unary-case Opcode.logic_not inst.operands
    eval_op-Finishes op inst = binary-case op inst.operands

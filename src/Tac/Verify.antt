-- ===== src/Tac/Verify.antt =====
-- internal/tac/types.go: `VerifyInstruction`, one instruction at a time.
use wihajster.Common.{ℕ, Bool, true, false, not, ◌&&◌, ◌||◌, List, [], ◌∷◌, ◌+◌, ◌==◌, length, ltb}
use wihajster.Common.Bytes.{Bytes}
use wihajster.Common.Outcome.{Outcome, ok, err, ◌>>◌, check}
use wihajster.Tac.Types.{
  InstructionKind, Opcode, OperandKind, Operand, Instruction, same_kind, value_kind,
}

-- The errors, with what their messages name.
pub data VerifyError : Type 0 where
  label_missing jmp_target br_condition br_targets ret_value invalid_opcode : VerifyError
  operand_count : Opcode → ℕ → ℕ → VerifyError
  operand_kind : Opcode → ℕ → OperandKind → OperandKind → VerifyError
  value_operand two_value_operands one_value_operand : Opcode → VerifyError
  load_operand store_operands load_indirect_operand store_indirect_operands : VerifyError
  callee_missing callee_symbol call_operands destination_kind : VerifyError
  call_argument : ℕ → VerifyError

abbrev pub Checked : Type 0
Checked = Outcome VerifyError (Unit {0})

-- The loop of `requireKinds`, with the index of the operand.
require_each : Opcode → ℕ → List OperandKind → List Operand → Checked
require_each op i (want ∷ kinds) (o ∷ os) = do
  check (same_kind o.kind want) (VerifyError.operand_kind op (i + 1) want o.kind)
  require_each op (i + 1) kinds os
require_each op i _ _ = ok tt

-- `requireKinds`.
unfoldable pub require_kinds : Instruction → List OperandKind → Checked
unfolding require_each
require_kinds inst kinds = do
  check (length inst.operands == length kinds)
      (VerifyError.operand_count inst.opcode (length kinds) (length inst.operands))
  require_each inst.opcode 0 kinds inst.operands

one_value : List Operand → Bool
one_value (a ∷ []) = value_kind a.kind
one_value _ = false

two_values : List Operand → Bool
two_values (a ∷ b ∷ []) = value_kind a.kind && value_kind b.kind
two_values _ = false

one_slot : List Operand → Bool
one_slot (a ∷ []) = same_kind a.kind OperandKind.stack_slot_pointer
one_slot _ = false

slot_and_value : List Operand → Bool
slot_and_value (a ∷ b ∷ []) = same_kind a.kind OperandKind.stack_slot_pointer && value_kind b.kind
slot_and_value _ = false

-- `isFunctionSymbol`.
unfoldable pub is_function_symbol : Bytes → Bool
is_function_symbol [] = false
is_function_symbol (c ∷ name) = ltb 1 (length (c ∷ name)) && (c == b'@')

-- The loop over `inst.CallArgs`.
unfoldable pub verify_call_args : ℕ → List Operand → Checked
verify_call_args i [] = ok tt
verify_call_args i (a ∷ args) = do
  check (value_kind a.kind) (VerifyError.call_argument (i + 1))
  verify_call_args (i + 1) args

is_empty {ℓ} : {A : Type ℓ} → List A → Bool
is_empty [] = true
is_empty (_ ∷ _) = false

verify_call : Instruction → Checked
unfolding is_empty verify_call_args is_function_symbol
verify_call inst = do
  check (not (is_empty inst.call_callee)) VerifyError.callee_missing
  check (is_function_symbol inst.call_callee) VerifyError.callee_symbol
  verify_call_args 0 inst.call_args
  check (is_empty inst.operands) VerifyError.call_operands

-- The test behind the switch of `verifyOpcodeOperands`.
verify_destination : Instruction → Checked
verify_destination inst =
    check
      (not inst.has_destination
        || same_kind inst.destination.kind OperandKind.temp
        || same_kind inst.destination.kind OperandKind.stack_slot_pointer)
      VerifyError.destination_kind

verify_unary : Instruction → Checked
unfolding one_value verify_destination
verify_unary inst = do
  check (one_value inst.operands) (VerifyError.one_value_operand inst.opcode)
  verify_destination inst

verify_binary : Instruction → Checked
unfolding two_values verify_destination
verify_binary inst = do
  check (two_values inst.operands) (VerifyError.two_value_operands inst.opcode)
  verify_destination inst

-- `verifyOpcodeOperands`, on the opcode. Three cases return before the test of the destination.
unfoldable pub verify_opcode_operands : Opcode → Instruction → Checked
unfolding require_kinds one_slot slot_and_value verify_call verify_unary verify_binary
verify_opcode_operands Opcode.const_i32 inst = require_kinds inst (OperandKind.immediate ∷ [])
verify_opcode_operands Opcode.const_i8 inst = require_kinds inst (OperandKind.immediate ∷ [])
verify_opcode_operands Opcode.alloca inst = require_kinds inst (OperandKind.immediate ∷ [])
verify_opcode_operands Opcode.copy inst = do
  check (one_value inst.operands) (VerifyError.value_operand inst.opcode)
  verify_destination inst
verify_opcode_operands Opcode.neg inst = verify_unary inst
verify_opcode_operands Opcode.not inst = verify_unary inst
verify_opcode_operands Opcode.logic_not inst = verify_unary inst
verify_opcode_operands Opcode.load inst = do
  check (one_slot inst.operands) VerifyError.load_operand
  verify_destination inst
verify_opcode_operands Opcode.store inst = do
  check (slot_and_value inst.operands) VerifyError.store_operands
  verify_destination inst
verify_opcode_operands Opcode.load_indirect inst = do
  check (one_value inst.operands) VerifyError.load_indirect_operand
  verify_destination inst
verify_opcode_operands Opcode.store_indirect inst = do
  check (two_values inst.operands) VerifyError.store_indirect_operands
  verify_destination inst
verify_opcode_operands Opcode.call inst = do verify_call inst; verify_destination inst
verify_opcode_operands Opcode.invalid inst = err VerifyError.invalid_opcode
verify_opcode_operands _ inst = verify_binary inst

abbrev is_label : Operand → Bool
is_label o = same_kind o.kind OperandKind.label

-- `VerifyInstruction`, on the kind. The branch for a kind that is none of the constants is left
-- out: no value of the enumeration reaches it.
unfoldable pub verify_of_kind : InstructionKind → Instruction → Checked
unfolding verify_opcode_operands is_empty
verify_of_kind InstructionKind.label inst =
    check (not (is_empty inst.label)) VerifyError.label_missing
verify_of_kind InstructionKind.jmp inst = check (is_label inst.true_label) VerifyError.jmp_target
verify_of_kind InstructionKind.br inst = do
  check (not (same_kind inst.condition.kind OperandKind.invalid)) VerifyError.br_condition
  check (is_label inst.true_label && is_label inst.false_label) VerifyError.br_targets
verify_of_kind InstructionKind.ret inst =
    check (not (inst.has_return_value && same_kind inst.return_value.kind OperandKind.invalid))
      VerifyError.ret_value
verify_of_kind InstructionKind.op inst = verify_opcode_operands inst.opcode inst

-- `VerifyInstruction`.
unfoldable pub verify_instruction : Instruction → Checked
unfolding verify_of_kind same_kind value_kind
verify_instruction inst = verify_of_kind inst.kind inst

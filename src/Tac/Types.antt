-- ===== src/Tac/Types.antt =====
-- internal/tac/types.go: modules, functions, instructions and operands.
-- A Go string is a list of bytes, and a zero value is written out.
use wihajster.Common.{ℕ, Bool, false, List, [], ◌==◌, ◌||◌}
use wihajster.Common.Bytes.{Bytes}

pub data InstructionKind : Type 0 where
  label op jmp br ret : InstructionKind

pub data Opcode : Type 0 where
  invalid const_i32 const_i8 copy : Opcode
  add sub mul div_s mod_s : Opcode
  and or xor shl shr_s : Opcode
  eq ne lt_s le_s gt_s ge_s : Opcode
  neg not logic_not call : Opcode
  alloca load store load_indirect store_indirect : Opcode

pub data OperandKind : Type 0 where
  invalid temp param immediate label function_symbol stack_slot_pointer : OperandKind

-- The constants of the source are the numbers of an `iota`.
unfoldable pub kind_number : OperandKind → ℕ
kind_number OperandKind.invalid = 0
kind_number OperandKind.temp = 1
kind_number OperandKind.param = 2
kind_number OperandKind.immediate = 3
kind_number OperandKind.label = 4
kind_number OperandKind.function_symbol = 5
kind_number OperandKind.stack_slot_pointer = 6

-- `a == b` on operand kinds.
unfoldable pub same_kind : OperandKind → OperandKind → Bool
unfolding kind_number
same_kind a b = kind_number a == kind_number b

pub record Operand : Type 0 where
  pub kind : OperandKind
  pub text : Bytes

-- `Operand{}`.
abbrev pub no_operand : Operand
no_operand = record { kind = OperandKind.invalid; text = [] }

pub record Instruction : Type 0 where
  pub kind : InstructionKind
  pub label : Bytes
  pub has_destination : Bool
  pub destination : Operand
  pub opcode : Opcode
  pub operands : List Operand
  pub call_callee : Bytes
  pub call_args : List Operand
  pub condition : Operand
  pub true_label : Operand
  pub false_label : Operand
  pub has_return_value : Bool
  pub return_value : Operand

-- `Instruction{Kind: kind}`: every other field has its zero value.
abbrev pub blank : InstructionKind → Instruction
blank kind = record {
  kind = kind;
  label = [];
  has_destination = false;
  destination = no_operand;
  opcode = Opcode.invalid;
  operands = [];
  call_callee = [];
  call_args = [];
  condition = no_operand;
  true_label = no_operand;
  false_label = no_operand;
  has_return_value = false;
  return_value = no_operand;
}

pub record Parameter : Type 0 where
  pub name : Bytes
  pub type_name : Bytes

pub record Function : Type 0 where
  pub name : Bytes
  pub parameters : List Parameter
  pub return_type : Bytes
  pub instructions : List Instruction
  pub next_temp_id : ℕ

pub record Module : Type 0 where
  pub functions : List Function

-- `valueKind` of `verifyOpcodeOperands`.
unfoldable pub value_kind : OperandKind → Bool
unfolding same_kind
value_kind k =
    same_kind k OperandKind.temp
    || same_kind k OperandKind.param
    || same_kind k OperandKind.immediate
    || same_kind k OperandKind.stack_slot_pointer

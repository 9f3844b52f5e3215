-- ===== src/Tac/Builder.antt =====
-- internal/tac/builder.go: the methods that append to a function. A method returns the function
-- after the call.
pub mod Blocks
pub mod Refused
use wihajster.Common.{ℕ, true, ◌+◌, List, [], ◌∷◌, ◌++◌, if◌then◌else◌}
use wihajster.Common.Bytes.{Bytes, codes, decimal}
use wihajster.Tac.Types.{
  InstructionKind, Opcode, OperandKind, Operand, Instruction, Function, blank, same_kind,
}
use wihajster.Tac.Operands.{temp, label, stack_slot_pointer}

-- The names `%t0`, `%t1`, … and `%s0`, `%s1`, ….
unfoldable pub temp_name : ℕ → Bytes
temp_name n = codes "%t" ++ decimal n

unfoldable pub slot_name : ℕ → Bytes
slot_name n = codes "%s" ++ decimal n

-- `Function.NewTemp`.
unfoldable pub new_temp : Function → Operand × Function
unfolding temp_name
new_temp f = (temp (temp_name f.next_temp_id), record f { next_temp_id = f.next_temp_id + 1 })

-- `Function.NewStackSlot`.
unfoldable pub new_stack_slot : Function → Operand × Function
unfolding slot_name
new_stack_slot f =
    (stack_slot_pointer (slot_name f.next_temp_id), record f { next_temp_id = f.next_temp_id + 1 })

-- `f.Instructions = append(f.Instructions, inst)`.
abbrev pub append_instruction : Function → Instruction → Function
append_instruction f inst = record f { instructions = f.instructions ++ (inst ∷ []) }

abbrev pub operation : Opcode → List Operand → Instruction
operation op os = record (blank InstructionKind.op) { opcode = op; operands = os }

abbrev pub with_destination : Operand → Instruction → Instruction
with_destination dst inst = record inst { has_destination = true; destination = dst }

-- The destination of `AddInstruction`: an `alloca` takes a temporary's number and then a slot's.
destination_for : Opcode → Function → Operand × Function
unfolding new_temp new_stack_slot
destination_for Opcode.alloca f = let (_, f') = new_temp f in new_stack_slot f'
destination_for _ f = new_temp f

-- `Function.AddInstruction`.
unfoldable pub add_instruction : Opcode → List Operand → Function → Operand × Function
unfolding destination_for
add_instruction op os f =
    let (dst, f') = destination_for op f in
    (dst, append_instruction f' (with_destination dst (operation op os)))

-- `Function.AddVoidInstruction`.
unfoldable pub add_void_instruction : Opcode → List Operand → Function → Function
add_void_instruction op os f = append_instruction f (operation op os)

abbrev pub call_instruction : Operand → List Operand → Instruction
call_instruction callee args = record (blank InstructionKind.op) {
  opcode = Opcode.call;
  call_callee = callee.text;
  call_args = args;
}

-- `Function.AddCall`.
unfoldable pub add_call : Operand → List Operand → Function → Operand × Function
unfolding new_temp
add_call callee args f =
    let (dst, f') = new_temp f in
    (dst, append_instruction f' (with_destination dst (call_instruction callee args)))

-- `Function.AddCallVoid`.
unfoldable pub add_call_void : Operand → List Operand → Function → Function
add_call_void callee args f = append_instruction f (call_instruction callee args)

-- `Function.AddLabel`.
unfoldable pub add_label : Bytes → Function → Function
add_label name f = append_instruction f (record (blank InstructionKind.label) { label = name })

-- `Function.AddJmp`.
unfoldable pub add_jmp : Bytes → Function → Function
add_jmp target f =
    append_instruction f (record (blank InstructionKind.jmp) { true_label = label target })

-- `Function.AddBr`.
unfoldable pub add_br : Operand → Bytes → Bytes → Function → Function
add_br condition on_true on_false f = append_instruction f (record (blank InstructionKind.br) {
  condition = condition;
  true_label = label on_true;
  false_label = label on_false;
})

-- `Function.AddRet`.
unfoldable pub add_ret : Operand → Function → Function
add_ret value f = append_instruction f (
    if same_kind value.kind OperandKind.invalid
    then blank InstructionKind.ret
    else record (blank InstructionKind.ret) { has_return_value = true; return_value = value })

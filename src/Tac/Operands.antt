-- ===== src/Tac/Operands.antt =====
-- internal/tac/types.go: the constructors of operands.
use wihajster.Common.Bytes.{Bytes}
use wihajster.Tac.Types.{OperandKind, Operand}

abbrev pub temp : Bytes → Operand
temp name = record { kind = OperandKind.temp; text = name }

abbrev pub param : Bytes → Operand
param name = record { kind = OperandKind.param; text = name }

abbrev pub immediate : Bytes → Operand
immediate value = record { kind = OperandKind.immediate; text = value }

abbrev pub label : Bytes → Operand
label name = record { kind = OperandKind.label; text = name }

abbrev pub function_symbol : Bytes → Operand
function_symbol name = record { kind = OperandKind.function_symbol; text = name }

abbrev pub stack_slot_pointer : Bytes → Operand
stack_slot_pointer name = record { kind = OperandKind.stack_slot_pointer; text = name }

-- ===== src/Tac/Eval/State.antt =====
-- The evaluator's values, frames and errors, and how an operand is resolved.
use wihajster.Common.{ℕ, Bool, true, false, ◌+◌, List, [], ◌∷◌, Option, none, some, if◌then◌else◌}
use wihajster.Common.Bytes.{Bytes, trim_space, parse_int}
use wihajster.Common.Maps.{Map, lookup, assign, bytes_key, nat_eq}
use wihajster.Common.Outcome.{Outcome, ok, err, ◌>>=◌, found}
use wihajster.Tac.Types.{InstructionKind, Opcode, Instruction, Function, Parameter}
use wihajster.Tac.Validate.{ValidateError}
use wihajster.Tac.Int32.{of_parsed}

-- `runtimeValue`, by its kind; the field of the other kind is not read.
pub data Value : Type 0 where
  i32 ptr : ℕ → Value

pub record MemoryCell : Type 0 where
  pub value : Value
  pub initialized : Bool

-- `memoryCell{}`.
abbrev pub blank_cell : MemoryCell
blank_cell = record { value = Value.i32 0; initialized = false }

pub record EvalFrame : Type 0 where
  pub values : Map Bytes Value
  pub memory : Map ℕ MemoryCell
  pub next_addr : ℕ
  pub labels : Map Bytes ℕ

pub data EvalError : Type 0 where
  invalid_function : ValidateError → EvalError
  call_depth missing_function step_limit no_ret non_i32_value : Bytes → EvalError
  argument_count : Bytes → ℕ → ℕ → EvalError
  invalid_jump invalid_branch : Bytes → Bytes → EvalError
  value_without_destination : Opcode → Bytes → EvalError
  unknown_value invalid_const_i32 invalid_const_i8 : Bytes → EvalError
  expected_i32 expected_pointer : EvalError
  operand_count : Opcode → ℕ → ℕ → EvalError
  const_i32_operand callee_missing : EvalError
  uninitialized_load : ℕ → EvalError
  division_by_zero modulo_by_zero : EvalError
  unsupported_opcode : Opcode → EvalError
  -- The model's own: the fuel ran out.
  out_of_fuel : EvalError

abbrev pub Result : Type 0 → Type 0
Result A = Outcome EvalError A

-- A name's value, or else the token read as a decimal `int32`.
unfoldable pub value_or_number : Bytes → Option Value → Result Value
value_or_number token (some v) = ok v
value_or_number token none = do
  n ← found (parse_int 32 token) (EvalError.unknown_value token)
  ok (Value.i32 (of_parsed n))

-- `evalFrame.resolveValue`.
unfoldable pub resolve_value : EvalFrame → Bytes → Result Value
unfolding value_or_number
resolve_value frame raw =
    let token = trim_space raw in value_or_number token (lookup token frame.values)

abbrev pub as_i32 : Value → Result ℕ
as_i32 (Value.i32 n) = ok n
as_i32 (Value.ptr _) = err EvalError.expected_i32

abbrev pub as_ptr : Value → Result ℕ
as_ptr (Value.ptr p) = ok p
as_ptr (Value.i32 _) = err EvalError.expected_pointer

-- `evalFrame.resolveI32`.
unfoldable pub resolve_i32 : EvalFrame → Bytes → Result ℕ
unfolding resolve_value
resolve_i32 frame token = do v ← resolve_value frame token; as_i32 v

-- `evalFrame.resolvePtr`.
unfoldable pub resolve_ptr : EvalFrame → Bytes → Result ℕ
unfolding resolve_value
resolve_ptr frame token = do v ← resolve_value frame token; as_ptr v

-- The parameters' values; the caller has seen that there are as many arguments.
unfoldable pub bind_parameters : List Parameter → List Value → Map Bytes Value → Map Bytes Value
bind_parameters (p ∷ ps) (a ∷ args) values = bind_parameters ps args (assign p.name a values)
bind_parameters _ _ values = values

abbrev pub add_label : InstructionKind → Bytes → ℕ → Map Bytes ℕ → Map Bytes ℕ
add_label InstructionKind.label name i labels = assign name i labels
add_label _ name i labels = labels

-- The labels' indices, from index `i`.
unfoldable pub collect_labels : ℕ → List Instruction → Map Bytes ℕ → Map Bytes ℕ
collect_labels i [] labels = labels
collect_labels i (inst ∷ insts) labels =
    collect_labels (i + 1) insts (add_label inst.kind inst.label i labels)

-- The frame that `evalCall` starts with.
unfoldable pub initial_frame : Function → List Value → EvalFrame
unfolding bind_parameters collect_labels
initial_frame fn args = record {
  values = bind_parameters fn.parameters args [];
  memory = [];
  next_addr = 0;
  labels = collect_labels 0 fn.instructions [];
}

unfoldable pub cell_value : ℕ → Option MemoryCell → Result Value
cell_value p none = err (EvalError.uninitialized_load p)
cell_value p (some cell) =
    if cell.initialized then ok cell.value else err (EvalError.uninitialized_load p)

-- `cell, ok := frame.memory[ptr]; !ok || !cell.initialized`.
unfoldable pub read_cell : EvalFrame → ℕ → Result Value
unfolding cell_value
read_cell frame p = cell_value p (lookup p frame.memory)

unfoldable pub write_cell : EvalFrame → ℕ → Value → EvalFrame
write_cell frame p v = record frame {
  memory = assign p (record { value = v; initialized = true }) frame.memory;
}

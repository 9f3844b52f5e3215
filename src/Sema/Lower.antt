-- ===== src/Sema/Lower.antt =====
-- internal/sema/lower.go: `lowerFunction`.
mod Names
pub mod Bodies
use wihajster.Common.{
  ℕ, Bool, true, false, not, ◌&&◌, ◌||◌, List, [], ◌∷◌, ◌++◌, Option, none, some, if◌then◌else◌,
}
use wihajster.Common.Bytes.{Bytes, codes}
use wihajster.Common.Maps.{Map, bytes_key, bytes_eq, lookup, exists, assign}
use wihajster.Common.Outcome
use wihajster.Common.Outcome.{Outcome, ok, err, check}
use wihajster.Parser.Ast.{
  TypeSpecifier, FunctionParameter, FunctionDefinition, FunctionPrototype, TranslationUnit,
  Declaration,
}
use wihajster.Tac.Types.{Opcode, Function, Module, Parameter, no_operand}
use wihajster.Tac.Operands.{immediate, param}
use wihajster.Tac.Builder
use wihajster.Sema.Types.{
  Message, SemaError, FunctionSignature, new_error, unsupported_error, lower_type,
  lower_object_type, signature_for_function, same_signature,
}
use wihajster.Sema.Lowerer.{
  Lowerer, Lowering, ◌>>=◌, ◌>>◌, pure, fail, lift, emit, instruction, void_instruction, push_scope,
  pop_scope, set_local_slot, declare_local,
}
use wihajster.Sema.Statements.{lower_block_statements}

abbrev pub percent : Bytes → Bytes
percent name = codes "%" ++ name

abbrev add_parameter : Bytes → Bytes → Function → Function
add_parameter name typ fn = record fn {
  parameters = fn.parameters ++ (record { name = percent name; type_name = typ } ∷ []);
}

-- The loop of `lowerFunction` over the parameters: each has a slot, to which it is stored.
unfoldable pub lower_parameters : List FunctionParameter → Lowering (Unit {0})
lower_parameters [] = pure tt
lower_parameters (p ∷ ps) = do
  typ ← lift (lower_object_type p.token p.type_name)
  declare_local p.token p.name typ
  emit (add_parameter p.name typ)
  slot ← instruction Opcode.alloca (immediate typ ∷ [])
  set_local_slot p.name slot.text
  void_instruction Opcode.store (slot ∷ param (percent p.name) ∷ [])
  lower_parameters ps

-- The end of a function that can be reached: `pfn.ReturnType.Specifier` decides.
abbrev close_function : FunctionDefinition → Bool → TypeSpecifier → Lowering (Unit {0})
close_function pfn false spec = pure tt
close_function pfn true TypeSpecifier.void = emit (Builder.add_ret no_operand)
close_function pfn true _ = fail pfn.token (Message.no_return pfn.name)

lower_body : FunctionDefinition → Lowering (Unit {0})
unfolding lower_parameters
lower_body pfn = do
  push_scope
  lower_parameters pfn.parameters
  reachable ← lower_block_statements pfn.body
  close_function pfn reachable pfn.return_type.specifier
  pop_scope

-- The state at the start of `lowerFunction`. No return type has the empty name, so the first test
-- of the source is left out.
abbrev pub initial_lowerer : FunctionDefinition → Map Bytes FunctionSignature → Lowerer
initial_lowerer pfn functions = record {
  fn = record {
    name = codes "@" ++ pfn.name;
    parameters = [];
    return_type = lower_type pfn.return_type;
    instructions = [];
    next_temp_id = 0;
  };
  next_label_id = 0;
  return_type = lower_type pfn.return_type;
  functions = functions;
  scopes = [];
}

-- `lowerFunction`.
unfoldable pub lower_function :
    FunctionDefinition → Map Bytes FunctionSignature → Outcome SemaError Function
unfolding lower_body
lower_function pfn functions = elim (lower_body pfn (initial_lowerer pfn functions)) [
  | ok (_, l) ↦ ok l.fn
  | err e ↦ err e
]

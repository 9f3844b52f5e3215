-- ===== src/Sema/Lowerer.antt =====
-- internal/sema/lower.go: the state of the lowering, and the methods that write to it. The function
-- under construction, which the source shares by a pointer, is a field of the state.
use wihajster.Common.{
  ℕ, ◌+◌, Bool, true, false, List, [], ◌∷◌, ◌++◌, Option, none, some, if◌then◌else◌,
}
use wihajster.Common.Bytes.{Bytes, codes, decimal}
use wihajster.Common.Maps.{Map, bytes_key, lookup, exists, assign}
use wihajster.Common.Outcome.{Outcome, ok, err}
use wihajster.Lexer.Token.{Token}
use wihajster.Tac.Types.{OperandKind, Opcode, Operand, Function, same_kind}
use wihajster.Tac.Builder
use wihajster.Sema.Types.{Message, SemaError, FunctionSignature, new_error}

pub record VariableSymbol : Type 0 where
  pub type_name : Bytes
  pub slot : Bytes

abbrev pub Scope : Type 0
Scope = Map Bytes VariableSymbol

pub record TypedValue : Type 0 where
  pub value : Operand
  pub type_name : Bytes

-- `lowerer`; the innermost scope stands first.
pub record Lowerer : Type 0 where
  pub fn : Function
  pub next_label_id : ℕ
  pub return_type : Bytes
  pub functions : Map Bytes FunctionSignature
  pub scopes : List Scope

-- A method that may fail. After an error nothing reads the state.
abbrev pub Lowering : Type 0 → Type 0
Lowering A = Lowerer → Outcome SemaError (A × Lowerer)

infixl 5 ◌>>=◌ ◌>>◌
unfoldable pub ◌>>=◌ : {A B : Type 0} → Lowering A → (A → Lowering B) → Lowering B
◌>>=◌ m f l = elim (m l) [ ok (a, l') ↦ f a l' | err e ↦ err e ]

abbrev pub ◌>>◌ : {B : Type 0} → Lowering (Unit {0}) → Lowering B → Lowering B
m >> k = m >>= λ _. k

unfoldable pub pure : {A : Type 0} → A → Lowering A
pure a l = ok (a, l)

-- `return newError(tok, message)`.
unfoldable pub fail : {A : Type 0} → Token → Message → Lowering A
unfolding new_error
fail tok m l = err (new_error tok m)

-- `if test { return newError(tok, message) }`.
unfoldable pub fail_if : Bool → Token → Message → Lowering (Unit {0})
unfolding fail pure
fail_if true tok m = fail tok m
fail_if false tok m = pure tt

-- What can be read without a write, or computed with an error.
unfoldable pub lift : {A : Type 0} → Outcome SemaError A → Lowering A
lift r l = elim r [ ok a ↦ ok (a, l) | err e ↦ err e ]

unfoldable pub found : {A : Type 0} → Option A → Token → Message → Lowering A
unfolding pure fail
found (some a) tok m = pure a
found none tok m = fail tok m

unfoldable pub get : Lowering Lowerer
get l = ok (l, l)

-- A method of `l.fn`, with and without a result.
unfoldable pub emit : (Function → Function) → Lowering (Unit {0})
emit f l = ok (tt, record l { fn = f l.fn })

unfoldable pub emit_value : (Function → Operand × Function) → Lowering Operand
emit_value f l = let (o, fn') = f l.fn in ok (o, record l { fn = fn' })

-- `l.fn.AddInstruction` and `l.fn.AddVoidInstruction`.
abbrev pub instruction : Opcode → List Operand → Lowering Operand
instruction op os = emit_value (Builder.add_instruction op os)

abbrev pub void_instruction : Opcode → List Operand → Lowering (Unit {0})
void_instruction op os = emit (Builder.add_void_instruction op os)

-- `pushScope`.
unfoldable pub push_scope : Lowering (Unit {0})
push_scope l = ok (tt, record l { scopes = [] ∷ l.scopes })

abbrev pub outer_scopes : List Scope → List Scope
outer_scopes [] = []
outer_scopes (_ ∷ scopes) = scopes

-- `popScope`; each call stands behind a `pushScope`.
unfoldable pub pop_scope : Lowering (Unit {0})
pop_scope l = ok (tt, record l { scopes = outer_scopes l.scopes })

-- `currentScope`; there is one from the start of a function to its end.
abbrev pub current_scope : List Scope → Scope
current_scope [] = []
current_scope (scope ∷ _) = scope

abbrev pub with_current_scope : Scope → List Scope → List Scope
with_current_scope scope [] = scope ∷ []
with_current_scope scope (_ ∷ scopes) = scope ∷ scopes

-- The symbol of a name in a scope, or `variableSymbol{}`.
abbrev pub symbol_or_zero : Option VariableSymbol → VariableSymbol
symbol_or_zero (some sym) = sym
symbol_or_zero none = record { type_name = []; slot = [] }

-- `setLocalSlot`.
unfoldable pub set_local_slot : Bytes → Bytes → Lowering (Unit {0})
set_local_slot name slot l =
    let scope = current_scope l.scopes in
    let sym = symbol_or_zero (lookup name scope) in
    ok (
      tt,
      record l {
        scopes = with_current_scope (assign name (record sym { slot = slot }) scope) l.scopes;
      },
    )

-- `declareLocal`.
unfoldable pub declare_local : Token → Bytes → Bytes → Lowering (Unit {0})
unfolding fail
declare_local tok name typ l =
    let scope = current_scope l.scopes in
    if exists name scope
    then fail tok (Message.redeclared name) l
    else ok (
      tt,
      record l {
        scopes =
            with_current_scope (assign name (record { type_name = typ; slot = [] }) scope) l.scopes;
      },
    )

-- `resolveVariable`: the innermost scope that has the name.
unfoldable pub resolve_variable : Bytes → List Scope → Option VariableSymbol
resolve_variable name [] = none
resolve_variable name (scope ∷ scopes) = elim (lookup name scope) [
  | some sym ↦ some sym
  | none ↦ resolve_variable name scopes
]

-- `newLabel`.
unfoldable pub label_name : ℕ → Bytes
label_name n = codes ".L" ++ decimal n

unfoldable pub new_label : Lowering Bytes
unfolding label_name
new_label l = ok (label_name l.next_label_id, record l { next_label_id = l.next_label_id + 1 })

-- `loadAddress`.
unfoldable pub load_address : Operand → Lowering Operand
load_address addr =
    if same_kind addr.kind OperandKind.stack_slot_pointer
    then instruction Opcode.load (addr ∷ [])
    else instruction Opcode.load_indirect (addr ∷ [])

-- `storeAddress`.
unfoldable pub store_address : Operand → Operand → Lowering (Unit {0})
store_address addr value =
    if same_kind addr.kind OperandKind.stack_slot_pointer
    then void_instruction Opcode.store (addr ∷ value ∷ [])
    else void_instruction Opcode.store_indirect (addr ∷ value ∷ [])

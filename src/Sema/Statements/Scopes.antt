-- ===== src/Sema/Statements/Scopes.antt =====
-- The rules of `Emits` for the methods on scopes, and for local declarations.
use mathlib.Core.List.{append-nil}
use wihajster.Common.{
  not, List, [], ◌∷◌, Option, none, some, ◌≡◌, refl, sym, All, inl, inr, Bool-cases, arith,
}
use wihajster.Common.Bytes.{Bytes}
use wihajster.Common.Maps.{bytes_eq, bytes_key, exists, OnSome, lookup-AllValues}
use wihajster.Common.Outcome.{Outcome, Post, returns, raises}
use wihajster.Lexer.Token.{Token}
use wihajster.Parser.Ast.{Expression, Declaration, TypeName}
use wihajster.Tac.Types.{OperandKind, Operand, Opcode}
use wihajster.Tac.Verify.{verify_instruction}
use wihajster.Sema.Types.{SemaError, void, lower_type, lower_object_type}
use wihajster.Sema.Lowerer.{
  VariableSymbol, Scope, Lowerer, pure, lift, push_scope, pop_scope, outer_scopes, current_scope,
  with_current_scope, symbol_or_zero, set_local_slot, declare_local, void_instruction,
}
use wihajster.Sema.Shape.{Shape-nil}
use wihajster.Sema.Emits.{
  NonVoid, ObjectScope, Env, Emits, Gives, Any, Ran, Gives-bind, Emits-pure, Emits-fail,
  Gives-fail_if,
}
use wihajster.Sema.EmitsOps.{IsSource, IsObject-IsSource, Gives-alloca, Gives-void_instruction}
use wihajster.Sema.Expressions.Code.{NonVoid_of_eq}
use wihajster.Sema.Expressions.Calls.{lower_expr-Gives}
use wihajster.Sema.Statements.{lower_initializer, lower_local_declaration}

Ran-scopes :
    (l : Lowerer) (scopes : List Scope)
    → Env l
    → All ObjectScope scopes
    → Ran (λ _ _. Unit) l (tt {0}, record l { scopes = scopes })
Ran-scopes l scopes env h = (
  [],
  record {
    appended = sym (append-nil l.fn.instructions);
    shape = Shape-nil l.next_label_id;
    env = record { scopes_ok = h; functions_ok = env.functions_ok };
  },
  tt,
)

pub push_scope-Gives : Gives Any push_scope
unfolding push_scope
push_scope-Gives = record { runs = λ l env. returns (Ran-scopes l _ env (tt, env.scopes_ok)) }

outer_scopes-All :
    (scopes : List Scope) → All ObjectScope scopes → All ObjectScope (outer_scopes scopes)
outer_scopes-All [] h = tt
outer_scopes-All (s ∷ scopes) (h, hs) = hs

pub pop_scope-Emits : Emits (λ _ code. code ≡ []) pop_scope
unfolding pop_scope Ran-scopes
pop_scope-Emits = record {
  runs =
      λ l env. returns ([], (Ran-scopes l _ env (outer_scopes-All l.scopes env.scopes_ok)).1, refl);
}

current_scope-ObjectScope :
    (scopes : List Scope) → All ObjectScope scopes → ObjectScope (current_scope scopes)
current_scope-ObjectScope [] h = tt
current_scope-ObjectScope (s ∷ scopes) (h, hs) = h

with_current_scope-All :
    (scope : Scope) (scopes : List Scope)
    → ObjectScope scope
    → All ObjectScope scopes
    → All ObjectScope (with_current_scope scope scopes)
with_current_scope-All scope [] h hs = (h, tt)
with_current_scope-All scope (s ∷ scopes) h (k, hs) = (h, hs)

symbol_or_zero-NonVoid :
    (o : Option VariableSymbol)
    → OnSome (λ (sym : VariableSymbol). NonVoid sym.type_name) o
    → NonVoid (symbol_or_zero o).type_name
unfolding bytes_eq
symbol_or_zero-NonVoid none h = refl
symbol_or_zero-NonVoid (some s) h = h

pub set_local_slot-Gives : (name slot : Bytes) → Gives Any (set_local_slot name slot)
unfolding set_local_slot
set_local_slot-Gives name slot = record {
  runs = λ l env.
      let scope_ok = current_scope-ObjectScope l.scopes env.scopes_ok in
      returns (
        Ran-scopes l _ env (
          with_current_scope-All _ l.scopes
            (
              symbol_or_zero-NonVoid _ (
                  lookup-AllValues (λ (sym : VariableSymbol). NonVoid sym.type_name) name
                    (current_scope l.scopes) scope_ok),
              scope_ok,
            )
            env.scopes_ok));
}

pub declare_local-Gives :
    (tok : Token) (name typ : Bytes) → NonVoid typ → Gives Any (declare_local tok name typ)
unfolding declare_local
declare_local-Gives tok name typ h = record {
  runs = λ l env. elim (Bool-cases (exists name (current_scope l.scopes))) [
    | inl e ↦ rw e ((Emits-fail tok _).runs l env)
    | inr e ↦ rw e (
        returns (
          Ran-scopes l _ env (
            with_current_scope-All _ l.scopes (h, current_scope-ObjectScope l.scopes env.scopes_ok)
              env.scopes_ok)))
  ];
}

lift-Gives :
    {A : Type 0} {P : A → Type 0} {r : Outcome SemaError A} → Post P Any r → Gives P (lift r)
unfolding lift pure
lift-Gives (returns h) = Emits-pure _ h
lift-Gives (raises h) = record { runs = λ l env. raises tt }

pub object_type-Gives :
    (tok : Token) (t : TypeName) → Gives NonVoid (lift (lower_object_type tok t))
unfolding lower_object_type
object_type-Gives tok t = elim (Bool-cases (bytes_eq (lower_type t) void)) [
  | inl e ↦ rw e (lift-Gives (raises tt))
  | inr e ↦ rw e (lift-Gives (returns e))
]

pub store_slot :
    (slot value : Operand)
    → slot.kind ≡ OperandKind.stack_slot_pointer
    → IsSource value.kind
    → Gives Any (void_instruction Opcode.store (slot ∷ value ∷ []))
unfolding verify_instruction
store_slot slot value e h =
    Gives-void_instruction Opcode.store (slot ∷ value ∷ []) (ground (arith, e))

lower_initializer-Gives :
    (decl : Declaration) (typ : Bytes) (slot : Operand) (init : Expression)
    → NonVoid typ
    → slot.kind ≡ OperandKind.stack_slot_pointer
    → Gives Any (lower_initializer decl typ slot init)
unfolding lower_initializer
lower_initializer-Gives decl typ slot Expression.nil nv e = Emits-pure tt tt
lower_initializer-Gives decl typ slot init nv e = Gives-bind (lower_expr-Gives init) λ v good.
    Gives-bind (Gives-fail_if (not (bytes_eq v.type_name typ)) decl.token _)
      λ _ n. store_slot slot v.value e (IsObject-IsSource _ (good (NonVoid_of_eq _ _ n nv)))

pub lower_local_declaration-Gives : (decl : Declaration) → Gives Any (lower_local_declaration decl)
unfolding lower_local_declaration
lower_local_declaration-Gives decl =
    Gives-bind (object_type-Gives decl.token decl.type_name) λ typ nv.
      Gives-bind (declare_local-Gives decl.token decl.name typ nv) λ _ _.
        Gives-bind (Gives-alloca typ) λ slot e.
          Gives-bind (set_local_slot-Gives decl.name slot.text)
            λ _ _. lower_initializer-Gives decl typ slot decl.initializer nv e

-- ===== src/Sema/Expressions/Calls.antt =====
-- internal/sema/lower.go: the code of a call and of an address, and of every expression.
use wihajster.Common.{
  ℕ, ◌+◌, true, not, List, [], ◌∷◌, ◌++◌, length, some, ◌==◌, ◌≡◌, refl, sym, arith, All, inl, inr,
  ◌⊎◌, Bool-cases,
}
use wihajster.Common.Bytes.{Bytes, codes}
use wihajster.Common.Maps.{Map, bytes_eq, bytes_eq_iff, bytes_key, lookup, OnSome}
use wihajster.Common.Outcome.{ok, Post}
use wihajster.Lexer.Token.{Token, TokenType}
use wihajster.Parser.Ast.{Expression, Expressions}
use wihajster.Tac.Types.{OperandKind, Operand, value_kind}
use wihajster.Tac.Operands.{function_symbol}
use wihajster.Tac.Code.{Verified}
use wihajster.Tac.Builder
use wihajster.Tac.Builder.{with_destination, call_instruction}
use wihajster.Tac.Verify.{verify_instruction, verify_call_args, is_function_symbol}
use wihajster.Sema.Types.{FunctionSignature, no_token, void}
use wihajster.Sema.Lowerer.{TypedValue, Lowerer, Lowering, emit, emit_value}
use wihajster.Sema.Emits.{
  NonVoid, NonEmpty, GoodSignatures, Env, Gives, Any, Ran, Gives-bind, Gives-weaken, Emits-pure,
  Gives-fail_if, Gives-found, Gives-get,
}
use wihajster.Sema.EmitsOps.{IsObject, Shape-op, Gives-emit, Gives-emit_value}
use wihajster.Sema.Expressions.{
  emit_call, lower_argument, lower_call, lower_target, no_target, lower_expr, lower_address,
  lower_args,
}
use wihajster.Sema.Expressions.Code.{
  GoodValue, GoodAddress, unsupported-Emits, NonVoid_of_eq, lower_integer-Gives,
  lower_character-Gives, variable_address-Gives, lower_identifier-Gives, pointer_target-Gives,
  lower_unary-Gives, lower_binary-Gives, lower_assignment-Gives,
}

value_kind_lem : (k : OperandKind) → IsObject k → value_kind k ≡ true
unfolding value_kind
value_kind_lem OperandKind.temp h = refl
value_kind_lem OperandKind.stack_slot_pointer h = refl
value_kind_lem _ h = absurd h

verify_call_args_lem :
    (i : ℕ) (args : List Operand)
    → All (λ (o : Operand). IsObject o.kind) args
    → verify_call_args i args ≡ ok tt
unfolding verify_call_args
verify_call_args_lem i [] h = refl
verify_call_args_lem i (a ∷ args) (h, hs) =
    rw (value_kind_lem a.kind h) (verify_call_args_lem (i + 1) args hs)

is_function_symbol_lem :
    (name : Bytes) → NonEmpty name → is_function_symbol (codes "@" ++ name) ≡ true
unfolding is_function_symbol
is_function_symbol_lem [] h = absurd h
is_function_symbol_lem (c ∷ name) h = ground arith

signature-NonEmpty :
    (name : Bytes) (sig : FunctionSignature) (sigs : Map Bytes FunctionSignature)
    → GoodSignatures sigs
    → lookup name sigs ≡ some sig
    → NonEmpty name
unfolding lookup
signature-NonEmpty name sig [] h e = cc
signature-NonEmpty name sig ((n, s) ∷ sigs) (p, q, h) e = elim (Bool-cases (bytes_eq n name)) [
  | inl same ↦ rw (sym ((bytes_eq_iff n name).0 same)) p
  | inr other ↦ signature-NonEmpty name sig sigs h (rw other at e)
]

Verified-call :
    (name : Bytes) (args : List Operand)
    → NonEmpty name
    → All (λ (o : Operand). IsObject o.kind) args
    → Verified (call_instruction (function_symbol (codes "@" ++ name)) args)
unfolding verify_instruction
Verified-call name args n h = rw (is_function_symbol_lem name n, verify_call_args_lem 0 args h) refl

Verified-value_call :
    (name : Bytes) (args : List Operand) (dst : Operand)
    → NonEmpty name
    → All (λ (o : Operand). IsObject o.kind) args
    → dst.kind ≡ OperandKind.temp
    → Verified (with_destination dst (call_instruction (function_symbol (codes "@" ++ name)) args))
unfolding verify_instruction
Verified-value_call name args dst n h e =
    rw (is_function_symbol_lem name n, verify_call_args_lem 0 args h, e) refl

Gives-call_void :
    (name : Bytes) (args : List Operand)
    → NonEmpty name
    → All (λ (o : Operand). IsObject o.kind) args
    → Gives Any (emit (Builder.add_call_void (function_symbol (codes "@" ++ name)) args))
unfolding Builder.add_call_void
Gives-call_void name args n h = Gives-emit (record {
  inst = λ fn. call_instruction (function_symbol (codes "@" ++ name)) args;
  instructions_eq = λ fn. refl;
  shape = λ k fn. Shape-op k _ refl (Verified-call name args n h);
})

Gives-call :
    (name : Bytes) (args : List Operand)
    → NonEmpty name
    → All (λ (o : Operand). IsObject o.kind) args
    → Gives
        (λ o. IsObject o.kind)
        (emit_value (Builder.add_call (function_symbol (codes "@" ++ name)) args))
unfolding Builder.add_call
Gives-call name args n h =
    Gives-emit_value (λ o. IsObject o.kind)
      (record {
        inst = λ fn.
            with_destination (Builder.add_call (function_symbol (codes "@" ++ name)) args fn).0
              (call_instruction (function_symbol (codes "@" ++ name)) args);
        instructions_eq = λ fn. refl;
        shape = λ k fn. Shape-op k _ refl (Verified-value_call name args _ n h refl);
      })
      (λ fn. tt)

void_eq : bytes_eq void void ≡ true
unfolding bytes_eq
void_eq = refl

emit_call-Gives :
    (name : Bytes) (sig : FunctionSignature) (args : List Operand)
    → NonEmpty name
    → All (λ (o : Operand). IsObject o.kind) args
    → Gives GoodValue (emit_call name sig args)
unfolding emit_call
emit_call-Gives name sig args n h = elim (Bool-cases (bytes_eq sig.return_type void)) [
  | inl e ↦
      rw e (Gives-bind (Gives-call_void name args n h) λ _ _. Emits-pure _ (λ nv. cc (nv, void_eq)))
  | inr e ↦ rw e (Gives-bind (Gives-call name args n h) λ o k. Emits-pure _ (λ _. k))
]

signature_params :
    (name : Bytes) (sigs : Map Bytes FunctionSignature)
    → GoodSignatures sigs
    → OnSome (λ (sig : FunctionSignature). All NonVoid sig.params) (lookup name sigs)
unfolding lookup
signature_params name [] h = tt
signature_params name ((n, s) ∷ sigs) (p, q, h) = elim (Bool-cases (bytes_eq n name)) [
  | inl same ↦ rw same q
  | inr other ↦ rw other (signature_params name sigs h)
]

lower_call-Gives :
    (tok : Token) (callee : Expression) (count : ℕ)
    (lower_args : Bytes → List Bytes → Lowering (List Operand))
    → ((name : Bytes) (types : List Bytes)
        → All NonVoid types
        → Gives (λ os. All (λ (o : Operand). IsObject o.kind) os) (lower_args name types))
    → Gives GoodValue (lower_call tok callee count lower_args)
unfolding lower_call
lower_call-Gives tok (Expression.identifier callee_tok name) count lower_args h =
    Gives-bind Gives-get λ l env.
      Gives-bind
        (Gives-found (λ sig. NonEmpty name × All NonVoid sig.params) (lookup name l.functions)
          callee_tok _
          (λ sig e. (
            signature-NonEmpty name sig l.functions env.functions_ok e,
            rw e at (signature_params name l.functions env.functions_ok),
          )))
        λ sig (n, p).
          Gives-bind (Gives-fail_if (not (count == length sig.params)) tok _)
            λ _ _. Gives-bind (h name sig.params p) λ args k. emit_call-Gives name sig args n k
lower_call-Gives tok _ count lower_args h = unsupported-Emits tok _

lower_argument-Gives :
    (tok : Token) (name : Bytes) (i : ℕ) (expected : Bytes) (m : Lowering TypedValue)
    → NonVoid expected
    → Gives GoodValue m
    → Gives (λ o. IsObject o.kind) (lower_argument tok name i expected m)
unfolding lower_argument
lower_argument-Gives tok name i expected m nv h = Gives-bind h λ arg good.
    Gives-bind (Gives-fail_if (not (bytes_eq arg.type_name expected)) tok _)
      λ _ e. Emits-pure _ (good (NonVoid_of_eq _ _ e nv))

lower_target-Gives :
    (tok : Token) (op : TokenType) (m : Lowering TypedValue)
    → Gives GoodValue m
    → Gives GoodAddress (lower_target tok op m)
unfolding lower_target no_target
lower_target-Gives tok TokenType.star m h =
    Gives-bind h λ ptr good. pointer_target-Gives tok ptr good
lower_target-Gives tok _ m h = unsupported-Emits no_token _

mutual
  unfolding lower_expr lower_address lower_args lower_call

  pub lower_expr-Gives : (e : Expression) → Gives GoodValue (lower_expr e)
  lower_expr-Gives Expression.nil = unsupported-Emits no_token _
  lower_expr-Gives (Expression.integer_literal tok raw) = lower_integer-Gives tok raw
  lower_expr-Gives (Expression.character_literal tok raw) = lower_character-Gives tok raw
  lower_expr-Gives (Expression.identifier tok name) = lower_identifier-Gives tok name
  lower_expr-Gives (Expression.unary tok op e) =
      lower_unary-Gives tok op (lower_expr e) (lower_address e) (lower_expr-Gives e)
        (lower_address-Gives e)
  lower_expr-Gives (Expression.binary tok op a b) =
      lower_binary-Gives tok op (lower_expr a) (lower_expr b) (lower_expr-Gives a)
        (lower_expr-Gives b)
  lower_expr-Gives (Expression.assignment tok a b) =
      lower_assignment-Gives tok (lower_address a) (lower_expr b) (lower_address-Gives a)
        (lower_expr-Gives b)
  lower_expr-Gives (Expression.call tok callee args) =
      lower_call-Gives tok callee _ _ (λ name types h. lower_args-Gives tok name 0 args types h)

  lower_address-Gives : (e : Expression) → Gives GoodAddress (lower_address e)
  lower_address-Gives (Expression.identifier tok name) =
      Gives-weaken (variable_address-Gives tok name) (λ (addr, typ) (h, k). (rw h tt, k))
  lower_address-Gives (Expression.unary tok op e) =
      lower_target-Gives tok op (lower_expr e) (lower_expr-Gives e)
  lower_address-Gives _ = unsupported-Emits no_token _

  lower_args-Gives :
      (tok : Token) (name : Bytes) (i : ℕ) (es : Expressions) (types : List Bytes)
      → All NonVoid types
      → Gives (λ os. All (λ (o : Operand). IsObject o.kind) os) (lower_args tok name i es types)
  lower_args-Gives tok name i (Expressions.arg e es) (typ ∷ types) (h, hs) =
      Gives-bind (lower_argument-Gives tok name i typ (lower_expr e) h (lower_expr-Gives e)) λ o ho.
        Gives-bind (lower_args-Gives tok name (i + 1) es types hs) λ os hos. Emits-pure _ (ho, hos)
  lower_args-Gives tok name i _ _ h = Emits-pure _ tt

-- The type is `void`, or the value is a temporary or a slot.
abbrev pub VoidOrObject : TypedValue → Type 0
VoidOrObject v = (v.type_name ≡ void) ⊎ IsObject v.value.kind

GoodValue-VoidOrObject : (v : TypedValue) → GoodValue v → VoidOrObject v
GoodValue-VoidOrObject v h = elim (Bool-cases (bytes_eq v.type_name void)) [
  | inl e ↦ inl ((bytes_eq_iff v.type_name void).0 e)
  | inr e ↦ inr (h e)
]

-- `lowerExpr`, from a state whose variables have object types and whose functions have names and
-- parameters of object types, fails or appends verified code without labels out of its counter's
-- range, keeps such a state, and gives a value of type `void` or one that is in a temporary or a
-- slot.
pub lower_expr-Ran :
    (e : Expression) (l : Lowerer)
    → Env l
    → Post (Ran (λ v _. VoidOrObject v) l) Any (lower_expr e l)
lower_expr-Ran e l env = (Gives-weaken (lower_expr-Gives e) GoodValue-VoidOrObject).runs l env

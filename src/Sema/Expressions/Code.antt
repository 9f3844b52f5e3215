-- ===== src/Sema/Expressions/Code.antt =====
-- internal/sema/lower.go: the code of the expressions that are no calls, from that of their parts.
use wihajster.Common.{
  Bool, false, not, ◌||◌, List, [], ◌∷◌, none, some, ◌≡◌, refl, ap, sym, arith, All, inl, inr,
  Bool-cases, Option-cases,
}
use wihajster.Common.Bytes.{Bytes, codes, parse_int, has_suffix}
use wihajster.Common.Maps.{bytes_eq, bytes_eq_iff, bytes_key, lookup, OnSome, lookup-AllValues}
use wihajster.Lexer.Token.{Token, TokenType}
use wihajster.Tac.Types.{OperandKind, Opcode, Operand}
use wihajster.Tac.Operands.{immediate}
use wihajster.Tac.Verify.{verify_instruction}
use wihajster.Sema.Types.{void, pointee_type}
use wihajster.Sema.Literals.{decode_character_literal, binary_opcode}
use wihajster.Sema.Lowerer.{VariableSymbol, Scope, TypedValue, Lowering, resolve_variable}
use wihajster.Sema.Emits.{
  NonVoid, ObjectScope, Gives, Any, Gives-bind, Emits-pure, Emits-fail, Gives-fail_if, Gives-found,
  Gives-get,
}
use wihajster.Sema.EmitsOps.{
  IsObject, IsObject-IsSource, IsBinary, Verified-binary, Gives-instruction, Gives-load_address,
  Gives-store_address,
}
use wihajster.Sema.Expressions.{
  Address, lower_integer, lower_character, variable_address, lower_identifier, pointer_target,
  lower_arithmetic, lower_operator, lower_unary, lower_logical, lower_comparison, emit_binary,
  lower_binary, lower_assignment, unsupported,
}

-- A value whose type is not void is an object.
abbrev pub GoodValue : TypedValue → Type 0
GoodValue v = NonVoid v.type_name → IsObject v.value.kind

abbrev pub GoodAddress : Address → Type 0
GoodAddress (addr, typ) = IsObject addr.kind × NonVoid typ

pub unsupported-Emits :
    {A : Type 0} {Q : A → Type 0} (tok : Token) (feature : Bytes)
    → Gives Q (unsupported tok feature)
unfolding unsupported
unsupported-Emits tok feature = Emits-fail tok _

or-false_left : (a b : Bool) → (a || b) ≡ false → a ≡ false
or-false_left a b h = ground arith

pub or-false_right : (a b : Bool) → (a || b) ≡ false → b ≡ false
or-false_right a b h = ground arith

-- A type that is equal to an object type is one.
pub NonVoid_of_eq : (a b : Bytes) → not (bytes_eq a b) ≡ false → NonVoid b → NonVoid a
NonVoid_of_eq a b e h = elim (Bool-cases (bytes_eq a b)) [
  | inl same ↦ rw ((bytes_eq_iff a b).0 same) h
  | inr other ↦ ground arith
]

pub lower_integer-Gives : (tok : Token) (raw : Bytes) → Gives GoodValue (lower_integer tok raw)
unfolding lower_integer verify_instruction
lower_integer-Gives tok raw =
    Gives-bind (Gives-found Any (parse_int 32 raw) tok _ (λ _ _. tt)) λ _ _.
      Gives-bind (Gives-instruction Opcode.const_i32 _ (λ dst h. refl)) λ o h. Emits-pure _ (λ _. h)

pub lower_character-Gives : (tok : Token) (raw : Bytes) → Gives GoodValue (lower_character tok raw)
unfolding lower_character verify_instruction
lower_character-Gives tok raw =
    Gives-bind (Gives-found Any (decode_character_literal raw) tok _ (λ _ _. tt)) λ _ _.
      Gives-bind (Gives-instruction Opcode.const_i32 _ (λ dst h. refl)) λ o h. Emits-pure _ (λ _. h)

resolve_variable-NonVoid :
    (name : Bytes) (scopes : List Scope)
    → All ObjectScope scopes
    → OnSome (λ (sym : VariableSymbol). NonVoid sym.type_name) (resolve_variable name scopes)
unfolding resolve_variable
resolve_variable-NonVoid name [] h = tt
resolve_variable-NonVoid name (scope ∷ scopes) (h, hs) = elim (Option-cases (lookup name scope)) [
  | inl e ↦ rw (e, resolve_variable) (resolve_variable-NonVoid name scopes hs)
  | inr (sym, e) ↦
      rw (e, resolve_variable)
        (rw e at (lookup-AllValues (λ (sym : VariableSymbol). NonVoid sym.type_name) name scope h))
]

-- The address of a variable is a slot.
abbrev pub IsSlot : Address → Type 0
IsSlot (addr, typ) = (addr.kind ≡ OperandKind.stack_slot_pointer) × NonVoid typ

pub variable_address-Gives : (tok : Token) (name : Bytes) → Gives IsSlot (variable_address tok name)
unfolding variable_address
variable_address-Gives tok name = Gives-bind Gives-get λ l env.
    Gives-bind
      (Gives-found (λ sym. NonVoid sym.type_name) (resolve_variable name l.scopes) tok _
        (λ sym e. rw e at (resolve_variable-NonVoid name l.scopes env.scopes_ok)))
      λ sym h. Emits-pure _ (refl, h)

pub lower_identifier-Gives :
    (tok : Token) (name : Bytes) → Gives GoodValue (lower_identifier tok name)
unfolding lower_identifier verify_instruction
lower_identifier-Gives tok name = Gives-bind (variable_address-Gives tok name) λ (addr, typ) (h, k).
    Gives-bind (Gives-instruction Opcode.load (addr ∷ []) (λ dst d. ground arith))
      λ o h. Emits-pure _ (λ _. h)

-- `void` is no pointer type.
pointee_type-void : pointee_type void ≡ none
unfolding pointee_type has_suffix
pointee_type-void = refl

pointee_type-NonVoid : (typ elem : Bytes) → pointee_type typ ≡ some elem → NonVoid typ
pointee_type-NonVoid typ elem e = elim (Bool-cases (bytes_eq typ void)) [
  | inl v ↦ cc (e, ap pointee_type ((bytes_eq_iff typ void).0 v), pointee_type-void)
  | inr n ↦ n
]

pub pointer_target-Gives :
    (tok : Token) (ptr : TypedValue) → GoodValue ptr → Gives GoodAddress (pointer_target tok ptr)
unfolding pointer_target
pointer_target-Gives tok ptr good =
    Gives-bind
      (Gives-found (λ _. NonVoid ptr.type_name) (pointee_type ptr.type_name) tok _
        (pointee_type-NonVoid ptr.type_name))
      λ elem p.
        Gives-bind (Gives-fail_if (bytes_eq elem void) tok _) λ _ n. Emits-pure _ (good p, n)

lower_arithmetic-Gives :
    (tok : Token) (op : TokenType) (v : TypedValue)
    → IsObject v.value.kind
    → Gives GoodValue (lower_arithmetic tok op v)
unfolding lower_arithmetic verify_instruction
lower_arithmetic-Gives tok TokenType.plus v h = Emits-pure _ (λ _. h)
lower_arithmetic-Gives tok TokenType.minus v h =
    Gives-bind (Gives-instruction Opcode.neg _ (λ dst d. ground arith)) λ o k. Emits-pure _ (λ _. k)
lower_arithmetic-Gives tok TokenType.bang v h =
    Gives-bind (Gives-instruction Opcode.logic_not _ (λ dst d. ground arith))
      λ o k. Emits-pure _ (λ _. k)
lower_arithmetic-Gives tok TokenType.tilde v h =
    Gives-bind (Gives-instruction Opcode.not _ (λ dst d. ground arith)) λ o k. Emits-pure _ (λ _. k)
lower_arithmetic-Gives tok _ v h = unsupported-Emits tok _

lower_operator-Gives :
    (tok : Token) (op : TokenType) (m : Lowering TypedValue)
    → Gives GoodValue m
    → Gives GoodValue (lower_operator tok op m)
unfolding lower_operator
lower_operator-Gives tok op m h = Gives-bind h λ v good.
    Gives-bind (Gives-fail_if (bytes_eq v.type_name void) tok _)
      λ _ n. Gives-bind (Gives-fail_if _ tok _) λ _ _. lower_arithmetic-Gives tok op v (good n)

pub lower_unary-Gives :
    (tok : Token) (op : TokenType) (m : Lowering TypedValue) (a : Lowering Address)
    → Gives GoodValue m
    → Gives GoodAddress a
    → Gives GoodValue (lower_unary tok op m a)
unfolding lower_unary
lower_unary-Gives tok TokenType.star m a h k = Gives-bind h λ ptr good.
    Gives-bind (pointer_target-Gives tok ptr good)
      λ (addr, elem) (o, n). Gives-bind (Gives-load_address addr o) λ r x. Emits-pure _ (λ _. x)
lower_unary-Gives tok TokenType.amp m a h k =
    Gives-bind k λ (addr, elem) (o, n). Emits-pure _ (λ _. o)
lower_unary-Gives tok op m a h k = lower_operator-Gives tok op m h

lower_logical-Gives :
    (op : Opcode) (a b : Operand)
    → IsBinary op
    → IsObject a.kind
    → IsObject b.kind
    → Gives GoodValue (lower_logical op a b)
unfolding lower_logical verify_instruction
lower_logical-Gives op a b e h k =
    Gives-bind
      (Gives-instruction Opcode.ne (a ∷ immediate (codes "0") ∷ []) (λ dst d. ground arith))
      λ x hx.
        Gives-bind
          (Gives-instruction Opcode.ne (b ∷ immediate (codes "0") ∷ []) (λ dst d. ground arith))
          λ y hy.
            Gives-bind
              (Gives-instruction op (x ∷ y ∷ []) (λ dst d.
                Verified-binary op dst x y e d (IsObject-IsSource _ hx) (IsObject-IsSource _ hy)))
              λ o ho. Emits-pure _ (λ _. ho)

lower_comparison-Gives :
    (op : TokenType) (opcode : Opcode) (lhs rhs : TypedValue)
    → IsBinary opcode
    → IsObject lhs.value.kind
    → IsObject rhs.value.kind
    → Gives GoodValue (lower_comparison op opcode lhs rhs)
unfolding lower_comparison
lower_comparison-Gives op opcode lhs rhs e h k =
    Gives-bind
      (Gives-instruction opcode (lhs.value ∷ rhs.value ∷ []) (λ dst d.
        Verified-binary opcode dst lhs.value rhs.value e d (IsObject-IsSource _ h)
          (IsObject-IsSource _ k)))
      λ o ho. Emits-pure _ (λ _. ho)

emit_binary-Gives :
    (tok : Token) (op : TokenType) (lhs rhs : TypedValue)
    → IsObject lhs.value.kind
    → IsObject rhs.value.kind
    → Gives GoodValue (emit_binary tok op (binary_opcode op) lhs rhs)
unfolding emit_binary binary_opcode
emit_binary-Gives tok TokenType.plus lhs rhs h k =
    lower_comparison-Gives TokenType.plus _ lhs rhs tt h k
emit_binary-Gives tok TokenType.minus lhs rhs h k =
    lower_comparison-Gives TokenType.minus _ lhs rhs tt h k
emit_binary-Gives tok TokenType.star lhs rhs h k =
    lower_comparison-Gives TokenType.star _ lhs rhs tt h k
emit_binary-Gives tok TokenType.slash lhs rhs h k =
    lower_comparison-Gives TokenType.slash _ lhs rhs tt h k
emit_binary-Gives tok TokenType.percent lhs rhs h k =
    lower_comparison-Gives TokenType.percent _ lhs rhs tt h k
emit_binary-Gives tok TokenType.amp lhs rhs h k =
    lower_comparison-Gives TokenType.amp _ lhs rhs tt h k
emit_binary-Gives tok TokenType.pipe lhs rhs h k =
    lower_comparison-Gives TokenType.pipe _ lhs rhs tt h k
emit_binary-Gives tok TokenType.caret lhs rhs h k =
    lower_comparison-Gives TokenType.caret _ lhs rhs tt h k
emit_binary-Gives tok TokenType.shift_left lhs rhs h k =
    lower_comparison-Gives TokenType.shift_left _ lhs rhs tt h k
emit_binary-Gives tok TokenType.shift_right lhs rhs h k =
    lower_comparison-Gives TokenType.shift_right _ lhs rhs tt h k
emit_binary-Gives tok TokenType.eq lhs rhs h k =
    lower_comparison-Gives TokenType.eq _ lhs rhs tt h k
emit_binary-Gives tok TokenType.ne lhs rhs h k =
    lower_comparison-Gives TokenType.ne _ lhs rhs tt h k
emit_binary-Gives tok TokenType.lt lhs rhs h k =
    lower_comparison-Gives TokenType.lt _ lhs rhs tt h k
emit_binary-Gives tok TokenType.le lhs rhs h k =
    lower_comparison-Gives TokenType.le _ lhs rhs tt h k
emit_binary-Gives tok TokenType.gt lhs rhs h k =
    lower_comparison-Gives TokenType.gt _ lhs rhs tt h k
emit_binary-Gives tok TokenType.ge lhs rhs h k =
    lower_comparison-Gives TokenType.ge _ lhs rhs tt h k
emit_binary-Gives tok TokenType.and_and lhs rhs h k = lower_logical-Gives _ _ _ tt h k
emit_binary-Gives tok TokenType.or_or lhs rhs h k = lower_logical-Gives _ _ _ tt h k
emit_binary-Gives tok _ lhs rhs h k = unsupported-Emits tok _

pub lower_binary-Gives :
    (tok : Token) (op : TokenType) (m n : Lowering TypedValue)
    → Gives GoodValue m
    → Gives GoodValue n
    → Gives GoodValue (lower_binary tok op m n)
unfolding lower_binary
lower_binary-Gives tok op m n hm hn = Gives-bind hm λ lhs hl. Gives-bind hn λ rhs hr.
    Gives-bind (Gives-fail_if (bytes_eq lhs.type_name void || bytes_eq rhs.type_name void) tok _)
      λ _ e. emit_binary-Gives tok op lhs rhs (hl (or-false_left _ _ e)) (hr (or-false_right _ _ e))

pub lower_assignment-Gives :
    (tok : Token) (m : Lowering Address) (n : Lowering TypedValue)
    → Gives GoodAddress m
    → Gives GoodValue n
    → Gives GoodValue (lower_assignment tok m n)
unfolding lower_assignment
lower_assignment-Gives tok m n hm hn = Gives-bind hm λ (addr, typ) (ha, nv).
    Gives-bind hn λ rhs good.
      Gives-bind (Gives-fail_if (not (bytes_eq rhs.type_name typ)) tok _) λ _ e.
        Gives-bind (Gives-store_address addr rhs.value ha (good (NonVoid_of_eq _ _ e nv)))
          λ _ _. Emits-pure rhs good

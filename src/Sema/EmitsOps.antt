-- ===== src/Sema/EmitsOps.antt =====
-- The rules of `Emits` for the methods that append one plain instruction.
use wihajster.Common.{ℕ, List, [], ◌∷◌, ◌++◌, ◌≡◌, refl, arith, inl, inr, Bool-cases}
use wihajster.Common.Bytes.{Bytes}
use wihajster.Common.Outcome.{returns}
use wihajster.Tac.Types.{
  InstructionKind, Opcode, OperandKind, Operand, Instruction, Function, same_kind,
}
use wihajster.Tac.Operands.{immediate}
use wihajster.Tac.Code.{Verified}
use wihajster.Tac.Builder
use wihajster.Tac.Builder.{operation, with_destination, call_instruction, append_instruction}
use wihajster.Tac.Verify.{verify_instruction}
use wihajster.Sema.Lowerer.{
  emit, emit_value, instruction, void_instruction, load_address, store_address,
}
use wihajster.Sema.Shape.{Shape}
use wihajster.Sema.Emits.{Gives, Any}

-- The operands that hold the value of an expression.
abbrev pub IsObject : OperandKind → Type 0
IsObject OperandKind.temp = Unit
IsObject OperandKind.stack_slot_pointer = Unit
IsObject _ = ⊥

-- An operand that is an object or a constant.
abbrev pub IsSource : OperandKind → Type 0
IsSource OperandKind.temp = Unit
IsSource OperandKind.stack_slot_pointer = Unit
IsSource OperandKind.immediate = Unit
IsSource OperandKind.param = Unit
IsSource _ = ⊥

pub IsObject-IsSource : (k : OperandKind) → IsObject k → IsSource k
IsObject-IsSource OperandKind.temp h = tt
IsObject-IsSource OperandKind.stack_slot_pointer h = tt
IsObject-IsSource _ h = absurd h

pub Shape-op :
    (n : ℕ) (inst : Instruction)
    → inst.kind ≡ InstructionKind.op
    → Verified inst
    → Shape n n (inst ∷ [])
Shape-op n inst e v = record {
  forward = omega arith;
  verified = (v, tt);
  named = (rw e tt, tt);
  labels = λ k. rw e (omega arith, inl (omega arith), inl (omega arith));
}

abbrev pub IsBinary : Opcode → Type 0
IsBinary Opcode.add = Unit
IsBinary Opcode.sub = Unit
IsBinary Opcode.mul = Unit
IsBinary Opcode.div_s = Unit
IsBinary Opcode.mod_s = Unit
IsBinary Opcode.and = Unit
IsBinary Opcode.or = Unit
IsBinary Opcode.xor = Unit
IsBinary Opcode.shl = Unit
IsBinary Opcode.shr_s = Unit
IsBinary Opcode.eq = Unit
IsBinary Opcode.ne = Unit
IsBinary Opcode.lt_s = Unit
IsBinary Opcode.le_s = Unit
IsBinary Opcode.gt_s = Unit
IsBinary Opcode.ge_s = Unit
IsBinary _ = ⊥

pub Verified-binary :
    (op : Opcode) (dst a b : Operand)
    → IsBinary op
    → IsObject dst.kind
    → IsSource a.kind
    → IsSource b.kind
    → Verified (with_destination dst (operation op (a ∷ b ∷ [])))
unfolding verify_instruction
Verified-binary Opcode.invalid dst a b e h k m = absurd e
Verified-binary Opcode.const_i32 dst a b e h k m = absurd e
Verified-binary Opcode.const_i8 dst a b e h k m = absurd e
Verified-binary Opcode.copy dst a b e h k m = absurd e
Verified-binary Opcode.neg dst a b e h k m = absurd e
Verified-binary Opcode.not dst a b e h k m = absurd e
Verified-binary Opcode.logic_not dst a b e h k m = absurd e
Verified-binary Opcode.call dst a b e h k m = absurd e
Verified-binary Opcode.alloca dst a b e h k m = absurd e
Verified-binary Opcode.load dst a b e h k m = absurd e
Verified-binary Opcode.store dst a b e h k m = absurd e
Verified-binary Opcode.load_indirect dst a b e h k m = absurd e
Verified-binary Opcode.store_indirect dst a b e h k m = absurd e
Verified-binary _ dst a b e h k m = ground arith

-- A method of the function that appends one plain instruction and leaves the rest.
pub record Appends (f : Function → Function) : Type 0 where
  pub inst : Function → Instruction
  pub instructions_eq : (fn : Function) → (f fn).instructions ≡ fn.instructions ++ (inst fn ∷ [])
  pub shape : (n : ℕ) (fn : Function) → Shape n n (inst fn ∷ [])

pub Gives-emit : {f : Function → Function} → Appends f → Gives Any (emit f)
unfolding emit
Gives-emit p = record {
  runs = λ l env. returns (
    p.inst l.fn ∷ [],
    record {
      appended = p.instructions_eq l.fn;
      shape = p.shape l.next_label_id l.fn;
      env = record { scopes_ok = env.scopes_ok; functions_ok = env.functions_ok };
    },
    tt,
  );
}

pub Gives-emit_value :
    {f : Function → Operand × Function} (P : Operand → Type 0)
    → Appends (λ fn. (f fn).1)
    → ((fn : Function) → P (f fn).0)
    → Gives P (emit_value f)
unfolding emit_value
Gives-emit_value P p h = record {
  runs = λ l env. returns (
    p.inst l.fn ∷ [],
    record {
      appended = p.instructions_eq l.fn;
      shape = p.shape l.next_label_id l.fn;
      env = record { scopes_ok = env.scopes_ok; functions_ok = env.functions_ok };
    },
    h l.fn,
  );
}

-- The destination that `AddInstruction` takes.
abbrev pub destination_of : Opcode → List Operand → Function → Operand
destination_of op os fn = (Builder.add_instruction op os fn).0

destination-IsObject :
    (op : Opcode) (os : List Operand) (fn : Function) → IsObject (destination_of op os fn).kind
unfolding Builder.add_instruction
destination-IsObject Opcode.alloca os fn = tt
destination-IsObject _ os fn = tt

add_instruction_lem :
    (op : Opcode) (os : List Operand) (fn : Function)
    → (Builder.add_instruction op os fn).1.instructions
      ≡ fn.instructions ++ (with_destination (destination_of op os fn) (operation op os) ∷ [])
unfolding Builder.add_instruction
add_instruction_lem Opcode.alloca os fn = refl
add_instruction_lem _ os fn = refl

-- `AddInstruction` of an operation that is verified with any destination.
pub Gives-instruction :
    (op : Opcode) (os : List Operand)
    → ((dst : Operand) → IsObject dst.kind → Verified (with_destination dst (operation op os)))
    → Gives (λ o. IsObject o.kind) (instruction op os)
Gives-instruction op os v =
    Gives-emit_value (λ o. IsObject o.kind)
      (record {
        inst = λ fn. with_destination (destination_of op os fn) (operation op os);
        instructions_eq = add_instruction_lem op os;
        shape = λ n fn. Shape-op n _ refl (v _ (destination-IsObject op os fn));
      })
      (destination-IsObject op os)

pub Gives-alloca :
    (typ : Bytes)
    → Gives
        (λ o. o.kind ≡ OperandKind.stack_slot_pointer)
        (instruction Opcode.alloca (immediate typ ∷ []))
unfolding Builder.add_instruction verify_instruction
Gives-alloca typ =
    Gives-emit_value (λ o. o.kind ≡ OperandKind.stack_slot_pointer)
      (record {
        inst = λ fn.
            with_destination (destination_of Opcode.alloca (immediate typ ∷ []) fn)
              (operation Opcode.alloca (immediate typ ∷ []));
        instructions_eq = λ fn. refl;
        shape = λ n fn. Shape-op n _ refl refl;
      })
      (λ fn. refl)

pub Gives-void_instruction :
    (op : Opcode) (os : List Operand)
    → Verified (operation op os)
    → Gives Any (void_instruction op os)
unfolding Builder.add_void_instruction
Gives-void_instruction op os v = Gives-emit (record {
  inst = λ fn. operation op os;
  instructions_eq = λ fn. refl;
  shape = λ n fn. Shape-op n _ refl v;
})

-- A load goes through a slot or through a pointer, by the kind of the address.
pub Gives-load_address :
    (addr : Operand) → IsObject addr.kind → Gives (λ o. IsObject o.kind) (load_address addr)
unfolding load_address verify_instruction
Gives-load_address addr h = elim (Bool-cases (same_kind addr.kind OperandKind.stack_slot_pointer)) [
  | inl e ↦ rw e (Gives-instruction Opcode.load (addr ∷ []) (λ dst k. ground arith))
  | inr e ↦ rw e (Gives-instruction Opcode.load_indirect (addr ∷ []) (λ dst k. ground arith))
]

pub Gives-store_address :
    (addr value : Operand)
    → IsObject addr.kind
    → IsObject value.kind
    → Gives Any (store_address addr value)
unfolding store_address verify_instruction
Gives-store_address addr value h k =
    elim (Bool-cases (same_kind addr.kind OperandKind.stack_slot_pointer)) [
      | inl e ↦ rw e (Gives-void_instruction Opcode.store (addr ∷ value ∷ []) (ground arith))
      | inr e ↦
          rw e (Gives-void_instruction Opcode.store_indirect (addr ∷ value ∷ []) (ground arith))
    ]

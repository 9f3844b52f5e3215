-- ===== src/Tac/Code.antt =====
-- What makes the instructions of a function a well-formed body, as docs/ir-cfg-invariants.md
-- describes it: counts of the labels that they define and use, and how they end.
use wihajster.Common.{
  ℕ, ◌+◌, ◌≤◌, Bool, true, false, List, [], ◌∷◌, ◌++◌, if◌then◌else◌, ◌≡◌, arith, All, ◌⊎◌,
}
use wihajster.Common.Bytes.{Bytes}
use wihajster.Common.Maps.{bytes_eq}
use wihajster.Common.Outcome.{ok}
use wihajster.Tac.Types.{InstructionKind, Instruction}
use wihajster.Tac.Verify.{verify_instruction}

abbrev pub hits : Bytes → Bytes → ℕ
hits a b = if bytes_eq a b then 1 else 0

abbrev pub defs_of : InstructionKind → Bytes → Instruction → ℕ
defs_of InstructionKind.label name inst = hits inst.label name
defs_of _ name inst = 0

abbrev pub uses_of : InstructionKind → Bytes → Instruction → ℕ
uses_of InstructionKind.jmp name inst = hits inst.true_label.text name
uses_of InstructionKind.br name inst =
    hits inst.true_label.text name + hits inst.false_label.text name
uses_of _ name inst = 0

-- How often a label is defined, and how often it is a target.
abbrev pub defs : Bytes → List Instruction → ℕ
defs name [] = 0
defs name (inst ∷ insts) = defs_of inst.kind name inst + defs name insts

abbrev pub uses : Bytes → List Instruction → ℕ
uses name [] = 0
uses name (inst ∷ insts) = uses_of inst.kind name inst + uses name insts

abbrev pub Verified : Instruction → Type 0
Verified inst = verify_instruction inst ≡ ok tt

abbrev pub is_jump : InstructionKind → Bool
is_jump InstructionKind.jmp = true
is_jump InstructionKind.br = true
is_jump InstructionKind.ret = true
is_jump _ = false

-- The last instruction is a terminator.
abbrev pub ends : List Instruction → Bool
ends [] = false
ends (inst ∷ []) = is_jump inst.kind
ends (inst ∷ next ∷ insts) = ends (next ∷ insts)

-- Every instruction is verified, every label is defined at most once, every target is defined, and
-- the last instruction is a terminator.
pub record WellFormed (insts : List Instruction) : Type 0 where
  pub verified : All Verified insts
  pub once : (name : Bytes) → defs name insts ≤ 1
  pub closed : (name : Bytes) → (uses name insts ≡ 0) ⊎ (defs name insts ≡ 1)
  pub ended : ends insts ≡ true

pub defs-append :
    (name : Bytes) (a b : List Instruction) → defs name (a ++ b) ≡ defs name a + defs name b
defs-append name [] b = omega arith
defs-append name (i ∷ a) b = omega (arith, defs-append name a b)

pub uses-append :
    (name : Bytes) (a b : List Instruction) → uses name (a ++ b) ≡ uses name a + uses name b
uses-append name [] b = omega arith
uses-append name (i ∷ a) b = omega (arith, uses-append name a b)

pub ends-append : (a b : List Instruction) → ends b ≡ true → ends (a ++ b) ≡ true
ends-append [] b h = h
ends-append (i ∷ []) [] h = cc
ends-append (i ∷ []) (j ∷ b) h = h
ends-append (i ∷ j ∷ a) b h = ends-append (j ∷ a) b h

-- ===== src/Sema/Lower/Names.antt =====
-- The labels of code by their numbers, and by any names.
use wihajster.Common.{
  ℕ, ◌+◌, true, List, [], ◌∷◌, ◌≡◌, refl, sym, ◌∙◌, arith, All, inl, inr, ◌⊎◌, Bool-cases,
}
use wihajster.Common.Bytes.{Bytes}
use wihajster.Common.Maps.{bytes_eq, bytes_eq_iff}
use wihajster.Tac.Types.{InstructionKind, Instruction}
use wihajster.Tac.Code.{hits, defs, uses, defs_of, uses_of, ends, WellFormed}
use wihajster.Sema.Shape.{Shape, Named, NamedBy, IsLabelName}

either_zero : {P : Type 0} {m n : ℕ} → (m ≡ 0) ⊎ P → (n ≡ 0) ⊎ P → (m + n ≡ 0) ⊎ P
either_zero (inl a) (inl b) = inl (omega (arith, a, b))
either_zero (inl a) (inr p) = inr p
either_zero (inr p) b = inr p

hits-name : (a name : Bytes) → IsLabelName a → (hits a name ≡ 0) ⊎ IsLabelName name
hits-name a name (n, e) = elim (Bool-cases (bytes_eq a name)) [
  | inl same ↦ inr (n, sym ((bytes_eq_iff a name).0 same) ∙ e)
  | inr other ↦ inl (rw other refl)
]

defs_of-name :
    (k : InstructionKind) (name : Bytes) (inst : Instruction)
    → NamedBy k inst
    → (defs_of k name inst ≡ 0) ⊎ IsLabelName name
defs_of-name InstructionKind.label name inst h = hits-name inst.label name h
defs_of-name _ name inst h = inl refl

uses_of-name :
    (k : InstructionKind) (name : Bytes) (inst : Instruction)
    → NamedBy k inst
    → (uses_of k name inst ≡ 0) ⊎ IsLabelName name
uses_of-name InstructionKind.jmp name inst h = hits-name inst.true_label.text name h
uses_of-name InstructionKind.br name inst (h, k) =
    either_zero (hits-name inst.true_label.text name h) (hits-name inst.false_label.text name k)
uses_of-name _ name inst h = inl refl

defs-name :
    (name : Bytes) (code : List Instruction)
    → All Named code
    → (defs name code ≡ 0) ⊎ IsLabelName name
defs-name name [] h = inl refl
defs-name name (inst ∷ code) (h, hs) =
    either_zero (defs_of-name inst.kind name inst h) (defs-name name code hs)

uses-name :
    (name : Bytes) (code : List Instruction)
    → All Named code
    → (uses name code ≡ 0) ⊎ IsLabelName name
uses-name name [] h = inl refl
uses-name name (inst ∷ code) (h, hs) =
    either_zero (uses_of-name inst.kind name inst h) (uses-name name code hs)

pub Shape-WellFormed :
    (hi : ℕ) (code : List Instruction) → Shape 0 hi code → ends code ≡ true → WellFormed code
Shape-WellFormed hi code p e = record {
  verified = p.verified;
  once = λ name. elim (defs-name name code p.named) [
    | inl z ↦ omega (arith, z)
    | inr (n, i) ↦ rw i (p.labels n).0
  ];
  closed = λ name. elim (uses-name name code p.named) [
    | inl z ↦ inl z
    | inr (n, i) ↦ rw i (ground (arith, p.labels n))
  ];
  ended = e;
}

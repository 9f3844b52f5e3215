-- ===== src/Tac/Validate/Targets.antt =====
-- What the success of `collectIRBlocks` says of the targets.
use wihajster.Common.{
  ℕ, ◌+◌, ◌<◌, List, [], ◌∷◌, ◌≡◌, ◌⊎◌, refl, arith, Bool-cases, Option-cases, inl, inr,
}
use wihajster.Common.Bytes.{Bytes}
use wihajster.Common.Maps.{lookup, exists, bytes_key, bytes_eq, bytes_eq_iff}
use wihajster.Common.Outcome.{found, Post, returns, raises, Post-bind, Post-map}
use wihajster.Tac.Types.{InstructionKind, Instruction}
use wihajster.Tac.Code.{hits, uses, uses_of}
use wihajster.Tac.Validate.Labels.{ValidateError, Labels}
use wihajster.Tac.Validate.Accepts.{present}
use wihajster.Tac.Validate.Starts.{instruction_starts, collect_starts}

-- A target that is looked up with success is there.
found-present :
    (name : Bytes) (labels : Labels) (e : ValidateError)
    → Post (λ (_ : ℕ). 0 < present name labels) (λ _. Unit {0}) (found (lookup name labels) e)
unfolding present exists
found-present name labels e = elim (Option-cases (lookup name labels)) [
  | inl n ↦ rw n (raises tt)
  | inr (j, s) ↦ rw s (returns (rw (s, exists, present) (omega arith)))
]

abbrev pub Present : Labels → (Bytes → ℕ) → Type 0
Present labels used = (name : Bytes) → (used name ≡ 0) ⊎ (0 < present name labels)

hits-Present :
    (target name : Bytes) (labels : Labels)
    → 0 < present target labels
    → (hits target name ≡ 0) ⊎ (0 < present name labels)
hits-Present target name labels h = elim (Bool-cases (bytes_eq target name)) [
  | inl e ↦ inr (rw ((bytes_eq_iff target name).0 e) at h)
  | inr e ↦ inl (rw e refl)
]

instruction_starts-Present :
    (labels : Labels) (count i : ℕ) (k : InstructionKind) (inst : Instruction) (starts : List ℕ)
    → Post
        (λ _. Present labels (λ name. uses_of k name inst))
        (λ _. Unit {0})
        (instruction_starts labels count i k inst starts)
unfolding instruction_starts
instruction_starts-Present labels count i InstructionKind.jmp inst starts =
    Post-bind (found-present inst.true_label.text labels _)
      λ _ h. returns (λ name. hits-Present inst.true_label.text name labels h)
instruction_starts-Present labels count i InstructionKind.br inst starts =
    Post-bind (found-present inst.true_label.text labels _) λ _ h.
      Post-bind (found-present inst.false_label.text labels _) λ _ k. returns (λ name. ground (
        arith,
        hits-Present inst.true_label.text name labels h,
        hits-Present inst.false_label.text name labels k,
      ))
instruction_starts-Present labels count i _ inst starts = returns (λ name. inl refl)

pub collect_starts-Closed :
    (labels : Labels) (count i : ℕ) (insts : List Instruction) (starts : List ℕ)
    → Post
        (λ _. Present labels (λ name. uses name insts))
        (λ _. Unit {0})
        (collect_starts labels count i insts starts)
unfolding collect_starts
collect_starts-Closed labels count i [] starts = returns (λ name. inl refl)
collect_starts-Closed labels count i (inst ∷ insts) starts =
    Post-bind (instruction_starts-Present labels count i inst.kind inst starts) λ next h.
      Post-map (λ _ k name. ground (arith, h name, k name))
        (collect_starts-Closed labels count (i + 1) insts next)

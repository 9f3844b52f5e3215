-- ===== src/Tac/Validate/Calm.antt =====
-- The slice indices of `ValidateFunctionIR`.
use wihajster.Common.{
  ℕ, not, ◌+◌, ◌≤◌, ◌<◌, ◌||◌, List, [], ◌∷◌, length, ltb, ◌≡◌, ◌⊎◌, refl, arith,
}
use wihajster.Common.Bytes.{Bytes}
use wihajster.Common.Maps.{lookup, exists, bytes_key}
use wihajster.Common.Outcome.{
  Outcome, ok, err, ◌>>=◌, ◌>>◌, Post, returns, raises, Post-bind, Post-both, Post-forget,
  Post-check, Post-found, Post-with,
}
use wihajster.Tac.Types.{InstructionKind, Instruction, Function}
use wihajster.Tac.Code.{defs, uses}
use wihajster.Tac.Verify.{VerifyError, verify_instruction}
use wihajster.Tac.Validate.Labels.{ValidateError, Labels, at_index, define_label, define_labels}
use wihajster.Tac.Validate.Starts.{instruction_starts, collect_starts}
use wihajster.Tac.Validate.Blocks.{
  IrBlock, is_terminator, check_successors, check_blocks, check_entry, collect_blocks,
  validate_instructions, validate_function,
}
use wihajster.Tac.Validate.Blocks.Checked.{collect_blocks-Sound}
use wihajster.Tac.Validate.Accepts.{present, define_labels_complete}
use wihajster.Tac.Validate.Targets.{collect_starts-Closed}
use wihajster.Tac.Validate.Complete.{Kept, Kept-Found, present-nil, define_labels-Kept}

-- Every error but the panic.
abbrev pub NoPanic : ValidateError → Type 0
NoPanic ValidateError.index_panic = ⊥
NoPanic _ = Unit

abbrev pub Calm : {A : Type 0} → Outcome ValidateError A → Type 0
Calm = Post (λ _. Unit {0}) NoPanic

at_index-Calm : (i : ℕ) (r : Outcome VerifyError (Unit {0})) → Calm (at_index i r)
at_index-Calm i (ok u) = returns tt
at_index-Calm i (err e) = raises tt

define_label-Calm :
    (k : InstructionKind) (i : ℕ) (name : Bytes) (labels : Labels)
    → Calm (define_label k i name labels)
unfolding define_label
define_label-Calm InstructionKind.label i name labels =
    Post-bind (Post-check (ValidateError.duplicate_label name) (not (exists name labels)) tt)
      λ _ _. returns tt
define_label-Calm _ i name labels = returns tt

define_labels-Calm :
    (i : ℕ) (insts : List Instruction) (labels : Labels) → Calm (define_labels i insts labels)
unfolding define_labels
define_labels-Calm i [] labels = returns tt
define_labels-Calm i (inst ∷ insts) labels =
    Post-bind (at_index-Calm i (verify_instruction inst)) λ _ _.
      Post-bind (define_label-Calm inst.kind i inst.label labels)
        λ added _. define_labels-Calm (i + 1) insts added

instruction_starts-Calm :
    (labels : Labels) (count i : ℕ) (k : InstructionKind) (inst : Instruction) (starts : List ℕ)
    → Calm (instruction_starts labels count i k inst starts)
unfolding instruction_starts
instruction_starts-Calm labels count i InstructionKind.jmp inst starts =
    Post-bind
      (Post-found (ValidateError.undefined_jump inst.true_label.text)
        (lookup inst.true_label.text labels) tt)
      λ _ _. returns tt
instruction_starts-Calm labels count i InstructionKind.br inst starts =
    Post-bind
      (Post-found (ValidateError.undefined_branch inst.true_label.text)
        (lookup inst.true_label.text labels) tt)
      λ _ _.
        Post-bind
          (Post-found (ValidateError.undefined_branch inst.false_label.text)
            (lookup inst.false_label.text labels) tt)
          λ _ _. returns tt
instruction_starts-Calm labels count i InstructionKind.ret inst starts = returns tt
instruction_starts-Calm labels count i _ inst starts = returns tt

collect_starts-Calm :
    (labels : Labels) (count i : ℕ) (insts : List Instruction) (starts : List ℕ)
    → Calm (collect_starts labels count i insts starts)
unfolding collect_starts
collect_starts-Calm labels count i [] starts = returns tt
collect_starts-Calm labels count i (inst ∷ insts) starts =
    Post-bind (instruction_starts-Calm labels count i inst.kind inst starts)
      λ next _. collect_starts-Calm labels count (i + 1) insts next

check_successors-Calm : (count : ℕ) (ss : List ℕ) → Calm (check_successors count ss)
unfolding check_successors
check_successors-Calm count [] = returns tt
check_successors-Calm count (s ∷ ss) =
    Post-bind (Post-check (ValidateError.successor_range s) (ltb s count) tt)
      λ _ _. check_successors-Calm count ss

check_blocks-Calm : (count i : ℕ) (bs : List IrBlock) → Calm (check_blocks count i bs)
unfolding check_blocks
check_blocks-Calm count i [] = returns tt
check_blocks-Calm count i (b ∷ bs) = Post-bind (check_successors-Calm count b.successors) λ _ _.
    Post-bind (Post-check _ (is_terminator b.terminator || ltb (i + 1) count) tt)
      λ _ _. check_blocks-Calm count (i + 1) bs

-- With the labels found, the starts are collected or an error is returned; the other loops then find
-- each index that they use.
collected-Calm :
    (inst : Instruction) (insts : List Instruction) (labels : Labels)
    → ((name : Bytes) → defs name (inst ∷ insts) ≤ 1)
    → Kept (length (inst ∷ insts)) (inst ∷ insts) labels
    → Calm (
        collect_blocks (inst ∷ insts) labels >>= λ blocks.
        check_entry blocks >> check_blocks (length blocks) 0 blocks)
unfolding collect_blocks
collected-Calm inst insts labels o (below, kept) =
    guarded (collect_starts labels (length (inst ∷ insts)) 0 (inst ∷ insts) (0 ∷ []))
      (Post-with (collect_starts-Closed labels _ 0 (inst ∷ insts) (0 ∷ []))
        (collect_starts-Calm labels _ 0 (inst ∷ insts) (0 ∷ [])))
      refl
  where
    guarded :
        (r : Outcome ValidateError (List ℕ))
        → Post
            (λ _. (name : Bytes) → (uses name (inst ∷ insts) ≡ 0) ⊎ (0 < present name labels))
            NoPanic
            r
        → collect_starts labels (length (inst ∷ insts)) 0 (inst ∷ insts) (0 ∷ []) ≡ r
        → Calm (
            collect_blocks (inst ∷ insts) labels >>= λ blocks.
            check_entry blocks >> check_blocks (length blocks) 0 blocks)
    guarded _ (returns closed) e =
        let once : (name : Bytes)
            → (uses name (inst ∷ insts) ≡ 0) ⊎ (defs name (inst ∷ insts) ≡ 1) =
          λ name. ground (arith, closed name, kept name, o name, present-nil name) in
        let (blocks, eb, sound, _) = collect_blocks-Sound inst insts labels (λ name.
          Kept-Found (length (inst ∷ insts)) (inst ∷ insts) labels name (below, kept)
            (once name)) in
        rw (eb, sound.entry) (check_blocks-Calm (length blocks) 0 blocks)
    guarded (err x) (raises h) e = rw e (raises h)

validate_instructions-Calm : (insts : List Instruction) → Calm (validate_instructions insts)
unfolding validate_instructions
validate_instructions-Calm [] = returns tt
validate_instructions-Calm (inst ∷ insts) =
    Post-bind
      (Post-with
        (Post-both (Post-forget (define_labels_complete (inst ∷ insts)))
          (define_labels-Kept (length (inst ∷ insts)) 0 (inst ∷ insts) [] (omega arith) tt))
        (define_labels-Calm 0 (inst ∷ insts) []))
      λ labels ((v, o), kept). collected-Calm inst insts labels o kept

-- `ValidateFunctionIR` indexes no slice out of its range.
pub validate_function-Calm : (fn : Function) → Calm (validate_function fn)
unfolding validate_function
validate_function-Calm fn = validate_instructions-Calm fn.instructions

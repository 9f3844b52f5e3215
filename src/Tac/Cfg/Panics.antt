-- ===== src/Tac/Cfg/Panics.antt =====
-- The indices that `Build` puts into slices.
use wihajster.Common.{
  ℕ, suc, not, ◌+◌, ◌-◌, ◌≤◌, ◌<◌, List, [], ◌∷◌, length, get_elem?, ◌==◌, ltb, ◌≡◌, refl, arith,
  All, Option, none, some, Bool-cases, if_both, inl, inr,
}
use wihajster.Common.Bytes.{Bytes}
use wihajster.Common.Maps.{
  Map, lookup, exists, OnSome, AllValues, lookup-AllValues, bytes_key, nat_eq,
}
use wihajster.Common.Outcome.{Outcome, found, Post, returns, Post-bind, Post-check, Post-found}
use wihajster.Tac.Types.{InstructionKind, Instruction}
use wihajster.Tac.Validate.Calm as Valid
use wihajster.Tac.Validate.Blocks.{is_terminator}
use wihajster.Tac.Validate.Blocks.Made.{get_elem?-some}
use wihajster.Tac.Cfg.Leaders.{
  BuildError, index_label, index_labels, instruction_leaders, collect_leaders,
}
use wihajster.Tac.Cfg.Graph.{
  BasicBlock, start_to_block, or_zero, target_block, successors_of, check_positions,
  link_successors,
}

-- Every error but a panic, in `Build` or in the validation.
abbrev pub NoPanic : BuildError → Type 0
NoPanic BuildError.index_panic = ⊥
NoPanic (BuildError.invalid_function e) = Valid.NoPanic e
NoPanic _ = Unit

abbrev pub Calm : {A : Type 0} → Outcome BuildError A → Type 0
Calm = Post (λ _. Unit {0}) NoPanic

pub index_labels-Calm :
    (i : ℕ) (insts : List Instruction) (defs : Map Bytes ℕ) → Calm (index_labels i insts defs)
unfolding index_labels index_label
index_labels-Calm i [] defs = returns tt
index_labels-Calm i (inst ∷ insts) defs =
    Post-bind (by_kind inst.kind) λ defs' _. index_labels-Calm (i + 1) insts defs'
  where
    by_kind : (kind : InstructionKind) → Calm (index_label kind i inst.label defs)
    by_kind InstructionKind.label =
        Post-bind
          (Post-check (BuildError.duplicate_label inst.label) (not (exists inst.label defs)) tt)
          λ _ _. returns tt
    by_kind _ = returns tt

instruction_leaders-Calm :
    (defs : Map Bytes ℕ) (count i : ℕ) (kind : InstructionKind) (inst : Instruction)
    (leaders : List ℕ)
    → Calm (instruction_leaders defs count i kind inst leaders)
unfolding instruction_leaders
instruction_leaders-Calm defs count i InstructionKind.jmp inst leaders =
    Post-bind
      (Post-found (BuildError.undefined_jump inst.true_label.text)
        (lookup inst.true_label.text defs) tt)
      λ _ _. returns tt
instruction_leaders-Calm defs count i InstructionKind.br inst leaders =
    Post-bind
      (Post-found (BuildError.undefined_branch inst.true_label.text)
        (lookup inst.true_label.text defs) tt)
      λ _ _.
        Post-bind
          (Post-found (BuildError.undefined_branch inst.false_label.text)
            (lookup inst.false_label.text defs) tt)
          λ _ _. returns tt
instruction_leaders-Calm defs count i _ inst leaders = returns tt

pub collect_leaders-Calm :
    (defs : Map Bytes ℕ) (count i : ℕ) (insts : List Instruction) (leaders : List ℕ)
    → Calm (collect_leaders defs count i insts leaders)
unfolding collect_leaders
collect_leaders-Calm defs count i [] leaders = returns tt
collect_leaders-Calm defs count i (inst ∷ insts) leaders =
    Post-bind (instruction_leaders-Calm defs count i inst.kind inst leaders)
      λ next _. collect_leaders-Calm defs count (i + 1) insts next

-- Blocks numbered from `id`, none of them empty.
pub data Numbered : ℕ → List BasicBlock → Type 0 where
  no_block : {id : ℕ} → Numbered id []
  a_block :
      {b : BasicBlock} {bs : List BasicBlock}
      → 0 < length b.instructions
      → Numbered (b.id + 1) bs
      → Numbered b.id (b ∷ bs)

pub start_to_block-Below :
    (count id : ℕ) (bs : List BasicBlock)
    → id + length bs ≤ count
    → Numbered id bs
    → AllValues (λ v. v < count) (start_to_block bs)
unfolding start_to_block
start_to_block-Below count id [] h n = tt
start_to_block-Below count id (b ∷ bs) h (a_block f n) =
    (omega (arith, h), start_to_block-Below count (id + 1) bs (omega (arith, h)) n)

or_zero-below :
    (count : ℕ) (o : Option ℕ) → 0 < count → OnSome (λ v. v < count) o → or_zero o < count
or_zero-below count none z h = z
or_zero-below count (some v) z h = h

module _ (defs : Map Bytes ℕ) (starts : Map ℕ ℕ) (count : ℕ)
    (below : AllValues (λ v. v < count) starts) where
  target_block-below : (label : Bytes) → 0 < count → target_block defs starts label < count
  target_block-below label z =
      or_zero-below count (lookup (or_zero (lookup label defs)) starts) z
        (lookup-AllValues (λ (v : ℕ). v < count) (or_zero (lookup label defs)) starts below)

  successors_of-below :
      (i : ℕ) (kind : InstructionKind) (last : Instruction)
      → 0 < count
      → All (λ s. s < count) (successors_of defs starts count i kind last)
  unfolding successors_of
  successors_of-below i InstructionKind.jmp last z = (target_block-below last.true_label.text z, tt)
  successors_of-below i InstructionKind.br last z =
      let t = target_block defs starts last.true_label.text in
      let f = target_block defs starts last.false_label.text in
      if_both (λ ss. All (λ s. s < count) ss) (f == t)
        (target_block-below last.true_label.text z, tt)
        (
          target_block-below last.true_label.text z,
          (target_block-below last.false_label.text z, tt),
        )
  successors_of-below i InstructionKind.ret last z = tt
  successors_of-below i _ last z = elim (Bool-cases (ltb (i + 1) count)) [
    | inl e ↦ rw e (ground (arith, e), tt)
    | inr e ↦ rw e tt
  ]

-- Every successor is one of `count` blocks.
pub record Linked (count : ℕ) (bs : List BasicBlock) : Type 0 where
  pub bounds : All (λ (b : BasicBlock). All (λ s. s < count) b.successors) bs

check_positions-Calm : (start : ℕ) (insts : List Instruction) → Calm (check_positions start insts)
unfolding check_positions
check_positions-Calm start [] = returns tt
check_positions-Calm start (last ∷ []) = returns tt
check_positions-Calm start (inst ∷ next ∷ insts) =
    Post-bind (Post-check (BuildError.terminator_position start) (not (is_terminator inst.kind)) tt)
      λ _ _. check_positions-Calm start (next ∷ insts)

last-Calm :
    (insts : List Instruction)
    → 0 < length insts
    → Calm (found (get_elem? insts (length insts - 1)) BuildError.index_panic)
last-Calm insts h =
    let (last, e) = get_elem?-some insts (length insts - 1) (omega (arith, h)) in rw e (returns tt)

Linked-cons :
    {count : ℕ} {b : BasicBlock} {rest : List BasicBlock} (bs : List BasicBlock)
    → All (λ s. s < count) b.successors
    → (length rest ≡ length bs) × Linked count rest
    → (suc (length rest) ≡ suc (length bs)) × Linked count (b ∷ rest)
Linked-cons bs h (e, l) = (omega (arith, e), record { bounds = (h, l.bounds) })

pub link_successors-Linked :
    (defs : Map Bytes ℕ) (starts : Map ℕ ℕ) (count i id : ℕ) (bs : List BasicBlock)
    → AllValues (λ v. v < count) starts
    → length bs ≤ count
    → Numbered id bs
    → Post
        (λ out. (length out ≡ length bs) × Linked count out)
        NoPanic
        (link_successors defs starts count i bs)
unfolding link_successors
link_successors-Linked defs starts count i id [] below h n = returns (refl, record { bounds = tt })
link_successors-Linked defs starts count i id (b ∷ bs) below h (a_block f n) =
    Post-bind (last-Calm b.instructions f) λ last _.
      Post-bind (check_positions-Calm b.start b.instructions) λ _ _.
        Post-bind
          (link_successors-Linked defs starts count (i + 1) (id + 1) bs below (omega (arith, h)) n)
          λ rest l. returns (
            Linked-cons bs
              (successors_of-below defs starts count below i last.kind last (omega (arith, h))) l)

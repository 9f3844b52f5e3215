-- ===== src/Tac/Cfg/Partition.antt =====
-- The leaders and the blocks of `Build`: the instructions of the blocks, one block after another.
use wihajster.Common.{
  ℕ, not, ◌+◌, ◌≤◌, ◌<◌, List, [], ◌∷◌, length, ltb, arith, Bool-cases, Option-cases, inl, inr,
}
use wihajster.Common.Bytes.{Bytes}
use wihajster.Common.Maps.{Map, lookup, exists, assign, AllValues, lookup-AllValues, bytes_key}
use wihajster.Common.Outcome.{check, found, Post, returns, raises, Post-bind, Post-map, Post-true}
use wihajster.Tac.Types.{InstructionKind, Instruction}
use wihajster.Tac.Validate.Collects.{Starts, Grows, add_start-Starts}
use wihajster.Tac.Cfg.Leaders.{
  BuildError, index_label, index_labels, add_leader, add_following, instruction_leaders,
  collect_leaders,
}

abbrev pub Below : ℕ → Map Bytes ℕ → Type 0
Below count defs = AllValues (λ j. j < count) defs

pub index_labels-Below :
    (count i : ℕ) (insts : List Instruction) (defs : Map Bytes ℕ)
    → i + length insts ≤ count
    → Below count defs
    → Post (Below count) (λ _. Unit {0}) (index_labels i insts defs)
unfolding index_labels index_label
index_labels-Below count i [] defs h k = returns k
index_labels-Below count i (inst ∷ insts) defs h k =
    Post-bind (index_label-Below inst.kind (omega (arith, h)))
      λ defs' k'. index_labels-Below count (i + 1) insts defs' (omega (arith, h)) k'
  where
    index_label-Below :
        (kind : InstructionKind)
        → i < count
        → Post (Below count) (λ _. Unit {0}) (index_label kind i inst.label defs)
    index_label-Below InstructionKind.label l =
        let h : Below count (assign inst.label i defs) = (l, k) in
        Post-bind
          (Post-true (check (not (exists inst.label defs)) (BuildError.duplicate_label inst.label)))
          λ _ _. returns h
    index_label-Below _ l = returns k

-- Leaders from which indices are not lost.
abbrev pub Leads : ℕ → List ℕ → List ℕ → Type 0
Leads count before after = Starts count after × Grows before after

target-Below :
    (count : ℕ) (name : Bytes) (defs : Map Bytes ℕ) (e : BuildError)
    → Below count defs
    → Post (λ j. j < count) (λ _. Unit {0}) (found (lookup name defs) e)
target-Below count name defs e h = elim (Option-cases (lookup name defs)) [
  | inl n ↦ rw n (raises tt)
  | inr (j, s) ↦ rw s (returns (rw s at (lookup-AllValues (λ (j : ℕ). j < count) name defs h)))
]

add_leader-Leads :
    (count i : ℕ) (a b : List ℕ) → i < count → Leads count a b → Leads count a (add_leader i b)
add_leader-Leads count i a b h (s, g) =
    let (s', g', _) = add_start-Starts count i b h s in (s', λ n. omega (arith, g n, g' n))

pub add_following-Leads :
    (count i : ℕ) (a b : List ℕ) → Leads count a b → Leads count a (add_following count i b)
unfolding add_following
add_following-Leads count i a b p = elim (Bool-cases (ltb (i + 1) count)) [
  | inl e ↦ rw e (add_leader-Leads count (i + 1) a b (ground arith) p)
  | inr e ↦ rw e p
]

pub instruction_leaders-Leads :
    (defs : Map Bytes ℕ) (count i : ℕ) (k : InstructionKind) (inst : Instruction) (leaders : List ℕ)
    → Below count defs
    → Starts count leaders
    → Post (Leads count leaders) (λ _. Unit {0}) (instruction_leaders defs count i k inst leaders)
unfolding instruction_leaders
instruction_leaders-Leads defs count i InstructionKind.jmp inst leaders h s =
    Post-bind (target-Below count inst.true_label.text defs _ h) λ t b. returns (
      add_following-Leads count i leaders _
        (add_leader-Leads count t leaders leaders b (s, λ n. omega arith)))
instruction_leaders-Leads defs count i InstructionKind.br inst leaders h s =
    Post-bind (target-Below count inst.true_label.text defs _ h) λ t b.
      Post-bind (target-Below count inst.false_label.text defs _ h) λ f c. returns (
        add_following-Leads count i leaders _ (
          add_leader-Leads count f leaders _ c
            (add_leader-Leads count t leaders leaders b (s, λ n. omega arith))))
instruction_leaders-Leads defs count i _ inst leaders h s = returns (s, λ n. omega arith)

pub collect_leaders-Leads :
    (defs : Map Bytes ℕ) (count i : ℕ) (insts : List Instruction) (leaders : List ℕ)
    → Below count defs
    → Starts count leaders
    → Post (Leads count leaders) (λ _. Unit {0}) (collect_leaders defs count i insts leaders)
unfolding collect_leaders
collect_leaders-Leads defs count i [] leaders h s = returns (s, λ n. omega arith)
collect_leaders-Leads defs count i (inst ∷ insts) leaders h s =
    Post-bind (instruction_leaders-Leads defs count i inst.kind inst leaders h s) λ next (s', g).
      Post-map (λ out (s₂, g₂). (s₂, λ n. omega (arith, g n, g₂ n)))
        (collect_leaders-Leads defs count (i + 1) insts next h s')

-- ===== src/Tac/Cfg/Aims.antt =====
-- What `labelDefs` and the leaders hold of the targets of jumps and branches.
use wihajster.Common.{
  ℕ, suc, not, ◌+◌, ◌<◌, List, [], ◌∷◌, get_elem?, Option, some, ◌≡◌, refl, arith, All, Bool-cases,
  Option-cases, inl, inr,
}
use wihajster.Common.Bytes.{Bytes}
use wihajster.Common.Maps.{Map, lookup, exists, bytes_key, bytes_eq, bytes_eq_iff, lookup-AllValues}
use wihajster.Common.Outcome.{
  check, found, Post, returns, raises, Post-bind, Post-map, Post-both, Post-true,
}
use wihajster.Tac.Types.{InstructionKind, Instruction}
use wihajster.Tac.Validate.Sorted.{occurrences}
use wihajster.Tac.Validate.Collects.{Starts, Grows, add_start-Starts}
use wihajster.Tac.Cfg.Leaders.{
  BuildError, index_label, index_labels, add_leader, add_following, instruction_leaders,
  collect_leaders,
}
use wihajster.Tac.Cfg.Partition.{
  Below, add_following-Leads, instruction_leaders-Leads, collect_leaders-Leads,
}

-- The code begins with the label of that name.
abbrev pub Opens : Bytes → Option Instruction → Type 0
Opens name first =
    (inst : Instruction) × (first ≡ some inst)
    × (inst.kind ≡ InstructionKind.label)
    × (inst.label ≡ name)

-- Each label is defined at its index.
pub record Defined (all : List Instruction) (defs : Map Bytes ℕ) : Type 0 where
  pub opens : (name : Bytes) (j : ℕ) → lookup name defs ≡ some j → Opens name (get_elem? all j)

Defined-assign :
    (all : List Instruction) (defs : Map Bytes ℕ) (i : ℕ) (inst : Instruction)
    → get_elem? all i ≡ some inst
    → inst.kind ≡ InstructionKind.label
    → Defined all defs
    → Defined all ((inst.label, i) ∷ defs)
unfolding lookup
Defined-assign all defs i inst e k d = record {
  opens = λ name j h. elim (Bool-cases (bytes_eq inst.label name)) [
    | inl same ↦
        let first : get_elem? all j ≡ some inst = cc (rw same at h, e) in
        (inst, first, k, (bytes_eq_iff inst.label name).0 same)
    | inr other ↦ d.opens name j (rw other at h)
  ];
}

pub index_labels-Defined :
    (all : List Instruction) (i : ℕ) (insts : List Instruction) (defs : Map Bytes ℕ)
    → ((k : ℕ) → get_elem? all (i + k) ≡ get_elem? insts k)
    → Defined all defs
    → Post (Defined all) (λ _. Unit {0}) (index_labels i insts defs)
unfolding index_labels index_label
index_labels-Defined all i [] defs h d = returns d
index_labels-Defined all i (inst ∷ insts) defs h d = Post-bind (by_kind inst.kind refl) λ defs' d'.
    index_labels-Defined all (i + 1) insts defs'
      (λ k. let e : i + 1 + k ≡ i + suc k = omega arith in rw e (h (suc k))) d'
  where
    by_kind :
        (k : InstructionKind)
        → inst.kind ≡ k
        → Post (Defined all) (λ _. Unit {0}) (index_label k i inst.label defs)
    by_kind InstructionKind.label e =
        let here : get_elem? all i ≡ some inst = let z : i + 0 ≡ i = omega arith in rw z at (h 0) in
        let d' = Defined-assign all defs i inst here e d in
        Post-bind
          (Post-true (check (not (exists inst.label defs)) (BuildError.duplicate_label inst.label)))
          λ _ _. returns d'
    by_kind _ e = returns d

-- The targets satisfy `Q`.
abbrev pub Aimed : (Bytes → Type 0) → InstructionKind → Instruction → Type 0
Aimed Q InstructionKind.jmp inst = Q inst.true_label.text
Aimed Q InstructionKind.br inst = Q inst.true_label.text × Q inst.false_label.text
Aimed Q _ inst = Unit

-- A label whose index is a leader.
abbrev pub Led : Map Bytes ℕ → List ℕ → Bytes → Type 0
Led defs leaders name = (j : ℕ) × (lookup name defs ≡ some j) × (0 < occurrences j leaders)

abbrev pub Aims : Map Bytes ℕ → List ℕ → Instruction → Type 0
Aims defs leaders inst = Aimed (Led defs leaders) inst.kind inst

target-Found :
    (count : ℕ) (name : Bytes) (defs : Map Bytes ℕ) (e : BuildError)
    → Below count defs
    → Post
        (λ j. (lookup name defs ≡ some j) × (j < count))
        (λ _. Unit {0})
        (found (lookup name defs) e)
target-Found count name defs e h = elim (Option-cases (lookup name defs)) [
  | inl n ↦ rw n (raises tt)
  | inr (j, s) ↦
      rw s (returns (refl, rw s at (lookup-AllValues (λ (j : ℕ). j < count) name defs h)))
]

Led-Grows :
    (defs : Map Bytes ℕ) (a b : List ℕ) (name : Bytes)
    → Grows a b
    → Led defs a name
    → Led defs b name
Led-Grows defs a b name g (j, e, h) = (j, e, omega (arith, h, g j))

Aimed-map :
    (P Q : Bytes → Type 0) (k : InstructionKind) (inst : Instruction)
    → ((name : Bytes) → P name → Q name)
    → Aimed P k inst
    → Aimed Q k inst
Aimed-map P Q InstructionKind.jmp inst f a = f inst.true_label.text a
Aimed-map P Q InstructionKind.br inst f (a, b) =
    (f inst.true_label.text a, f inst.false_label.text b)
Aimed-map P Q InstructionKind.label inst f a = tt
Aimed-map P Q InstructionKind.op inst f a = tt
Aimed-map P Q InstructionKind.ret inst f a = tt

following-Grows :
    (count i : ℕ) (leaders : List ℕ)
    → Starts count leaders
    → Grows leaders (add_following count i leaders)
following-Grows count i leaders s =
    let (_, g) = add_following-Leads count i leaders leaders (s, λ n. omega arith) in g

instruction_leaders-Aims :
    (defs : Map Bytes ℕ) (count i : ℕ) (k : InstructionKind) (inst : Instruction) (leaders : List ℕ)
    → Below count defs
    → Starts count leaders
    → Post
        (λ next. Aimed (Led defs next) k inst)
        (λ _. Unit {0})
        (instruction_leaders defs count i k inst leaders)
unfolding instruction_leaders
instruction_leaders-Aims defs count i InstructionKind.jmp inst leaders h s =
    Post-bind (target-Found count inst.true_label.text defs _ h) λ t (e, b).
      let (s', _, o) = add_start-Starts count t leaders b s in
      let g = following-Grows count i (add_leader t leaders) s' in
      returns (t, e, omega (arith, o, g t))
instruction_leaders-Aims defs count i InstructionKind.br inst leaders h s =
    Post-bind (target-Found count inst.true_label.text defs _ h) λ t (e, b).
      Post-bind (target-Found count inst.false_label.text defs _ h) λ f (e', b').
        let (s', _, o) = add_start-Starts count t leaders b s in
        let (s₂, g', o') = add_start-Starts count f (add_leader t leaders) b' s' in
        let g = following-Grows count i (add_leader f (add_leader t leaders)) s₂ in
        returns ((t, e, omega (arith, o, g' t, g t)), (f, e', omega (arith, o', g f)))
instruction_leaders-Aims defs count i InstructionKind.label inst leaders h s = returns tt
instruction_leaders-Aims defs count i InstructionKind.op inst leaders h s = returns tt
instruction_leaders-Aims defs count i InstructionKind.ret inst leaders h s = returns tt

All-Aims :
    (defs : Map Bytes ℕ) (leaders : List ℕ) (inst : Instruction) (insts : List Instruction)
    → Aims defs leaders inst
    → All (Aims defs leaders) insts
    → All (Aims defs leaders) (inst ∷ insts)
All-Aims defs leaders inst insts a as' = (a, as')

pub collect_leaders-Aims :
    (defs : Map Bytes ℕ) (count i : ℕ) (insts : List Instruction) (leaders : List ℕ)
    → Below count defs
    → Starts count leaders
    → Post
        (λ out. All (Aims defs out) insts)
        (λ _. Unit {0})
        (collect_leaders defs count i insts leaders)
unfolding collect_leaders
collect_leaders-Aims defs count i [] leaders h s = returns tt
collect_leaders-Aims defs count i (inst ∷ insts) leaders h s =
    Post-bind
      (Post-both (instruction_leaders-Leads defs count i inst.kind inst leaders h s)
        (instruction_leaders-Aims defs count i inst.kind inst leaders h s))
      λ next ((s', _), a).
        Post-map
          (λ out ((_, g), as').
            All-Aims defs out inst insts
              (Aimed-map (Led defs next) (Led defs out) inst.kind inst
                (λ name. Led-Grows defs next out name g) a)
              as')
          (Post-both (collect_leaders-Leads defs count (i + 1) insts next h s')
            (collect_leaders-Aims defs count (i + 1) insts next h s'))

-- ===== src/Tac/Validate/Blocks/Linked.antt =====
-- The second loop of `collectIRBlocks`, which gives each block its successors.
use wihajster.Common.{
  ℕ, ◌+◌, ◌-◌, ◌≤◌, ◌<◌, true, false, not, ◌||◌, List, [], ◌∷◌, length, get_elem?, ◌==◌, ◌≡◌, ◌⊎◌,
  ◌↔◌, refl, sym, arith, All, if_both, Bool-cases, Option-cases, inl, inr, some,
}
use wihajster.Common.Bytes.{Bytes}
use wihajster.Common.Maps.{
  Map, lookup, exists, assign, nat_eq, bytes_key, bytes_eq, bytes_eq_iff, AllValues,
  lookup-AllValues,
}
use wihajster.Common.Outcome.{ok}
use wihajster.Tac.Types.{InstructionKind, Instruction}
use wihajster.Tac.Validate.Labels.{Labels}
use wihajster.Tac.Validate.Blocks.{
  IrBlock, is_terminator, block_at, label_at, next_start, start_to_id, is_labelled, label_to_block,
  block_successors, block_end, link_blocks,
}
use wihajster.Tac.Validate.Blocks.Made.{Made}

exists-assign_kept :
    (k : Bytes) (v : ℕ) (name : Bytes) (m : Map Bytes ℕ)
    → exists name m ≡ true
    → exists name (assign k v m) ≡ true
unfolding exists lookup
exists-assign_kept k v name m h = elim (Bool-cases (bytes_eq k name)) [
  | inl e ↦ ground (arith, e)
  | inr e ↦ ground (arith, e, h)
]

exists-assign_self : (k : Bytes) (v : ℕ) (m : Map Bytes ℕ) → exists k (assign k v m) ≡ true
unfolding exists lookup
exists-assign_self k v m = ground (arith, (bytes_eq_iff k k).1 refl)

-- What the index of the labels has is kept, and each block's label is in it.
label_to_block-kept :
    (name : Bytes) (bs : List IrBlock) (index : Map Bytes ℕ)
    → exists name index ≡ true
    → exists name (label_to_block bs index) ≡ true
unfolding label_to_block
label_to_block-kept name [] index h = h
label_to_block-kept name (b ∷ bs) index h = elim (Bool-cases (is_labelled b.label)) [
  | inl e ↦ rw e (label_to_block-kept name bs _ (exists-assign_kept b.label b.id name index h))
  | inr e ↦ rw e (label_to_block-kept name bs index h)
]

abbrev pub Indexed : Map Bytes ℕ → IrBlock → Type 0
Indexed index b = (is_labelled b.label ≡ false) ⊎ (exists b.label index ≡ true)

pub label_to_block-Indexed :
    (all : Map Bytes ℕ) (bs : List IrBlock) (index : Map Bytes ℕ)
    → all ≡ label_to_block bs index
    → All (Indexed all) bs
unfolding label_to_block
label_to_block-Indexed all [] index p = tt
label_to_block-Indexed all (b ∷ bs) index p = elim (Bool-cases (is_labelled b.label)) [
  | inl e ↦
      let q : all ≡ label_to_block bs (assign b.label b.id index) = rw e at p in
      (
        inr (rw q (label_to_block-kept b.label bs _ (exists-assign_self b.label b.id index))),
        label_to_block-Indexed all bs _ q,
      )
  | inr e ↦
      let q : all ≡ label_to_block bs index = rw e at p in
      (inl e, label_to_block-Indexed all bs index q)
]

pub start_to_id-below :
    (insts : List Instruction) (id count : ℕ) (starts : List ℕ) (bs : List IrBlock)
    → Made insts id starts bs
    → id + length bs ≤ count
    → AllValues (λ i. i < count) (start_to_id bs)
unfolding start_to_id
start_to_id-below insts id count [] [] m h = tt
start_to_id-below insts id count [] (b ∷ bs) m h = absurd m
start_to_id-below insts id count (s ∷ ss) [] m h = absurd m
start_to_id-below insts id count (s ∷ ss) (b ∷ bs) (e, _, _, m) h =
    (omega (arith, e, h), start_to_id-below insts (id + 1) count ss bs m (omega (arith, h)))

abbrev pub Below : ℕ → IrBlock → Type 0
Below count b = All (λ s. s < count) b.successors

block_at-below :
    (start count : ℕ) (ids : Map ℕ ℕ)
    → 0 < count
    → AllValues (λ i. i < count) ids
    → block_at start ids < count
block_at-below start count ids h k = elim (Option-cases (lookup start ids)) [
  | inl e ↦ rw (e, block_at) h
  | inr (i, e) ↦ rw (e, block_at) (rw e at (lookup-AllValues (λ (i : ℕ). i < count) start ids k))
]

block_successors-below :
    (defs : Labels) (ids : Map ℕ ℕ) (count : ℕ) (k : InstructionKind) (last : Instruction)
    → 0 < count
    → AllValues (λ i. i < count) ids
    → All (λ s. s < count) (block_successors defs ids k last)
unfolding block_successors
block_successors-below defs ids count InstructionKind.jmp last h a =
    (block_at-below (label_at last.true_label.text defs) count ids h a, tt)
block_successors-below defs ids count InstructionKind.br last h a =
    let t = block_at-below (label_at last.true_label.text defs) count ids h a in
    let f = block_at-below (label_at last.false_label.text defs) count ids h a in
    if_both (All (λ s. s < count))
      (block_at (label_at last.true_label.text defs) ids
        == block_at (label_at last.false_label.text defs) ids)
      (t, tt) (t, (f, tt))
block_successors-below defs ids count _ last h a = tt

-- The last block, if there is one, ends in a terminator.
abbrev pub Ending : List IrBlock → Type 0
Ending [] = Unit
Ending (b ∷ []) = is_terminator b.terminator ≡ true
Ending (b ∷ c ∷ bs) = Ending (c ∷ bs)

block_end-Made :
    (insts : List Instruction) (id : ℕ) (starts : List ℕ) (bs : List IrBlock)
    → Made insts id starts bs
    → block_end (length insts) bs ≡ next_start (length insts) starts
block_end-Made insts id [] [] m = refl
block_end-Made insts id [] (b ∷ bs) m = absurd m
block_end-Made insts id (s ∷ ss) [] m = absurd m
block_end-Made insts id (s ∷ ss) (b ∷ bs) (_, e, _, _) = e

Ending-cons :
    (b b' : IrBlock) (bs bs' : List IrBlock)
    → b'.terminator ≡ b.terminator
    → length bs' ≡ length bs
    → Ending (b ∷ bs)
    → (Ending bs → Ending bs')
    → Ending (b' ∷ bs')
Ending-cons b b' [] [] e l h k = rw e h
Ending-cons b b' [] (_ ∷ bs') e l h k = absurd (omega (arith, l))
Ending-cons b b' (_ ∷ bs) [] e l h k = absurd (omega (arith, l))
Ending-cons b b' (c ∷ bs) (c' ∷ bs') e l h k = k h

label_check :
    (b : IrBlock) (index : Map Bytes ℕ)
    → Indexed index b
    → (not (is_labelled b.label) || exists b.label index) ≡ true
label_check b index (inl e) = rw e refl
label_check b index (inr e) = ground (arith, e)

pub link_blocks-Below :
    (insts : List Instruction) (defs : Labels) (ids : Map ℕ ℕ) (index : Map Bytes ℕ) (count id : ℕ)
    (starts : List ℕ) (bs : List IrBlock)
    → Made insts id starts bs
    → 0 < count
    → AllValues (λ i. i < count) ids
    → All (Indexed index) bs
    → (linked : List IrBlock) × (link_blocks insts defs ids index bs ≡ ok linked)
      × (length linked ≡ length bs)
      × All (Below count) linked
      × (Ending bs ↔ Ending linked)
      × (block_end (length insts) linked ≡ block_end (length insts) bs)
unfolding link_blocks
link_blocks-Below insts defs ids index count id [] [] m h a ix =
    ([], refl, refl, tt, ((λ e. e), λ e. e), refl)
link_blocks-Below insts defs ids index count id [] (b ∷ bs) m h a ix = absurd m
link_blocks-Below insts defs ids index count id (s ∷ ss) [] m h a ix = absurd m
link_blocks-Below insts defs ids index count id (s ∷ ss) (b ∷ bs) (_, es, (last, el, et), m) h a
      (i, ix) =
    let (rest, e, l, below, end, _) =
      link_blocks-Below insts defs ids index count (id + 1) ss bs m h a ix in
    let b' : IrBlock = record b { successors = block_successors defs ids last.kind last } in
    let el' : get_elem? insts (block_end (length insts) bs - 1) ≡ some last =
      rw (block_end-Made insts (id + 1) ss bs m) el in
    (
      b' ∷ rest,
      rw (el', label_check b index i, e) refl,
      omega (arith, l),
      (block_successors-below defs ids count last.kind last h a, below),
      (
        (λ x. Ending-cons b b' bs rest refl l x end.0),
        λ x. Ending-cons b' b rest bs refl (sym l) x end.1,
      ),
      refl,
    )

-- ===== src/Tac/Cfg/Flows.antt =====
-- The successors that `Build` gives to its blocks.
use wihajster.Common.{
  ℕ, zero, suc, ◌+◌, ◌-◌, List, [], ◌∷◌, length, get_elem?, Option, none, some, ltb, ◌==◌,
  if◌then◌else◌, ◌≡◌, refl, ap, arith, All,
}
use wihajster.Common.Bytes.{Bytes}
use wihajster.Common.Maps.{Map, bytes_key, nat_eq}
use wihajster.Common.Outcome.{found, Post, returns, raises, Post-bind, Post-true}
use wihajster.Tac.Types.{InstructionKind, Instruction}
use wihajster.Tac.Validate.Sorted.{occurrences}
use wihajster.Tac.Cfg.Leaders.{BuildError}
use wihajster.Tac.Cfg.Graph.{
  BasicBlock, start_to_block, target_block, successors_of, check_positions, link_successors,
}
use wihajster.Tac.Cfg.Aims.{Opens, Defined, Aimed, Led, Aims}
use wihajster.Tac.Cfg.Pieces.{Pieces, no_piece, a_piece, start_to_block-Pieces}

-- The instructions of each block.
abbrev pub bodies : List BasicBlock → List (List Instruction)
bodies [] = []
bodies (b ∷ bs) = b.instructions ∷ bodies bs

-- Block `s` begins with the label of that name.
abbrev pub Target : List (List Instruction) → ℕ → Bytes → Type 0
Target code s name =
    (body : List Instruction) × (get_elem? code s ≡ some body) × Opens name (get_elem? body 0)

-- The successors of block `i` by its last instruction: of a jump, the block that begins with its
-- label; of a branch, the two blocks, or the one if they are the same; of a return, none; else the
-- next block, if there is one.
abbrev pub Flow : List (List Instruction) → ℕ → InstructionKind → Instruction → List ℕ → Type 0
Flow code i InstructionKind.jmp last succs =
    (s : ℕ) × (succs ≡ s ∷ []) × Target code s last.true_label.text
Flow code i InstructionKind.br last succs =
    (t : ℕ) × (f : ℕ) × (succs ≡ (if f == t then t ∷ [] else t ∷ f ∷ []))
    × Target code t last.true_label.text
    × Target code f last.false_label.text
Flow code i InstructionKind.ret last succs = succs ≡ []
Flow code i _ last succs = succs ≡ (if ltb (i + 1) (length code) then (i + 1) ∷ [] else [])

-- The blocks from block `i` on have a last instruction and its successors.
abbrev pub AllFlow : List (List Instruction) → ℕ → List BasicBlock → Type 0
AllFlow code i [] = Unit
AllFlow code i (b ∷ bs) =
    ((last : Instruction) × (get_elem? b.instructions (length b.instructions - 1) ≡ some last)
      × Flow code i last.kind last b.successors)
    × AllFlow code (i + 1) bs

pub record Flows (code : List (List Instruction)) (i : ℕ) (bs : List BasicBlock) : Type 0 where
  pub each : AllFlow code i bs

pub length-bodies : (bs : List BasicBlock) → length (bodies bs) ≡ length bs
length-bodies [] = refl
length-bodies (b ∷ bs) = let e = length-bodies bs in omega (arith, e)

get-bodies :
    (bs : List BasicBlock) (n : ℕ) (b : BasicBlock)
    → get_elem? bs n ≡ some b
    → get_elem? (bodies bs) n ≡ some b.instructions
get-bodies [] n b e = cc
get-bodies (a ∷ bs) zero b e = cc (e)
get-bodies (a ∷ bs) (suc n) b e = get-bodies bs n b e

-- The block of a label whose index is a leader begins with that label.
pub Led-Target :
    (insts : List Instruction) (P : Instruction → Type 0) (defs : Map Bytes ℕ)
    (leaders starts : List ℕ) (blocks : List BasicBlock) (name : Bytes)
    → Defined insts defs
    → ((n : ℕ) → occurrences n starts ≡ occurrences n leaders)
    → Pieces insts P 0 starts blocks
    → Led defs leaders name
    → Target (bodies blocks) (target_block defs (start_to_block blocks) name) name
Led-Target insts P defs leaders starts blocks name d same p (j, e, o) =
    let (n, b, k, g, first) =
      start_to_block-Pieces insts P 0 j starts blocks p (omega (arith, o, same j)) in
    let z : 0 + n ≡ n = omega arith in
    let here : target_block defs (start_to_block blocks) name ≡ n = rw (e, k) z in
    rw here (b.instructions, get-bodies blocks n b g, rw first (d.opens name j e))

All-get :
    {A : Type 0} (P : A → Type 0) (xs : List A) (i : ℕ) (x : A)
    → All P xs
    → get_elem? xs i ≡ some x
    → P x
All-get P [] i x h e = cc
All-get P (y ∷ xs) zero x (p, h) e = let s : y ≡ x = cc in rw s at p
All-get P (y ∷ xs) (suc i) x (p, h) e = All-get P xs i x h e

module _ (defs : Map Bytes ℕ) (leaders : List ℕ) (starts : Map ℕ ℕ) (code : List (List Instruction))
    (count : ℕ) (same : count ≡ length code)
    (hit : (name : Bytes)
      → Led defs leaders name
      → Target code (target_block defs starts name) name) where
  successors_of-Flow :
      (i : ℕ) (k : InstructionKind) (last : Instruction)
      → Aimed (Led defs leaders) k last
      → Flow code i k last (successors_of defs starts count i k last)
  unfolding successors_of
  successors_of-Flow i InstructionKind.jmp last a = (_, refl, hit last.true_label.text a)
  successors_of-Flow i InstructionKind.br last (a, b) =
      (_, _, refl, hit last.true_label.text a, hit last.false_label.text b)
  successors_of-Flow i InstructionKind.ret last a = refl
  successors_of-Flow i InstructionKind.label last a = rw same refl
  successors_of-Flow i InstructionKind.op last a = rw same refl

  -- As many bodies as before, and the successors.
  pub record Linkage (i : ℕ) (bs out : List BasicBlock) : Type 0 where
    pub kept : bodies out ≡ bodies bs
    pub flows : AllFlow code i out

  Linkage-cons :
      (i : ℕ) (b : BasicBlock) (bs rest : List BasicBlock) (last : Instruction)
      → get_elem? b.instructions (length b.instructions - 1) ≡ some last
      → Aims defs leaders last
      → Linkage (i + 1) bs rest
      → Linkage i
          (b ∷ bs)
          (record b { successors = successors_of defs starts count i last.kind last } ∷ rest)
  Linkage-cons i b bs rest last e a l = record {
    kept = ap (λ c. b.instructions ∷ c) l.kept;
    flows = ((last, e, successors_of-Flow i last.kind last a), l.flows);
  }

  last-Found :
      (insts : List Instruction) (i : ℕ)
      → Post
          (λ last. get_elem? insts i ≡ some last)
          (λ _. Unit {0})
          (found (get_elem? insts i) BuildError.index_panic)
  last-Found insts i = by_option (get_elem? insts i)
    where
      by_option :
          (o : Option Instruction)
          → Post (λ last. o ≡ some last) (λ _. Unit {0}) (found o BuildError.index_panic)
      by_option none = raises tt
      by_option (some last) = returns refl

  pub link_successors-Linkage :
      (insts : List Instruction) (i id : ℕ) (ss : List ℕ) (bs : List BasicBlock)
      → Pieces insts (Aims defs leaders) id ss bs
      → Post (Linkage i bs) (λ _. Unit {0}) (link_successors defs starts count i bs)
  unfolding link_successors
  link_successors-Linkage insts i id _ _ no_piece = returns (record { kept = refl; flows = tt })
  link_successors-Linkage insts i id _ _ (a_piece {b} {starts = ss} {bs} e f a p) =
      Post-bind (last-Found b.instructions (length b.instructions - 1)) λ last g.
        Post-bind (Post-true (check_positions b.start b.instructions)) λ _ _.
          Post-bind (link_successors-Linkage insts (i + 1) (b.id + 1) ss bs p) λ rest l. returns (
            Linkage-cons i b bs rest last g
              (All-get (Aims defs leaders) b.instructions (length b.instructions - 1) last a g) l)

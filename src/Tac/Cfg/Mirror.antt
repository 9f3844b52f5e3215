-- ===== src/Tac/Cfg/Mirror.antt =====
-- The last loop of `Build`, which gives each block its predecessors.
use wihajster.Common.{
  ℕ, zero, suc, ◌&&◌, ◌+◌, ◌-◌, ◌≤◌, List, [], ◌∷◌, ◌++◌, length, get_elem?, ◌==◌, leb, ltb, take,
  drop, if◌then◌else◌, ◌≡◌, refl, ◌∙◌, arith, All, Bool-cases, inl, inr,
}
use wihajster.Common.Bytes.{Bytes}
use wihajster.Common.Maps.{Map}
use wihajster.Common.Outcome.{check, found, Post, returns, raises, Post-bind, Post-map, Post-true}
use wihajster.Tac.Types.{Instruction, Function}
use wihajster.Tac.Validate.{validate_function, sort_starts}
use wihajster.Tac.Validate.Sorted.{occurrences}
use wihajster.Tac.Validate.Collects.{occurrences-append}
use wihajster.Tac.Validate.Blocks.{next_start}
use wihajster.Tac.Cfg.Leaders.{BuildError, index_labels, collect_leaders}
use wihajster.Tac.Cfg.Graph.{
  BasicBlock, slice_blocks, start_to_block, link_successors, add_predecessor, add_predecessors,
  link_predecessors, check_positions, build_blocks, build, validated,
}

-- How often `j` is a predecessor of block `k`, and `k` a successor of block `j`.
abbrev pub preds : ℕ → ℕ → List BasicBlock → ℕ
preds j k [] = 0
preds j zero (b ∷ bs) = occurrences j b.predecessors
preds j (suc k) (b ∷ bs) = preds j k bs

abbrev pub succs : ℕ → ℕ → List BasicBlock → ℕ
succs k j [] = 0
succs k zero (b ∷ bs) = occurrences k b.successors
succs k (suc j) (b ∷ bs) = succs k j bs

abbrev pub Mirrored : List BasicBlock → Type 0
Mirrored blocks = (j k : ℕ) → preds j k blocks ≡ succs k j blocks

Same : List BasicBlock → List BasicBlock → Type 0
Same a b = (k j : ℕ) → succs k j b ≡ succs k j a

abbrev one_if : ℕ → ℕ → ℕ
one_if a b = if a == b then 1 else 0

add_predecessor-preds :
    (i s : ℕ) (bs : List BasicBlock)
    → Post
        (λ bs'.
          Same bs bs'
          × ((j k : ℕ) → preds j k bs' ≡ preds j k bs + (if s == k then one_if i j else 0)))
        (λ _. Unit {0})
        (add_predecessor i s bs)
unfolding add_predecessor Same
add_predecessor-preds i s [] = raises tt
add_predecessor-preds i zero (b ∷ bs) = returns (same, counts)
  where
    same :
        (k j : ℕ)
        → succs k j (record b { predecessors = b.predecessors ++ (i ∷ []) } ∷ bs)
          ≡ succs k j (b ∷ bs)
    same k zero = refl
    same k (suc j) = refl

    counts :
        (j k : ℕ)
        → preds j k (record b { predecessors = b.predecessors ++ (i ∷ []) } ∷ bs)
          ≡ preds j k (b ∷ bs) + (if 0 == k then one_if i j else 0)
    counts j zero = ground (arith, occurrences-append j b.predecessors (i ∷ []))
    counts j (suc k) = ground arith
add_predecessor-preds i (suc s) (b ∷ bs) =
    Post-bind (add_predecessor-preds i s bs) λ bs' (p, q). returns (same bs' p, counts bs' q)
  where
    same :
        (bs' : List BasicBlock) → Same bs bs' → (k j : ℕ) → succs k j (b ∷ bs') ≡ succs k j (b ∷ bs)
    same bs' p k zero = refl
    same bs' p k (suc j) = p k j

    counts :
        (bs' : List BasicBlock)
        → ((j k : ℕ) → preds j k bs' ≡ preds j k bs + (if s == k then one_if i j else 0))
        → (j k : ℕ)
        → preds j k (b ∷ bs') ≡ preds j k (b ∷ bs) + (if suc s == k then one_if i j else 0)
    counts bs' q j zero = ground arith
    counts bs' q j (suc k) = ground (arith, q j k)

add_predecessors-preds :
    (i : ℕ) (ss : List ℕ) (bs : List BasicBlock)
    → Post
        (λ bs'.
          Same bs bs'
          × ((j k : ℕ) → preds j k bs' ≡ preds j k bs + (if i == j then occurrences k ss else 0)))
        (λ _. Unit {0})
        (add_predecessors i ss bs)
unfolding add_predecessors Same
add_predecessors-preds i [] bs = returns ((λ k j. refl), λ j k. ground arith)
add_predecessors-preds i (s ∷ ss) bs = Post-bind (add_predecessor-preds i s bs) λ bs₁ (p, q).
    Post-map (λ bs₂ (p', q'). ((λ k j. p' k j ∙ p k j), λ j k. ground (arith, q j k, q' j k)))
      (add_predecessors-preds i ss bs₁)

-- The successors of block `j`, of those from block `i` on.
succs-at :
    (b : BasicBlock) (bs : List BasicBlock) (i j k : ℕ)
    → i ≤ j
    → succs k (j - i) (b ∷ bs)
      ≡ (if i == j then occurrences k b.successors else succs k (j - (i + 1)) bs)
succs-at b bs i j k h = elim (Bool-cases (i == j)) [
  | inl e ↦ let z : j - i ≡ 0 = ground arith in rw (e, z) refl
  | inr e ↦ let z : j - i ≡ suc (j - (i + 1)) = ground arith in rw (e, z) refl
]

link_predecessors-preds :
    (i : ℕ) (bs blocks : List BasicBlock)
    → Post
        (λ out.
          Same blocks out
          × ((j k : ℕ)
              → preds j k out ≡ preds j k blocks + (if leb i j then succs k (j - i) bs else 0)))
        (λ _. Unit {0})
        (link_predecessors i bs blocks)
unfolding link_predecessors Same
link_predecessors-preds i [] blocks = returns ((λ k j. refl), λ j k. ground arith)
link_predecessors-preds i (b ∷ bs) blocks =
    Post-bind (add_predecessors-preds i b.successors blocks) λ blocks₁ (p, q).
      Post-map
        (λ out (p', q'). ((λ k j. p' k j ∙ p k j), λ j k. counts blocks₁ out j k (q j k) (q' j k)))
        (link_predecessors-preds (i + 1) bs blocks₁)
  where
    counts :
        (blocks₁ out : List BasicBlock) (j k : ℕ)
        → preds j k blocks₁ ≡ preds j k blocks + (if i == j then occurrences k b.successors else 0)
        → preds j k out
          ≡ preds j k blocks₁ + (if leb (i + 1) j then succs k (j - (i + 1)) bs else 0)
        → preds j k out ≡ preds j k blocks + (if leb i j then succs k (j - i) (b ∷ bs) else 0)
    counts blocks₁ out j k q q' = ground (arith, q, q', succs-at b bs i j k)

record NoPreds (bs : List BasicBlock) : Type 0 where
  empty : All (λ (b : BasicBlock). b.predecessors ≡ []) bs

NoPreds-preds : (bs : List BasicBlock) → NoPreds bs → (j k : ℕ) → preds j k bs ≡ 0
NoPreds-preds [] h j k = refl
NoPreds-preds (b ∷ bs) n j zero = let (h, _) = n.empty in rw h refl
NoPreds-preds (b ∷ bs) n j (suc k) =
    let (_, hs) = n.empty in NoPreds-preds bs (record { empty = hs }) j k

NoPreds-cons :
    {b : BasicBlock} {bs : List BasicBlock} → b.predecessors ≡ [] → NoPreds bs → NoPreds (b ∷ bs)
NoPreds-cons h n = record { empty = (h, n.empty) }

slice_blocks-NoPreds :
    (insts : List Instruction) (id : ℕ) (starts : List ℕ)
    → Post NoPreds (λ _. Unit {0}) (slice_blocks insts id starts)
unfolding slice_blocks
slice_blocks-NoPreds insts id [] = returns (record { empty = tt })
slice_blocks-NoPreds insts id (start ∷ starts) =
    let end = next_start (length insts) starts in
    Post-bind (Post-true (check (leb start end && leb end (length insts)) BuildError.index_panic))
      λ _ _.
        Post-bind
          (Post-true (
            check (ltb 0 (length (take (end - start) (drop start insts))))
              (BuildError.empty_block start)))
          λ _ _.
            Post-bind (slice_blocks-NoPreds insts (id + 1) starts)
              λ rest h. returns (NoPreds-cons refl h)

link_successors-NoPreds :
    (defs : Map Bytes ℕ) (starts : Map ℕ ℕ) (count i : ℕ) (bs : List BasicBlock)
    → NoPreds bs
    → Post NoPreds (λ _. Unit {0}) (link_successors defs starts count i bs)
unfolding link_successors
link_successors-NoPreds defs starts count i [] h = returns h
link_successors-NoPreds defs starts count i (b ∷ bs) n =
    Post-bind
      (Post-true
        (found (get_elem? b.instructions (length b.instructions - 1)) BuildError.index_panic))
      λ _ _. Post-bind (Post-true (check_positions b.start b.instructions)) λ _ _.
        let (h, hs) = n.empty in
        Post-bind (link_successors-NoPreds defs starts count (i + 1) bs (record { empty = hs }))
          λ rest k. returns (NoPreds-cons h k)

build_blocks-Mirrored :
    (fn : Function) (insts : List Instruction)
    → Post (λ g. Mirrored g.blocks) (λ _. Unit {0}) (build_blocks fn insts)
unfolding build_blocks Same
build_blocks-Mirrored fn [] = returns (λ j k. refl)
build_blocks-Mirrored fn (inst ∷ insts) =
    Post-bind (Post-true (index_labels 0 (inst ∷ insts) [])) λ defs _.
      Post-bind (Post-true (collect_leaders defs (length (inst ∷ insts)) 0 (inst ∷ insts) (0 ∷ [])))
        λ leaders _.
          Post-bind (slice_blocks-NoPreds (inst ∷ insts) 0 (sort_starts leaders)) λ blocks h.
            Post-bind
              (link_successors-NoPreds defs (start_to_block blocks) (length blocks) 0 blocks h)
              λ linked n. Post-bind (link_predecessors-preds 0 linked linked) λ all (same, counts).
                returns (λ j k. ground (arith, counts j k, same k j, NoPreds-preds linked n j k))

-- In a graph that `Build` returns, block `j` stands among the predecessors of block `k` as often as
-- block `k` among the successors of block `j`.
pub build-Mirrored : (fn : Function) → Post (λ g. Mirrored g.blocks) (λ _. Unit {0}) (build fn)
unfolding build
build-Mirrored fn =
    Post-bind (Post-true (validated (validate_function fn)))
      λ _ _. build_blocks-Mirrored fn fn.instructions

-- ===== src/Tac/Cfg/Cutting.antt =====
-- The instructions of the blocks of `Build`.
use wihajster.Common.{
  ℕ, zero, suc, ◌&&◌, leb, ◌+◌, ◌-◌, ◌≤◌, ◌<◌, List, [], ◌∷◌, ◌++◌, length, take, drop, get_elem?,
  ltb, ◌≡◌, refl, sym, ap, ◌∙◌, arith, All,
}
use wihajster.Common.Bytes.{Bytes}
use wihajster.Common.Maps.{Map, bytes_key}
use wihajster.Common.Outcome.{check, found, Post, returns, raises, Post-bind, Post-true, Post-check}
use wihajster.Tac.Types.{Instruction, Function}
use wihajster.Tac.Validate.{validate_function, sort_starts}
use wihajster.Tac.Validate.Sorted.{sort_starts-Ascending, sort_starts-All}
use wihajster.Tac.Validate.Collects.{Starts}
use wihajster.Tac.Validate.Blocks.{next_start}
use wihajster.Tac.Validate.Blocks.Made.{Rising, Ascending-Rising, next_start-after}
use wihajster.Tac.Validate.Blocks.Checked.{Rising-zero}
use wihajster.Tac.Cfg.Leaders.{BuildError}
use wihajster.Tac.Cfg.Graph.{
  BasicBlock, slice_blocks, start_to_block, link_successors, check_positions, add_predecessor,
  add_predecessors, link_predecessors, build_blocks, build, validated,
}
use wihajster.Tac.Cfg.Partition.{index_labels-Below, Leads, collect_leaders-Leads}

-- The instructions of blocks, one block after another.
abbrev pub instructions_of : List BasicBlock → List Instruction
instructions_of [] = []
instructions_of (b ∷ bs) = b.instructions ++ instructions_of bs

-- Blocks that cut `insts` into pieces, none of them empty.
pub record Cuts (insts : List Instruction) (bs : List BasicBlock) : Type 0 where
  pub pieces : instructions_of bs ≡ insts
  pub filled : All (λ (b : BasicBlock). 0 < length b.instructions) bs

take-drop : {A : Type 0} (n : ℕ) (xs : List A) → take n xs ++ drop n xs ≡ xs
take-drop zero xs = refl
take-drop (suc n) [] = refl
take-drop (suc n) (x ∷ xs) = ap (λ l. x ∷ l) (take-drop n xs)

drop_nil : {A : Type 0} (k : ℕ) → drop {A = A} k [] ≡ []
drop_nil zero = refl
drop_nil (suc k) = refl

drop-drop : {A : Type 0} (m n : ℕ) (xs : List A) → drop m (drop n xs) ≡ drop (n + m) xs
drop-drop m zero xs = ap (λ k. drop k xs) (let e : m ≡ 0 + m = omega arith in e)
drop-drop m (suc n) [] = drop_nil m ∙ sym (drop_nil (suc n + m))
drop-drop m (suc n) (x ∷ xs) =
    let e : suc n + m ≡ suc (n + m) = omega arith in rw e (drop-drop m n xs)

drop-length : {A : Type 0} (xs : List A) → drop (length xs) xs ≡ []
drop-length [] = refl
drop-length (x ∷ xs) =
    let e : length (x ∷ xs) ≡ suc (length xs) = omega arith in rw e (drop-length xs)

cut-at :
    {A : Type 0} (s n : ℕ) (xs : List A) → s ≤ n → take (n - s) (drop s xs) ++ drop n xs ≡ drop s xs
cut-at s n xs h =
    let e : n ≡ s + (n - s) = omega (arith, h) in
    ap (λ l. take (n - s) (drop s xs) ++ l) (ap (λ k. drop k xs) e ∙ sym (drop-drop (n - s) s xs))
    ∙ take-drop (n - s) (drop s xs)

Cuts-cons :
    {b : BasicBlock} {bs : List BasicBlock} {insts rest : List Instruction}
    → b.instructions ++ rest ≡ insts
    → 0 < length b.instructions
    → Cuts rest bs
    → Cuts insts (b ∷ bs)
Cuts-cons {b} h f c = record {
  pieces = ap (λ l. b.instructions ++ l) c.pieces ∙ h;
  filled = (f, c.filled);
}

slice_blocks-Cuts :
    (insts : List Instruction) (id : ℕ) (starts : List ℕ)
    → All (λ s. s < length insts) starts
    → Rising starts
    → Post
        (Cuts (drop (next_start (length insts) starts) insts))
        (λ _. Unit {0})
        (slice_blocks insts id starts)
unfolding slice_blocks
slice_blocks-Cuts insts id [] b r =
    returns (record { pieces = sym (drop-length insts); filled = tt })
slice_blocks-Cuts insts id (start ∷ starts) (b, bs) (r, rs) =
    let end = next_start (length insts) starts in
    let (after, within) = next_start-after (length insts) start starts b bs r in
    Post-bind (Post-true (check (leb start end && leb end (length insts)) BuildError.index_panic))
      λ _ _.
        Post-bind
          (Post-check (BuildError.empty_block start)
            (ltb 0 (length (take (end - start) (drop start insts)))) tt)
          λ _ f. Post-bind (slice_blocks-Cuts insts (id + 1) starts bs rs) λ rest c.
            returns
              (Cuts-cons (cut-at start end insts (omega (arith, after))) (ground (arith, f)) c)

link_successors-Cuts :
    (defs : Map Bytes ℕ) (starts : Map ℕ ℕ) (count i : ℕ) (bs : List BasicBlock)
    (insts : List Instruction)
    → Cuts insts bs
    → Post (Cuts insts) (λ _. Unit {0}) (link_successors defs starts count i bs)
unfolding link_successors
link_successors-Cuts defs starts count i [] insts c = returns c
link_successors-Cuts defs starts count i (b ∷ bs) insts c =
    Post-bind
      (Post-true
        (found (get_elem? b.instructions (length b.instructions - 1)) BuildError.index_panic))
      λ _ _. Post-bind (Post-true (check_positions b.start b.instructions)) λ _ _.
        let (f, fs) = c.filled in
        Post-bind
          (link_successors-Cuts defs starts count (i + 1) bs (instructions_of bs)
            (record { pieces = refl; filled = fs }))
          λ rest k. returns (Cuts-cons c.pieces f k)

add_predecessor-Cuts :
    (i succ : ℕ) (bs : List BasicBlock) (insts : List Instruction)
    → Cuts insts bs
    → Post (Cuts insts) (λ _. Unit {0}) (add_predecessor i succ bs)
unfolding add_predecessor
add_predecessor-Cuts i succ [] insts c = raises tt
add_predecessor-Cuts i zero (b ∷ bs) insts c =
    returns (record { pieces = c.pieces; filled = c.filled })
add_predecessor-Cuts i (suc succ) (b ∷ bs) insts c =
    let (f, fs) = c.filled in
    Post-bind
      (add_predecessor-Cuts i succ bs (instructions_of bs) (record { pieces = refl; filled = fs }))
      λ rest k. returns (Cuts-cons c.pieces f k)

add_predecessors-Cuts :
    (i : ℕ) (succs : List ℕ) (bs : List BasicBlock) (insts : List Instruction)
    → Cuts insts bs
    → Post (Cuts insts) (λ _. Unit {0}) (add_predecessors i succs bs)
unfolding add_predecessors
add_predecessors-Cuts i [] bs insts c = returns c
add_predecessors-Cuts i (succ ∷ succs) bs insts c =
    Post-bind (add_predecessor-Cuts i succ bs insts c)
      λ bs' c'. add_predecessors-Cuts i succs bs' insts c'

link_predecessors-Cuts :
    (i : ℕ) (bs blocks : List BasicBlock) (insts : List Instruction)
    → Cuts insts blocks
    → Post (Cuts insts) (λ _. Unit {0}) (link_predecessors i bs blocks)
unfolding link_predecessors
link_predecessors-Cuts i [] blocks insts c = returns c
link_predecessors-Cuts i (b ∷ bs) blocks insts c =
    Post-bind (add_predecessors-Cuts i b.successors blocks insts c)
      λ blocks' c'. link_predecessors-Cuts (i + 1) bs blocks' insts c'

-- The sorted leaders rise from 0.
pub sorted-Rising :
    (count : ℕ) (leaders : List ℕ)
    → Leads count (0 ∷ []) leaders
    → Rising (sort_starts leaders)
      × All (λ s. s < count) (sort_starts leaders)
      × (next_start count (sort_starts leaders) ≡ 0)
sorted-Rising count leaders (s, g) =
    let (up, same) = sort_starts-Ascending leaders in
    let rising =
      Ascending-Rising (sort_starts leaders) up (λ n. omega (arith, same n, s.single n)) in
    let (ss, first) = Rising-zero (sort_starts leaders) rising (ground (arith, same 0, g 0)) in
    (rising, sort_starts-All (λ s. s < count) leaders s.below, rw first refl)

pub zero-Starts : (count : ℕ) → 0 < count → Starts count (0 ∷ [])
zero-Starts count h = record { below = (h, tt); single = λ n. ground arith }

build_blocks-Cuts :
    (fn : Function) (insts : List Instruction)
    → Post (λ g. Cuts insts g.blocks) (λ _. Unit {0}) (build_blocks fn insts)
unfolding build_blocks
build_blocks-Cuts fn [] = returns (record { pieces = refl; filled = tt })
build_blocks-Cuts fn (inst ∷ insts) =
    let all = inst ∷ insts in
    Post-bind (index_labels-Below (length all) 0 all [] (omega arith) tt) λ defs d.
      Post-bind
        (collect_leaders-Leads defs (length all) 0 all (0 ∷ []) d
          (zero-Starts (length all) (omega arith)))
        λ leaders l.
          let (rising, below, first) = sorted-Rising (length all) leaders l in
          Post-bind (rw first at (slice_blocks-Cuts all 0 (sort_starts leaders) below rising))
            λ blocks c.
              Post-bind
                (link_successors-Cuts defs (start_to_block blocks) (length blocks) 0 blocks all c)
                λ linked c'.
                  Post-bind (link_predecessors-Cuts 0 linked linked all c') λ out k. returns k

-- The blocks of a graph that `Build` returns, one after the other, hold the instructions of the
-- function in their order, and no block is empty.
pub build-Cuts :
    (fn : Function) → Post (λ g. Cuts fn.instructions g.blocks) (λ _. Unit {0}) (build fn)
unfolding build
build-Cuts fn =
    Post-bind (Post-true (validated (validate_function fn)))
      λ _ _. build_blocks-Cuts fn fn.instructions

-- ===== src/Tac/Cfg/Pieces.antt =====
-- The blocks that `Build` cuts between the leaders, and the block that begins at a leader.
use wihajster.Common.{
  ℕ, zero, suc, ◌&&◌, ◌+◌, ◌-◌, ◌<◌, true, List, [], ◌∷◌, length, get_elem?, take, drop, leb, ltb,
  ◌==◌, ==_iff, some, ◌≡◌, refl, ap, ◌∙◌, arith, All, Bool-cases, inl, inr,
}
use wihajster.Common.Maps.{lookup, nat_eq}
use wihajster.Common.Outcome.{check, Post, returns, Post-bind, Post-check}
use wihajster.Tac.Types.{Instruction}
use wihajster.Tac.Validate.Sorted.{occurrences}
use wihajster.Tac.Validate.Blocks.{next_start}
use wihajster.Tac.Validate.Blocks.Made.{Rising, next_start-after}
use wihajster.Tac.Cfg.Leaders.{BuildError}
use wihajster.Tac.Cfg.Graph.{BasicBlock, slice_blocks, start_to_block}
use wihajster.Tac.Cfg.Panics.{NoPanic, Numbered, no_block, a_block}

-- Blocks from number `id` on that begin at the starts, are not empty, and hold instructions that
-- satisfy `P`.
pub data Pieces (insts : List Instruction) (P : Instruction → Type 0)
    : ℕ → List ℕ → List BasicBlock → Type 0 where
  no_piece : {id : ℕ} → Pieces insts P id [] []
  a_piece :
      {b : BasicBlock} {starts : List ℕ} {bs : List BasicBlock}
      → get_elem? b.instructions 0 ≡ get_elem? insts b.start
      → 0 < length b.instructions
      → All P b.instructions
      → Pieces insts P (b.id + 1) starts bs
      → Pieces insts P b.id (b.start ∷ starts) (b ∷ bs)

pub Pieces-Numbered :
    {insts : List Instruction} {P : Instruction → Type 0} {id : ℕ} {starts : List ℕ}
    {bs : List BasicBlock}
    → Pieces insts P id starts bs
    → Numbered id bs
Pieces-Numbered no_piece = no_block
Pieces-Numbered (a_piece e f a p) = a_block f (Pieces-Numbered p)

All-drop : {A : Type 0} (P : A → Type 0) (n : ℕ) (xs : List A) → All P xs → All P (drop n xs)
All-drop P zero xs h = h
All-drop P (suc n) [] h = tt
All-drop P (suc n) (x ∷ xs) (_, h) = All-drop P n xs h

All-take : {A : Type 0} (P : A → Type 0) (n : ℕ) (xs : List A) → All P xs → All P (take n xs)
All-take P zero xs h = tt
All-take P (suc n) [] h = tt
All-take P (suc n) (x ∷ xs) (p, h) = (p, All-take P n xs h)

first-take : {A : Type 0} (n : ℕ) (xs : List A) → 0 < n → get_elem? (take n xs) 0 ≡ get_elem? xs 0
first-take zero xs h = absurd (omega (arith, h))
first-take (suc n) [] h = refl
first-take (suc n) (x ∷ xs) h = refl

first-drop : {A : Type 0} (n : ℕ) (xs : List A) → get_elem? (drop n xs) 0 ≡ get_elem? xs n
first-drop zero xs = refl
first-drop (suc n) [] = refl
first-drop (suc n) (x ∷ xs) = first-drop n xs

-- A check that passes.
check-passes :
    {E : Type 0} {Q : E → Type 0} (b : _) (e : E) → b ≡ true → Post (λ _. Unit {0}) Q (check b e)
check-passes b e h = rw h (returns tt)

pub slice_blocks-Pieces :
    (insts : List Instruction) (P : Instruction → Type 0) (id : ℕ) (starts : List ℕ)
    → All P insts
    → All (λ s. s < length insts) starts
    → Rising starts
    → Post (Pieces insts P id starts) NoPanic (slice_blocks insts id starts)
unfolding slice_blocks
slice_blocks-Pieces insts P id [] a b r = returns no_piece
slice_blocks-Pieces insts P id (start ∷ starts) a (b, bs) (r, rs) =
    let end = next_start (length insts) starts in
    let (after, within) = next_start-after (length insts) start starts b bs r in
    let body = take (end - start) (drop start insts) in
    let first : get_elem? body 0 ≡ get_elem? insts start =
      first-take (end - start) (drop start insts) (omega (arith, after)) ∙ first-drop start insts in
    Post-bind
      (check-passes (leb start end && leb end (length insts)) BuildError.index_panic
        (ground (arith, after, within)))
      λ _ _. Post-bind (Post-check (BuildError.empty_block start) (ltb 0 (length body)) tt) λ _ f.
        Post-bind (slice_blocks-Pieces insts P (id + 1) starts a bs rs) λ rest p. returns (
          a_piece first (ground (arith, f))
            (All-take P (end - start) (drop start insts) (All-drop P start insts a)) p)

-- `startToBlock` gives, for each start, the number of a block that begins there.
pub start_to_block-Pieces :
    (insts : List Instruction) (P : Instruction → Type 0) (id j : ℕ) (starts : List ℕ)
    (bs : List BasicBlock)
    → Pieces insts P id starts bs
    → 0 < occurrences j starts
    → (n : ℕ) × (b : BasicBlock) × (lookup j (start_to_block bs) ≡ some (id + n))
      × (get_elem? bs n ≡ some b)
      × (get_elem? b.instructions 0 ≡ get_elem? insts j)
unfolding start_to_block lookup
start_to_block-Pieces insts P id j _ _ no_piece h = absurd (omega (arith, h))
start_to_block-Pieces insts P id j _ _ (a_piece {b} {starts} {bs} e f a p) h =
    elim (Bool-cases (b.start == j)) [
      | inl same ↦
          let z : b.id ≡ b.id + 0 = omega arith in
          (0, b, rw same (ap (λ k. some k) z), refl, rw ((==_iff b.start j).0 same) at e)
      | inr other ↦
          let (n, c, k, g, o) =
            start_to_block-Pieces insts P (b.id + 1) j starts bs p (ground (arith, h, other)) in
          let z : b.id + 1 + n ≡ b.id + suc n = omega arith in
          (suc n, c, rw other (rw z at k), g, o)
    ]

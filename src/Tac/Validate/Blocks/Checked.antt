-- ===== src/Tac/Validate/Blocks/Checked.antt =====
-- The blocks of code that covers its starts, and the last loop of `ValidateFunctionIR` on them.
use wihajster.Common.{
  ℕ, zero, suc, ◌+◌, ◌-◌, ◌<◌, true, ◌||◌, List, [], ◌∷◌, length, get_elem?, ltb, ◌≡◌, ◌↔◌, refl,
  sym, ◌∙◌, arith, All, some,
}
use wihajster.Common.Bytes.{Bytes}
use wihajster.Common.Outcome.{ok, Post, returns, Post-bind, Post-check, Post-true}
use wihajster.Tac.Types.{Instruction}
use wihajster.Tac.Code.{is_jump, ends, uses}
use wihajster.Tac.Validate.Labels.{Labels}
use wihajster.Tac.Validate.Starts.{sort_starts}
use wihajster.Tac.Validate.Sorted.{occurrences, sort_starts-Ascending, sort_starts-All}
use wihajster.Tac.Validate.Collects.{Found, collect_starts_complete}
use wihajster.Tac.Validate.Blocks.{
  IrBlock, is_terminator, start_to_id, label_to_block, link_blocks, block_end, collect_blocks,
  check_successors, check_blocks, check_entry,
}
use wihajster.Tac.Validate.Blocks.Made.{
  Made, Rising, Ascending-Rising, Rest, make_blocks-Made, is_terminator-is_jump,
}
use wihajster.Tac.Validate.Blocks.Linked.{
  Below, Ending, label_to_block-Indexed, start_to_id-below, link_blocks-Below,
}

check_successors-ok :
    (count : ℕ) (ss : List ℕ) → All (λ s. s < count) ss → check_successors count ss ≡ ok tt
unfolding check_successors
check_successors-ok count [] h = refl
check_successors-ok count (s ∷ ss) (h, hs) =
    let t : ltb s count ≡ true = ground arith in rw t (check_successors-ok count ss hs)

pub check_blocks-ok :
    (count i : ℕ) (bs : List IrBlock)
    → i + length bs ≡ count
    → All (Below count) bs
    → Ending bs
    → check_blocks count i bs ≡ ok tt
unfolding check_blocks
check_blocks-ok count i [] e h l = refl
check_blocks-ok count i (b ∷ []) e (h, _) l = rw (check_successors-ok count b.successors h, l) refl
check_blocks-ok count i (b ∷ c ∷ bs) e (h, hs) l =
    let t : ltb (i + 1) count ≡ true = ground arith in
    let f : (is_terminator b.terminator || true) ≡ true = ground arith in
    rw (check_successors-ok count b.successors h, t, f)
      (check_blocks-ok count (i + 1) (c ∷ bs) (omega (arith, e)) hs l)

-- The last instruction is a terminator.
ends-last :
    (insts : List Instruction) (last : Instruction)
    → ends insts ≡ true
    → get_elem? insts (length insts - 1) ≡ some last
    → is_jump last.kind ≡ true
ends-last [] last e g = cc
ends-last (inst ∷ []) last e g = cc (e, g)
ends-last (inst ∷ next ∷ insts) last e g = ends-last (next ∷ insts) last e (ground (arith, g))

Made-Ending :
    (insts : List Instruction) (id : ℕ) (starts : List ℕ) (bs : List IrBlock)
    → ends insts ≡ true
    → Made insts id starts bs
    → Ending bs
Made-Ending insts id [] [] e m = tt
Made-Ending insts id [] (b ∷ bs) e m = absurd m
Made-Ending insts id (s ∷ ss) [] e m = absurd m
Made-Ending insts id (s ∷ []) (b ∷ []) e (_, _, (last, g, t), _) =
    is_terminator-is_jump b.terminator ∙ rw t (ends-last insts last e g)
Made-Ending insts id (s ∷ s' ∷ ss) (b ∷ c ∷ bs) e (_, _, _, m) =
    Made-Ending insts (id + 1) (s' ∷ ss) (c ∷ bs) e m
Made-Ending insts id (s ∷ []) (b ∷ c ∷ bs) e (_, _, _, m) = absurd m
Made-Ending insts id (s ∷ s' ∷ ss) (b ∷ []) e (_, _, _, m) = absurd m

last-ends :
    (insts : List Instruction) (last : Instruction)
    → get_elem? insts (length insts - 1) ≡ some last
    → is_jump last.kind ≡ true
    → ends insts ≡ true
last-ends [] last g j = cc
last-ends (inst ∷ []) last g j = cc (j, g)
last-ends (inst ∷ next ∷ insts) last g j = last-ends (next ∷ insts) last (ground (arith, g)) j

Made-ends :
    (insts : List Instruction) (id s : ℕ) (ss : List ℕ) (bs : List IrBlock)
    → Made insts id (s ∷ ss) bs
    → Ending bs
    → ends insts ≡ true
Made-ends insts id s ss [] m e = absurd m
Made-ends insts id s [] (b ∷ []) (_, _, (last, g, t), _) e =
    last-ends insts last g (rw t at (sym (is_terminator-is_jump b.terminator) ∙ e))
Made-ends insts id s (s' ∷ ss) (b ∷ c ∷ bs) (_, _, _, m) e =
    Made-ends insts (id + 1) s' ss (c ∷ bs) m e
Made-ends insts id s [] (b ∷ c ∷ bs) (_, _, _, m) e = absurd m
Made-ends insts id s (s' ∷ ss) (b ∷ []) (_, _, _, m) e = absurd m

-- The last loop refuses a last block without a terminator.
pub check_blocks-Ending :
    (count i : ℕ) (bs : List IrBlock)
    → i + length bs ≡ count
    → Post (λ _. Ending bs) (λ _. Unit {0}) (check_blocks count i bs)
unfolding check_blocks
check_blocks-Ending count i [] e = returns tt
check_blocks-Ending count i (b ∷ []) e =
    Post-bind (Post-true (check_successors count b.successors)) λ _ _.
      Post-bind (Post-check _ (is_terminator b.terminator || ltb (i + 1) count) tt)
        λ _ h. returns (ground arith)
check_blocks-Ending count i (b ∷ c ∷ bs) e =
    Post-bind (Post-true (check_successors count b.successors)) λ _ _.
      Post-bind (Post-check _ (is_terminator b.terminator || ltb (i + 1) count) tt)
        λ _ h. check_blocks-Ending count (i + 1) (c ∷ bs) (omega (arith, e))

Made-start :
    (insts : List Instruction) (id s : ℕ) (ss : List ℕ) (bs : List IrBlock)
    → Made insts id (s ∷ ss) bs
    → (b : IrBlock) × (rest : List IrBlock) × (bs ≡ b ∷ rest) × (b.start ≡ s)
Made-start insts id s ss [] m = absurd m
Made-start insts id s ss (b ∷ bs) (_, e, _, _) = (b, bs, refl, e)

-- The first of rising starts is 0 if 0 is among them.
pub Rising-zero :
    (starts : List ℕ) → Rising starts → 0 < occurrences 0 starts → (ss : List ℕ) × (starts ≡ 0 ∷ ss)
Rising-zero [] r h = absurd (omega (arith, h))
Rising-zero (zero ∷ ss) r h = (ss, refl)
Rising-zero (suc s ∷ ss) (r, _) h = absurd (above ss r (ground (arith, h)))
  where
    above : (ys : List ℕ) → All (λ y. suc s < y) ys → 0 < occurrences 0 ys → ⊥
    above [] a o = omega (arith, o)
    above (y ∷ ys) (a, as') o = above ys as' (ground (arith, a, o))

Rest-all :
    (all starts : List ℕ) → ((n : ℕ) → occurrences n starts ≡ occurrences n all) → Rest all starts
Rest-all all [] h = tt
Rest-all all (s ∷ ss) h = λ m _. sym (h m)

-- Blocks that have passed all loops but the last.
pub record Sound (blocks : List IrBlock) : Type 0 where
  pub below : All (Below (length blocks)) blocks
  pub entry : check_entry blocks ≡ ok tt

length-pos : {A : Type 0} (bs : List A) (b : A) (rest : List A) → bs ≡ b ∷ rest → 0 < length bs
length-pos [] b rest e = cc
length-pos (_ ∷ bs) b rest e = omega arith

entry-ok :
    (count : ℕ) (bs : List IrBlock)
    → 0 < length bs
    → block_end count bs ≡ 0
    → check_entry bs ≡ ok tt
unfolding check_entry
entry-ok count [] h e = absurd (omega (arith, h))
entry-ok count (b ∷ bs) h e = rw e refl

-- The blocks between rising starts that begin with 0.
rising-Sound :
    (insts : List Instruction) (labels : Labels) (ss : List ℕ) (blocks : List IrBlock)
    → Made insts 0 (0 ∷ ss) blocks
    → (linked : List IrBlock) × (link_blocks insts labels
          (start_to_id blocks)
          (label_to_block blocks [])
          blocks
        ≡ ok linked)
      × Sound linked
      × ((ends insts ≡ true) ↔ Ending linked)
rising-Sound insts labels ss blocks made =
    let (b, rest, eb, es) = Made-start insts 0 0 ss blocks made in
    let some_blocks : 0 < length blocks = length-pos blocks b rest eb in
    let (linked, el, len, below, end, first) =
      link_blocks-Below insts labels (start_to_id blocks) (label_to_block blocks []) (length blocks)
        0 (0 ∷ ss) blocks made some_blocks
        (start_to_id-below insts 0 (length blocks) (0 ∷ ss) blocks made (omega arith))
        (label_to_block-Indexed _ blocks [] refl) in
    let start : block_end (length insts) blocks ≡ 0 = rw eb es in
    (
      linked,
      el,
      record {
        below = rw len below;
        entry = entry-ok (length insts) linked (omega (arith, len, some_blocks)) (first ∙ start);
      },
      (
        (λ e. end.0 (Made-Ending insts 0 (0 ∷ ss) blocks e made)),
        λ x. Made-ends insts 0 0 ss blocks made (end.1 x),
      ),
    )

pub collect_blocks-Sound :
    (inst : Instruction) (insts : List Instruction) (labels : Labels)
    → ((name : Bytes) → Found labels (length (inst ∷ insts)) name (uses name (inst ∷ insts)))
    → (blocks : List IrBlock) × (collect_blocks (inst ∷ insts) labels ≡ ok blocks)
      × Sound blocks
      × ((ends (inst ∷ insts) ≡ true) ↔ Ending blocks)
unfolding collect_blocks
collect_blocks-Sound inst insts labels found =
    let (starts, es, good, zero_in, _, covered) = collect_starts_complete labels inst insts found in
    let (up, same) = sort_starts-Ascending starts in
    let rising =
      Ascending-Rising (sort_starts starts) up (λ n. omega (arith, same n, good.single n)) in
    let (ss, first) = Rising-zero (sort_starts starts) rising (omega (arith, same 0, zero_in)) in
    let (blocks, eb, made) =
      make_blocks-Made (inst ∷ insts) starts 0 (sort_starts starts) covered
        (sort_starts-All (λ s. s < length (inst ∷ insts)) starts good.below) rising
        (Rest-all starts (sort_starts starts) same) in
    let (linked, el, sound, end) =
      rising-Sound (inst ∷ insts) labels ss blocks (rw first at made) in
    (linked, rw (es, eb, el) refl, sound, end)

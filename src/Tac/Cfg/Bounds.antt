-- ===== src/Tac/Cfg/Bounds.antt =====
-- The indices of blocks in a graph of `Build`.
use wihajster.Common.{
  ℕ, zero, suc, ◌+◌, ◌<◌, List, [], ◌∷◌, length, ◌≡◌, refl, sym, ap, arith, All, ◌∙◌,
}
use wihajster.Common.Bytes.{Bytes}
use wihajster.Common.Maps.{Map, lookup, bytes_key, nat_eq}
use wihajster.Common.Outcome.{
  Outcome, ok, err, ◌>>=◌, Post, returns, raises, Post-bind, Post-map, Post-both, Post-with,
  Post-err,
}
use wihajster.Tac.Types.{Instruction, Function}
use wihajster.Tac.Validate.{ValidateError, validate_function, sort_starts}
use wihajster.Tac.Validate.Sorted.{occurrences, sort_starts-Ascending}
use wihajster.Tac.Validate.Calm as Valid
use wihajster.Tac.Validate.Calm.{validate_function-Calm}
use wihajster.Tac.Cfg.Leaders.{BuildError}
use wihajster.Tac.Cfg.Cutting.{sorted-Rising, zero-Starts}
use wihajster.Tac.Cfg.Partition.{index_labels-Below, collect_leaders-Leads}
use wihajster.Tac.Cfg.Aims.{Defined, Aims, index_labels-Defined, collect_leaders-Aims}
use wihajster.Tac.Cfg.Pieces.{Pieces, Pieces-Numbered, slice_blocks-Pieces}
use wihajster.Tac.Cfg.Flows.{bodies, AllFlow, length-bodies, Led-Target, link_successors-Linkage}
use wihajster.Tac.Cfg.Graph.{
  BasicBlock, Graph, block_labels, link_successors, start_to_block, add_predecessor,
  add_predecessors, link_predecessors, validated, build_blocks, build,
}
use wihajster.Tac.Cfg.Panics.{
  NoPanic, Calm, index_labels-Calm, collect_leaders-Calm, start_to_block-Below, Linked,
  link_successors-Linked,
}

-- As many blocks, with their successors.
record Keeps (bs out : List BasicBlock) : Type 0 where
  same_length : length out ≡ length bs
  still : (count : ℕ) → Linked count bs → Linked count out
  same_bodies : bodies out ≡ bodies bs
  flowing : (code : List (List Instruction)) (i : ℕ) → AllFlow code i bs → AllFlow code i out

Keeps-refl : (bs : List BasicBlock) → Keeps bs bs
Keeps-refl bs = record {
  same_length = refl;
  still = λ count l. l;
  same_bodies = refl;
  flowing = λ code i f. f;
}

Keeps-trans : {a b c : List BasicBlock} → Keeps a b → Keeps b c → Keeps a c
Keeps-trans h k = record {
  same_length = k.same_length ∙ h.same_length;
  still = λ count l. k.still count (h.still count l);
  same_bodies = k.same_bodies ∙ h.same_bodies;
  flowing = λ code i f. k.flowing code i (h.flowing code i f);
}

add_predecessor-Keeps :
    (i s : ℕ) (bs : List BasicBlock)
    → s < length bs
    → Post (Keeps bs) NoPanic (add_predecessor i s bs)
unfolding add_predecessor
add_predecessor-Keeps i s [] h = absurd (omega (arith, h))
add_predecessor-Keeps i zero (b ∷ bs) h = returns (record {
  same_length = refl;
  still = λ count l. record { bounds = l.bounds };
  same_bodies = refl;
  flowing = λ code i f. f;
})
add_predecessor-Keeps i (suc s) (b ∷ bs) h =
    Post-bind (add_predecessor-Keeps i s bs (omega (arith, h))) λ rest k. returns (record {
      same_length = let e = k.same_length in omega (arith, e);
      still = λ count l.
          let (x, xs) = l.bounds in
          let later = k.still count (record { bounds = xs }) in
          record { bounds = (x, later.bounds) };
      same_bodies = ap (λ c. b.instructions ∷ c) k.same_bodies;
      flowing = λ code j (f, fs). (f, k.flowing code (j + 1) fs);
    })

add_predecessors-Keeps :
    (i : ℕ) (ss : List ℕ) (bs : List BasicBlock)
    → All (λ s. s < length bs) ss
    → Post (Keeps bs) NoPanic (add_predecessors i ss bs)
unfolding add_predecessors
add_predecessors-Keeps i [] bs h = returns (Keeps-refl bs)
add_predecessors-Keeps i (s ∷ ss) bs (h, hs) = Post-bind (add_predecessor-Keeps i s bs h) λ bs' k.
    let e = k.same_length in
    Post-map (λ out k'. Keeps-trans k k') (add_predecessors-Keeps i ss bs' (rw e hs))

link_predecessors-Keeps :
    (i : ℕ) (bs blocks : List BasicBlock)
    → Linked (length blocks) bs
    → Post (Keeps blocks) NoPanic (link_predecessors i bs blocks)
unfolding link_predecessors
link_predecessors-Keeps i [] blocks l = returns (Keeps-refl blocks)
link_predecessors-Keeps i (b ∷ bs) blocks l =
    let (h, hs) = l.bounds in
    Post-bind (add_predecessors-Keeps i b.successors blocks h) λ blocks' k.
      let e = k.same_length in
      Post-map (λ out k'. Keeps-trans k k')
        (link_predecessors-Keeps (i + 1) bs blocks' (rw e (record { bounds = hs })))

-- A graph whose successors are indices of its blocks, and the right ones.
pub record Joined (blocks : List BasicBlock) : Type 0 where
  pub bounds : Linked (length blocks) blocks
  pub flows : AllFlow (bodies blocks) 0 blocks

-- The blocks with their successors, from blocks that begin at the leaders.
link_blocks-Joined :
    (insts : List Instruction) (defs : Map Bytes ℕ) (leaders starts : List ℕ)
    (blocks : List BasicBlock)
    → Defined insts defs
    → ((n : ℕ) → occurrences n starts ≡ occurrences n leaders)
    → Pieces insts (Aims defs leaders) 0 starts blocks
    → Post Joined NoPanic (
        link_successors defs (start_to_block blocks) (length blocks) 0 blocks >>= λ linked.
        link_predecessors 0 linked linked)
link_blocks-Joined insts defs leaders starts blocks d same p =
    let n = Pieces-Numbered p in
    let below = start_to_block-Below (length blocks) 0 blocks (omega arith) n in
    Post-bind
      (Post-both
        (link_successors-Linked defs (start_to_block blocks) (length blocks) 0 0 blocks below
          (omega arith) n)
        (Post-with
          (link_successors-Linkage defs leaders (start_to_block blocks) (bodies blocks)
            (length blocks) (sym (length-bodies blocks))
            (λ name. Led-Target insts (Aims defs leaders) defs leaders starts blocks name d same p)
            insts 0 0 starts blocks p)
          (link_successors-Linked defs (start_to_block blocks) (length blocks) 0 0 blocks below
            (omega arith) n)))
      λ linked ((e, l), m).
        let ready : Linked (length linked) linked = rw e l in
        Post-map
          (λ out k.
            let f = k.same_length in
            let same_code : bodies out ≡ bodies blocks = k.same_bodies ∙ m.kept in
            record {
              bounds = rw f (k.still (length linked) ready);
              flows = rw same_code (k.flowing (bodies blocks) 0 m.flows);
            })
          (link_predecessors-Keeps 0 linked linked ready)

linked_graph :
    (fn : Function) (blocks : List BasicBlock) (r : Outcome BuildError (List BasicBlock))
    → Post Joined NoPanic (r >>= λ linked. link_predecessors 0 linked linked)
    → Post
        (λ (g : Graph). Joined g.blocks)
        NoPanic
        (r >>= λ linked. link_predecessors 0 linked linked >>= λ all.
          ok (record { function = fn; blocks = all; labels = block_labels blocks [] }))
linked_graph fn blocks (err e) h = raises (Post-err h)
linked_graph fn blocks (ok linked) h = Post-bind h λ all j. returns j

no_label-Defined : (insts : List Instruction) → Defined insts []
unfolding lookup
no_label-Defined insts = record { opens = λ name j e. cc e }

-- The leaders are found, and the blocks begin at them.
build_blocks-Joined :
    (fn : Function) (insts : List Instruction)
    → Post (λ g. Joined g.blocks) NoPanic (build_blocks fn insts)
unfolding build_blocks
build_blocks-Joined fn [] = returns (record { bounds = record { bounds = tt }; flows = tt })
build_blocks-Joined fn (inst ∷ insts) =
    let all = inst ∷ insts in
    let empty : Defined all [] = no_label-Defined all in
    Post-bind
      (Post-with
        (Post-both (index_labels-Below (length all) 0 all [] (omega arith) tt) (
          index_labels-Defined all 0 all [] (λ k. let z : 0 + k ≡ k = omega arith in rw z refl)
            empty))
        (index_labels-Calm 0 all []))
      λ defs (d, o).
        let zero_in = zero-Starts (length all) (omega arith) in
        Post-bind
          (Post-with
            (Post-both (collect_leaders-Leads defs (length all) 0 all (0 ∷ []) d zero_in)
              (collect_leaders-Aims defs (length all) 0 all (0 ∷ []) d zero_in))
            (collect_leaders-Calm defs (length all) 0 all (0 ∷ [])))
          λ leaders (l, aims).
            let (rising, below, _) = sorted-Rising (length all) leaders l in
            let (_, same) = sort_starts-Ascending leaders in
            Post-bind
              (slice_blocks-Pieces all (Aims defs leaders) 0 (sort_starts leaders) aims below
                rising)
              λ blocks p.
                linked_graph fn blocks
                  (link_successors defs (start_to_block blocks) (length blocks) 0 blocks)
                  (link_blocks-Joined all defs leaders (sort_starts leaders) blocks o same p)

validated-Calm : (r : Outcome ValidateError (Unit {0})) → Valid.Calm r → Calm (validated r)
validated-Calm _ (returns h) = returns tt
validated-Calm _ (raises h) = raises h

-- `Build` returns a graph or an error, and neither it nor the validation indexes or cuts a slice out
-- of its range. In the graph every successor is the index of a block. A block that ends in a jump
-- has one successor, the block that begins with the label of the jump; one that ends in a branch has
-- the two blocks that begin with its labels, or one if they are the same; one that ends in a return
-- has none; and any other has the next block, if there is one.
pub build-Linked : (fn : Function) → Post (λ g. Joined g.blocks) NoPanic (build fn)
unfolding build
build-Linked fn =
    Post-bind (validated-Calm (validate_function fn) (validate_function-Calm fn))
      λ _ _. build_blocks-Joined fn fn.instructions

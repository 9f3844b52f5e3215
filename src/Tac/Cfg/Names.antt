-- ===== src/Tac/Cfg/Names.antt =====
-- The labels that `EnsureLabel` makes.
use wihajster.Common.{ℕ, zero, suc, true, List, [], ◌∷◌, get_elem?, ◌≡◌, ◌≢◌, refl, ap, ◌∙◌, some}
use wihajster.Common.Bytes.{Bytes}
use wihajster.Common.Maps.{Map, lookup, assign, bytes_eq, bytes_eq_iff, bytes_key}
use wihajster.Tac.Cfg.Graph.{
  BasicBlock, Graph, block_by_label, set_block, block_label, ensure_block, ensure_label,
}

get_elem?-set_block :
    (bs : List BasicBlock) (i : ℕ) (a b : BasicBlock)
    → get_elem? bs i ≡ some a
    → get_elem? (set_block bs i b) i ≡ some b
unfolding set_block
get_elem?-set_block [] i a b h = cc
get_elem?-set_block (c ∷ bs) zero a b h = refl
get_elem?-set_block (c ∷ bs) (suc i) a b h = get_elem?-set_block bs i a b h

-- The graph in which the block has the label.
abbrev named : Graph → ℕ → BasicBlock → Graph
named g id b = record g {
  blocks = set_block g.blocks id (record b { label = block_label id });
  labels = assign (block_label id) id g.labels;
}

ensure_label-at :
    (g : Graph) (id : ℕ) (b : BasicBlock)
    → get_elem? g.blocks id ≡ some b
    → ensure_label g id ≡ ensure_block g id b b.label
unfolding ensure_label
ensure_label-at g id b h = rw (h, ensure_label) refl

ensure_block-named :
    (g : Graph) (id : ℕ) (b : BasicBlock)
    → b.label ≡ []
    → ensure_block g id b b.label ≡ (block_label id, named g id b)
unfolding ensure_block
ensure_block-named g id b e = ap (λ l. ensure_block g id b l) e

ensure_block-kept :
    (g : Graph) (id : ℕ) (b : BasicBlock)
    → ensure_block g id b (block_label id) ≡ (block_label id, g)
unfolding ensure_block block_label
ensure_block-kept g id b = refl

block_label-full : (id : ℕ) → block_label id ≢ []
unfolding block_label
block_label-full id same = cc

lookup-assign :
    (label : Bytes) (id : ℕ) (labels : Map Bytes ℕ)
    → lookup label (assign label id labels) ≡ some id
unfolding lookup
lookup-assign label id labels =
    let t : bytes_eq label label ≡ true = (bytes_eq_iff label label).1 refl in rw t refl

block_by_label-assign :
    (g : Graph) (id : ℕ) (label : Bytes) (blocks : List BasicBlock)
    → block_by_label (record g { blocks = blocks; labels = assign label id g.labels }) label
      ≡ (id, true)
unfolding block_by_label
block_by_label-assign g id label blocks = rw (lookup-assign label id g.labels, block_by_label) refl

-- For a block without a label, `EnsureLabel` makes one that is not empty, under which
-- `BlockByLabel` then finds the block, and which a second call returns without a change.
pub ensure_label-block_by_label :
    (g : Graph) (id : ℕ) (b : BasicBlock)
    → get_elem? g.blocks id ≡ some b
    → b.label ≡ []
    → (out : Bytes × Graph) × (ensure_label g id ≡ out)
      × (out.0 ≢ [])
      × (block_by_label out.1 out.0 ≡ (id, true))
      × (ensure_label out.1 id ≡ out)
ensure_label-block_by_label g id b h e = (
  (block_label id, named g id b),
  ensure_label-at g id b h ∙ ensure_block-named g id b e,
  block_label-full id,
  block_by_label-assign g id (block_label id) (named g id b).blocks,
  ensure_label-at (named g id b) id (record b { label = block_label id })
        (get_elem?-set_block g.blocks id b (record b { label = block_label id }) h)
      ∙ ensure_block-kept (named g id b) id (record b { label = block_label id }),
)
